-- ===== src/Boot/Gdt.antt =====
-- src/boot/gdt.asm: the segments of protected mode.
use drewos.Base.{
  ℕ, ◌+◌, ◌-◌, ◌*◌, ◌/◌, ◌%◌, ◌^◌, ◌<◌, ◌≡◌, refl, arith, Option, none, some, leb, ◌==◌,
  if◌then◌else◌, u32,
}
use drewos.Base.{List, [], ◌∷◌, ◌++◌, length, drop}
use drewos.Idt.{descriptor}

abbrev pub gdt_null : List ℕ
gdt_null = 0 ∷ 0 ∷ 0 ∷ 0 ∷ 0 ∷ 0 ∷ 0 ∷ 0 ∷ []

abbrev pub gdt_code : List ℕ
gdt_code = 0xff ∷ 0xff ∷ 0x00 ∷ 0x00 ∷ 0x00 ∷ 0b10011010 ∷ 0b11001111 ∷ 0x00 ∷ []

abbrev pub gdt_data : List ℕ
gdt_data = 0xff ∷ 0xff ∷ 0x00 ∷ 0x00 ∷ 0x00 ∷ 0b10010010 ∷ 0b11001111 ∷ 0x00 ∷ []

-- The bytes from `gdt_start` to `gdt_end`.
abbrev pub gdt : List ℕ
gdt = gdt_null ++ gdt_code ++ gdt_data

-- The first half of `gdt_descriptor`.
abbrev pub gdt_limit : ℕ
gdt_limit = length gdt - 1

-- `CODE_SEG` and `DATA_SEG`.
abbrev pub code_seg : ℕ
code_seg = length gdt_null

abbrev pub data_seg : ℕ
data_seg = length (gdt_null ++ gdt_code)

-- A segment, as the processor reads its descriptor.
pub record Segment : Type 0 where
  pub base : ℕ
  pub limit : ℕ
  pub present : ℕ
  pub ring : ℕ
  pub executable : ℕ
  pub writable : ℕ
  pub wide : ℕ

-- In pages, the limit takes in all of its last page. For code `writable` is the bit `readable`.
abbrev pub scaled : ℕ → ℕ → ℕ
scaled granularity limit = if granularity == 1 then limit * 4096 + 4095 else limit

abbrev pub segment_of : List ℕ → Option Segment
segment_of (l0 ∷ l1 ∷ b0 ∷ b1 ∷ b2 ∷ access ∷ flags ∷ b3 ∷ _) = some record {
  base = b0 + b1 * 2 ^ 8 + b2 * 2 ^ 16 + b3 * 2 ^ 24;
  limit = scaled (flags / 2 ^ 7) (l0 + l1 * 2 ^ 8 + flags % 2 ^ 4 * 2 ^ 16);
  present = access / 2 ^ 7;
  ring = access / 2 ^ 5 % 2 ^ 2;
  executable = access / 2 ^ 3 % 2;
  writable = access / 2 % 2;
  wide = flags / 2 ^ 6 % 2;
}
segment_of _ = none

-- The linear address of an offset in the segment of a selector; the null selector has none.
abbrev pub linear : ℕ → ℕ → Option ℕ
linear selector offset =
    if selector == 0
    then none
    else if leb (gdt_limit + 1) (selector + 7)
    then none
    else elim (segment_of (drop selector gdt)) [
      | none ↦ none
      | some s ↦ if leb offset s.limit then some (u32 (s.base + offset)) else none
    ]

-- A segment of all 32-bit addresses, for the kernel.
abbrev pub flat : ℕ → Segment
flat executable = record {
  base = 0;
  limit = 2 ^ 32 - 1;
  present = 1;
  ring = 0;
  executable = executable;
  writable = 1;
  wide = 1;
}

within_limit :
    (offset : ℕ)
    → offset < 2 ^ 32
    → (if leb offset (2 ^ 32 - 1) then some (u32 (0 + offset)) else none) ≡ some offset
within_limit offset h = ground arith

-- Both segments are present, 32 bits wide and in ring 0, and have every offset of 32 bits as the
-- linear address; only the first holds code, and it is the segment of each gate that the kernel
-- makes. The first can be read, and the second written. The null selector has no address.
gdt_lem :
    (offset isr flags : ℕ)
    → offset < 2 ^ 32
    → (segment_of (drop code_seg gdt) ≡ some (flat 1))
      × (segment_of (drop data_seg gdt) ≡ some (flat 0))
      × (linear code_seg offset ≡ some offset)
      × (linear data_seg offset ≡ some offset)
      × (linear 0 offset ≡ none)
      × ((descriptor isr flags).kernel_cs ≡ code_seg)
gdt_lem offset isr flags h = (refl, refl, within_limit offset h, within_limit offset h, refl, refl)
