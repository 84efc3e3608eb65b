-- ===== src/Acpi/Search.antt =====
-- src/acpi/rsdp.c, the search for the root pointer in memory.
pub mod Root
pub mod Areas
use drewos.Base.{
  ℕ, zero, suc, ◌+◌, ◌*◌, ◌^◌, ◌==◌, ◌&&◌, ltb, Bool, true, false, Option, none, some,
  if◌then◌else◌,
}
use drewos.Base.{List, [], ◌∷◌, u8, u32, codes}
use drewos.Memory.{Memory}
use drewos.Acpi.{add_bytes}

abbrev pub ebda_base_address : ℕ
ebda_base_address = 0x040e

abbrev pub ebda_size : ℕ
ebda_size = 1024

abbrev pub bios_main_start : ℕ
bios_main_start = 0xe0000

abbrev pub bios_main_end : ℕ
bios_main_end = 0xfffff

abbrev pub rsdp_align : ℕ
rsdp_align = 16

-- `RSDP_SIGNATURE`, which has no NUL.
abbrev pub rsdp_signature : List ℕ
rsdp_signature = codes "RSD PTR "

-- `sizeof(rsdp_t)`.
abbrev pub rsdp_size : ℕ
rsdp_size = 20

-- The byte at an offset.
abbrev pub byte_at : Memory → ℕ → ℕ → ℕ
byte_at mem p i = u8 (mem (u32 (p + i)))

-- `*(uint64_t *)rsdp->signature`.
abbrev pub read64 : Memory → ℕ → ℕ
read64 mem p =
    byte_at mem p 0
    + byte_at mem p 1 * 2 ^ 8
    + byte_at mem p 2 * 2 ^ 16
    + byte_at mem p 3 * 2 ^ 24
    + byte_at mem p 4 * 2 ^ 32
    + byte_at mem p 5 * 2 ^ 40
    + byte_at mem p 6 * 2 ^ 48
    + byte_at mem p 7 * 2 ^ 56

-- `*(uint64_t *)RSDP_SIGNATURE`.
abbrev pub little_endian : List ℕ → ℕ
little_endian [] = 0
little_endian (c ∷ s) = c + 2 ^ 8 * little_endian s

unfoldable pub validate_rsdp : Memory → ℕ → Bool
validate_rsdp mem rsdp =
    if read64 mem rsdp == little_endian rsdp_signature
    then add_bytes mem rsdp rsdp_size 0 0 == 0
    else false

-- The `for` of `sdp_search` from address `i` on, on fuel: `none` is a loop that has not ended.
unfoldable pub sdp_search : Memory → ℕ → ℕ → ℕ → Option ℕ
sdp_search mem zero i end_address = none
sdp_search mem (suc fuel) i end_address =
    let rest = sdp_search mem fuel (i + rsdp_align) end_address in
    if ltb i end_address then (if validate_rsdp mem i then some i else rest) else some 0

-- `(*ebda_ptr) << 4`.
abbrev pub ebda_start : Memory → ℕ
ebda_start mem = (byte_at mem ebda_base_address 0 + byte_at mem ebda_base_address 1 * 2 ^ 8) * 2 ^ 4

-- The first area has 64 places, the second 8192.
unfoldable pub locate_sdp : Memory → Option ℕ
locate_sdp mem =
    let bios = sdp_search mem 8193 bios_main_start bios_main_end in
    elim (sdp_search mem 65 (ebda_start mem) (ebda_start mem + ebda_size)) [
      | none ↦ none
      | some sdp ↦ if sdp == 0 then bios else some sdp
    ]
