-- ===== src/Acpi.antt =====
-- src/acpi/rsdt.c: the tables that the RSDT or the XSDT lists, in a memory of bytes at 32-bit
-- addresses. `rsdt_init` is in Startup.
pub mod Lookup
pub mod Search
pub mod Fadt
pub mod Startup
use drewos.Base.{
  ℕ, zero, suc, ◌+◌, ◌-◌, ◌*◌, ◌/◌, ◌%◌, ◌^◌, Bool, true, false, ◌&&◌, ◌==◌, if◌then◌else◌,
}
use drewos.Base.{List, [], ◌∷◌, u8, u32}
use drewos.Memory.{Memory}

-- A `uint32_t` in memory, its lowest byte first.
abbrev pub read32 : Memory → ℕ → ℕ
read32 mem p =
    u8 (mem (u32 p))
    + u8 (mem (u32 (p + 1))) * 2 ^ 8
    + u8 (mem (u32 (p + 2))) * 2 ^ 16
    + u8 (mem (u32 (p + 3))) * 2 ^ 24

-- `rsdt` and `xsdt`: addresses, of which the null pointer is 0.
pub record Roots : Type 0 where
  pub rsdt : ℕ
  pub xsdt : ℕ

-- `sizeof(acpi_sdt_header_t)`.
abbrev pub header_size : ℕ
header_size = 36

-- `header->length`, behind the signature.
abbrev pub header_length : Memory → ℕ → ℕ
header_length mem header = read32 mem (header + 4)

-- The loop of `validate_checksum` from byte `i` on, with `n` rounds left.
unfoldable pub add_bytes : Memory → ℕ → ℕ → ℕ → ℕ → ℕ
add_bytes mem header zero i checksum = checksum
add_bytes mem header (suc n) i checksum =
    add_bytes mem header n (i + 1) (u8 (checksum + u8 (mem (u32 (header + i)))))

unfoldable pub validate_checksum : Memory → ℕ → Bool
unfolding add_bytes
validate_checksum mem header = add_bytes mem header (header_length mem header) 0 0 == 0

-- The loop of `validate_signature` from character `i` on; the signature is the list of its four.
unfoldable pub match_chars : Memory → ℕ → List ℕ → ℕ → Bool
match_chars mem header [] i = true
match_chars mem header (c ∷ signature) i =
    let rest = match_chars mem header signature (i + 1) in
    if u8 (mem (u32 (header + i))) == c then rest else false

unfoldable pub validate_signature : Memory → ℕ → List ℕ → Bool
unfolding match_chars
validate_signature mem header signature = match_chars mem header signature 0

-- `(header.length - sizeof(acpi_sdt_header_t)) / sizeof(uintptr_t)`, unsigned.
abbrev pub count_entries : Memory → ℕ → ℕ
count_entries mem root = u32 (header_length mem root + (2 ^ 32 - header_size)) / 4

unfoldable pub get_num_tables : Memory → Roots → ℕ
get_num_tables mem roots =
    if roots.rsdt == 0
    then (if roots.xsdt == 0 then 0 else count_entries mem roots.xsdt)
    else count_entries mem roots.rsdt

-- Of an entry of 64 bits the low half is taken.
unfoldable pub get_table : Memory → Roots → ℕ → ℕ
get_table mem roots i =
    if roots.rsdt == 0
    then (if roots.xsdt == 0 then 0 else read32 mem (roots.xsdt + header_size + 8 * i))
    else read32 mem (roots.rsdt + header_size + 4 * i)

module _ (mem : Memory) (roots : Roots) (signature : List ℕ) where
  -- The condition on table `i`.
  unfoldable pub matches : ℕ → Bool
  matches i =
      let header : ℕ = get_table mem roots i in
      validate_checksum mem header && validate_signature mem header signature

  -- The loop of `get_sdt` from table `i` on, with `n` rounds left.
  unfoldable pub find_table : ℕ → ℕ → ℕ
  find_table zero i = 0
  find_table (suc n) i =
      let rest = find_table n (i + 1) in if matches i then get_table mem roots i else rest

  unfoldable pub get_sdt : ℕ
  unfolding find_table
  get_sdt = find_table (get_num_tables mem roots) 0
