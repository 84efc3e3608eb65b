-- ===== src/Tests/Tables.antt =====
-- src/acpi/rsdt.c at a fixed memory.
use drewos.Base.{arith, ◌+◌, ◌*◌, ◌/◌, ◌%◌, ◌^◌, ◌≡◌, refl, ◌==◌, if◌then◌else◌, codes}
use drewos.Memory.{Memory}
use drewos.Acpi.{
  read32, Roots, get_num_tables, get_table, get_sdt, matches, find_table, validate_checksum,
  validate_signature,
}
use drewos.Acpi.{add_bytes, match_chars}
use drewos.Acpi.Lookup.{Found, by_rsdt, get_sdt-Found}

-- An RSDT at 0x100 with one entry, the table at 0x200: its signature, the length 8, and a sum of 256.
abbrev memory : Memory
memory p =
    if p == 0x104
    then 40
    else if p == 0x125
    then 2
    else if p == 0x200
    then b'F'
    else if p == 0x201
    then b'A'
    else if p == 0x202
    then b'C'
    else if p == 0x203
    then 46
    else if p == 0x204
    then 8
    else 0

abbrev roots : Roots
roots = record { rsdt = 0x100; xsdt = 0 }

found_at : get_sdt memory roots (codes "FAC.") ≡ 0x200
unfolding get_sdt get_num_tables get_table matches find_table validate_checksum validate_signature
    add_bytes match_chars
found_at = refl

get_sdt-Found_example :
    Found memory
      (codes "FAC.")
      (λ i. read32 memory (0x100 + 36 + 4 * i))
      0
      ((read32 memory (0x100 + 4) + 4294967260) % 2 ^ 32 / 4)
      (get_sdt memory roots (codes "FAC."))
get_sdt-Found_example = get_sdt-Found memory roots (codes "FAC.") (by_rsdt (omega arith))
