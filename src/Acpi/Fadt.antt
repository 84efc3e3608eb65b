-- ===== src/Acpi/Fadt.antt =====
-- src/acpi/fadt.c and src/acpi/madt.c: the two tables that the kernel looks up, and the switch to
-- ACPI mode.
pub mod Enable
use drewos.Base.{
  some, List, ℕ, zero, suc, ◌+◌, ◌*◌, ◌^◌, ◌==◌, ltb, bit_and, Bool, true, false, none, [],
  if◌then◌else◌, u8, u32, codes,
}
use drewos.Memory.{Memory}
use drewos.Acpi.{read32, get_sdt}
use drewos.Acpi.Search.{byte_at}
use drewos.Machine.{Device, Machine, AcpiState, K, pure, gets, ◌>>=◌, ◌>>◌, write_byte, read_word}
use drewos.Ps2.{say}

-- The offsets of the fields of `fadt_t` that are read.
abbrev pub revision : ℕ
revision = 8

abbrev pub smi_command_port : ℕ
smi_command_port = 48

abbrev pub acpi_enable_field : ℕ
acpi_enable_field = 52

abbrev pub pm1a_control_block : ℕ
pm1a_control_block = 64

abbrev pub boot_architecture_flags : ℕ
boot_architecture_flags = 109

abbrev pub fadt_signature : List ℕ
fadt_signature = codes "FACP"

abbrev pub madt_signature : List ℕ
madt_signature = codes "APIC"

abbrev pub on_acpi : (AcpiState → AcpiState) → K (Unit {0})
on_acpi f m = some (tt, record m { acpi = f m.acpi })

-- A `uint16_t` in memory.
abbrev pub read16 : Memory → ℕ → ℕ
read16 mem p = byte_at mem p 0 + byte_at mem p 1 * 2 ^ 8

-- `get_sdt` with the roots and the memory of the machine.
abbrev pub find_sdt : List ℕ → Machine → ℕ
find_sdt signature m = get_sdt m.screen.mem m.acpi.roots signature

module _ (dev : Device) where
  unfoldable pub fadt_init : K (Unit {0})
  fadt_init = do
    table ← gets (find_sdt fadt_signature)
    on_acpi (λ s. record s { fadt = table })
    elim (table == 0) [ true ↦ say dev (codes "Failed to locate FADT") [] | false ↦ pure tt ]

  unfoldable pub madt_init : K (Unit {0})
  madt_init = do
    table ← gets (find_sdt madt_signature)
    on_acpi (λ s. record s { madt = table })
    elim (table == 0) [ true ↦ say dev (codes "Failed to locate MADT") [] | false ↦ pure tt ]

  -- The control register, whose port stands in the table.
  unfoldable pub read_control : K ℕ
  read_control = do
    port ← gets (λ m. read32 m.screen.mem (m.acpi.fadt + pm1a_control_block))
    read_word dev port

  -- The `while` of `acpi_enable` on fuel; `none` is a loop that has not ended.
  unfoldable pub await_enabled : ℕ → K (Unit {0})
  await_enabled zero m = none
  await_enabled (suc fuel) m =
      (read_control >>= λ control. elim (bit_and control 1 == 0) [
        | true ↦ await_enabled fuel
        | false ↦ pure tt
      ])
        m

  -- There is no test for a table that has not been found: then the fields are read from address 0 on.
  unfoldable pub acpi_enable : ℕ → K (Unit {0})
  acpi_enable fuel = do
    port ← gets (λ m. read32 m.screen.mem (m.acpi.fadt + smi_command_port))
    command ← gets (λ m. byte_at m.screen.mem m.acpi.fadt acpi_enable_field)
    write_byte port command
    await_enabled fuel

  unfoldable pub ps2_controller_exists : K Bool
  ps2_controller_exists = gets λ m.
      let fadt : ℕ = m.acpi.fadt in
      let flags : ℕ = read16 m.screen.mem (fadt + boot_architecture_flags) in
      if fadt == 0
      then true
      else if ltb (byte_at m.screen.mem fadt revision) 2
      then true
      else bit_and flags 2 == 2
