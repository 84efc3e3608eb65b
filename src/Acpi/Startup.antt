-- ===== src/Acpi/Startup.antt =====
-- `rsdt_init` of src/acpi/rsdt.c, `init_rsdp` of src/acpi/rsdp.c and src/acpi/acpi.c.
pub mod Tables
pub mod Roots
use drewos.Base.{ℕ, ◌+◌, ◌==◌, ◌&&◌, not, Bool, true, false, none, some, [], codes, if◌then◌else◌}
use drewos.Memory.{Memory}
use drewos.Acpi.{read32, validate_checksum}
use drewos.Acpi.Search.{byte_at, locate_sdp}
use drewos.Acpi.Fadt.{on_acpi, fadt_init, madt_init, acpi_enable}
use drewos.Machine.{Device, Machine, K, pure, gets, ◌>>=◌, ◌>>◌}
use drewos.Ps2.{say}

-- `sdp` behind `locate_sdp`, whose loops end.
abbrev pub located : K ℕ
located m = elim (locate_sdp m.screen.mem) [ none ↦ none | some sdp ↦ some (sdp, m) ]

-- The offsets of fields: `rsdp_t` has a signature of 8 bytes, a checksum, 6 bytes of the vendor, the
-- revision and the address of the RSDT; in `xsdp_t` a length and the address of the XSDT follow.
abbrev sdp_revision : ℕ
sdp_revision = 8 + 1 + 6

abbrev rsdt_address : ℕ
rsdt_address = 8 + 1 + 6 + 1

abbrev xsdt_address : ℕ
xsdt_address = 8 + 1 + 6 + 1 + 4 + 4

-- A root that is there has a wrong sum.
abbrev pub is_broken : Memory → ℕ → Bool
is_broken mem root = not (root == 0) && not (validate_checksum mem root)

module _ (dev : Device) where
  unfoldable pub rsdt_init : ℕ → ℕ → K (Unit {0})
  rsdt_init r x = do
    on_acpi (λ s. record s { roots = record { rsdt = r; xsdt = x } })
    mem ← gets (λ m. m.screen.mem)
    elim (is_broken mem r) [
      | true ↦ say dev (codes "Invalid RSDT checksum") []
      | false ↦ elim (is_broken mem x) [
        | true ↦ say dev (codes "Invalid XSDT checksum") []
        | false ↦ do fadt_init dev; madt_init dev
      ]
    ]

  -- The two layouts of the root pointer: of an `xsdp_t` the 64-bit address behind the length is
  -- taken, its low half, of an `rsdp_t` the 32-bit address behind the revision.
  unfoldable pub use_sdp : ℕ → K (Unit {0})
  use_sdp sdp = do
    mem ← gets (λ m. m.screen.mem)
    elim (byte_at mem sdp sdp_revision == 2) [
      | true ↦ do
        on_acpi (λ s. record s { rsdp = 0; xsdp = sdp })
        rsdt_init 0 (read32 mem (sdp + xsdt_address))
      | false ↦ do
        on_acpi (λ s. record s { rsdp = sdp; xsdp = 0 })
        rsdt_init (read32 mem (sdp + rsdt_address)) 0
    ]

  unfoldable pub init_rsdp : K (Unit {0})
  init_rsdp = do
    sdp ← located
    elim (sdp == 0) [
      | true ↦ say dev (codes "Failed to locate valid RSDP/XSDP signature") []
      | false ↦ use_sdp sdp
    ]

  unfoldable pub acpi_init : ℕ → K (Unit {0})
  acpi_init fuel = do init_rsdp; acpi_enable dev fuel
