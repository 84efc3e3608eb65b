-- ===== src/Tests/Boot.antt =====
-- The start of the kernel, the PS/2 driver and ACPI at fixed inputs.
use drewos.Base.{
  zero, suc, ◌-◌, ltb, ◌++◌, ℕ, ◌≡◌, refl, arith, true, some, List, [], ◌∷◌, codes, if◌then◌else◌,
}
use drewos.Memory.{Memory}
use drewos.Machine.{Device, Platform}
use drewos.Machine.Ends.{Ends}
use drewos.Acpi.{add_bytes}
use drewos.Acpi.Search.{validate_rsdp, locate_sdp}
use drewos.Acpi.Search.Root.{IsRsdp, validate_rsdp-IsRsdp}
use drewos.Acpi.Search.Areas.{Located, locate_sdp-Located}
use drewos.Acpi.Fadt.{acpi_enable}
use drewos.Acpi.Fadt.Enable.{Awaited, commanded, acpi_enable-Awaited}
use drewos.Acpi.Startup.{init_rsdp}
use drewos.Acpi.Startup.Roots.{Started, init_rsdp-Started}
use drewos.Keyboard.{ps2_kbd_init}
use drewos.Keyboard.Scan.{KeepsSet1}
use drewos.Keyboard.Setup.{interrupted, Installed, ps2_kbd_init-Initialised}
use drewos.Ps2.{port0}
use drewos.Ps2.Reset.Answers.{NeverResends}
use drewos.Base.{◌≢◌}
use drewos.Ps2.Init.{ps2_init}
use drewos.Machine.Comes.{Comes}
use drewos.Ps2.Init.Devices.{IsCalm, AtInterrupt, HasDriver}
use drewos.Ps2.Init.After.{Fresh, After}
use drewos.Ps2.Init.Outcome.{IsConsistent, remainder, ps2_init-IsConsistent}
use drewos.Kernel.{main}
use drewos.Kernel.Boot.{IsBooted, last_remainder, main-IsBooted}
use drewos.Tests.Data.{fresh, platform_with}

-- Every port answers with 0x55: the controller is ready, and its self-test passes.
abbrev steady : Device
steady t p = 0x55

abbrev platform : Platform
platform = platform_with steady

never_resends : NeverResends steady
never_resends t h = absurd (omega arith)

keeps_set_1 : KeepsSet1 steady
keeps_set_1 t = (λ h. absurd (omega arith), λ h. absurd (omega arith))

platform-IsCalm : IsCalm platform
platform-IsCalm = record { never = never_resends; keeps = keeps_set_1 }

at_start : Fresh fresh.ps2
at_start = record { second = refl; no_first = refl; no_second = refl }

main-IsBooted_example :
    Comes
      (last_remainder platform 3 0)
      (main platform 1 4 1)
      fresh
      (λ n. IsBooted platform fresh n × HasDriver platform 0x21 n)
      (λ _. IsBooted platform fresh)
main-IsBooted_example =
    main-IsBooted platform platform-IsCalm 1 (λ n. (0, omega arith, refl)) 3 0 fresh at_start
      (omega arith)

ps2_init-IsConsistent_example :
    Comes
      (remainder platform 3 0)
      (ps2_init platform 4 1)
      fresh
      (AtInterrupt platform IsConsistent fresh)
      (λ _ n. After IsConsistent fresh n)
ps2_init-IsConsistent_example = ps2_init-IsConsistent platform platform-IsCalm 3 0 fresh at_start

ps2_kbd_init-Initialised_example :
    Comes
      (λ (_ : Unit {0}). interrupted platform)
      (ps2_kbd_init platform 4 1 port0)
      fresh
      (λ n. (fresh.keyboard.vector ≡ 0) × Installed platform port0 fresh n)
      (λ _ n. (fresh.keyboard.vector ≢ 0) × (n ≡ fresh))
ps2_kbd_init-Initialised_example =
    ps2_kbd_init-Initialised platform never_resends keeps_set_1 3 0 port0 fresh

init_rsdp-Started_example : Ends (init_rsdp steady) fresh (λ _. Started fresh)
init_rsdp-Started_example = init_rsdp-Started steady fresh (omega arith)

locate_sdp-Located_example :
    (p : ℕ) × (locate_sdp fresh.screen.mem ≡ some p) × Located fresh.screen.mem p
locate_sdp-Located_example = locate_sdp-Located fresh.screen.mem (omega arith)

-- A root pointer of 20 bytes at 0x9000.
abbrev root_bytes : List ℕ
root_bytes = codes "RSD PTR " ++ 12 ∷ codes "DREWOS" ++ 0 ∷ 0 ∷ 0 ∷ 1 ∷ 0 ∷ []

abbrev nth : List ℕ → ℕ → ℕ
nth [] i = 0
nth (b ∷ bs) zero = b
nth (b ∷ bs) (suc i) = nth bs i

abbrev root_memory : Memory
root_memory p = if ltb p 0x9000 then 0 else nth root_bytes (p - 0x9000)

validate_rsdp-IsRsdp_example :
    ((validate_rsdp root_memory 0x9000 ≡ true) → IsRsdp root_memory 0x9000)
    × (IsRsdp root_memory 0x9000 → validate_rsdp root_memory 0x9000 ≡ true)
validate_rsdp-IsRsdp_example = validate_rsdp-IsRsdp root_memory 0x9000

accepted : validate_rsdp root_memory 0x9000 ≡ true
unfolding validate_rsdp add_bytes
accepted = refl

acpi_enable-Awaited_example : Awaited steady 3 (commanded steady fresh) (acpi_enable steady 3 fresh)
acpi_enable-Awaited_example = acpi_enable-Awaited steady 3 fresh
