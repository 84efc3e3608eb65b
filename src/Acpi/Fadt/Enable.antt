-- ===== src/Acpi/Fadt/Enable.antt =====
-- How `acpi_enable` comes to its end.
use drewos.Base.{
  ℕ, zero, suc, ◌+◌, ◌<◌, ◌≡◌, refl, sym, arith, Bool, true, false, not, ◌==◌, Bool-cases, inl, inr,
  Option, none, some, bit_and, u8, u16,
}
use mathlib.Core.Path.{subst}
use drewos.Acpi.{read32}
use drewos.Acpi.Search.{byte_at}
use drewos.Machine.Quiet.{
  SameVariables, SameVariables-refl, SameVariables-log, SameVariables-trans, Quietly, Anything,
}
use drewos.Machine.{Device, Machine, ◌>>=◌, log_event, read16, write8}
use drewos.Acpi.Fadt.{read_control, await_enabled, acpi_enable}

module _ (dev : Device) where
  -- The control register, as the next read finds it.
  abbrev pub control : Machine → ℕ
  control m = u16 (dev m.trace (u16 (read32 m.screen.mem (m.acpi.fadt + 64))))

  abbrev pub is_enabled : Machine → Bool
  is_enabled m = not (bit_and (control m) 1 == 0)

  -- The machine behind that read, and behind `n` of them.
  abbrev pub read_once : Machine → Machine
  read_once m = log_event (read16 (u16 (read32 m.screen.mem (m.acpi.fadt + 64))) (control m)) m

  pub reads : ℕ → Machine → Machine
  reads zero m = m
  reads (suc n) m = reads n (read_once m)

  reads-SameVariables : (n : ℕ) (m : Machine) → SameVariables m (reads n m)
  unfolding reads
  reads-SameVariables zero m = SameVariables-refl m
  reads-SameVariables (suc n) m =
      SameVariables-trans (SameVariables-log _ m) (reads-SameVariables n (read_once m))

  -- From every machine on, one of the first `fuel` reads finds ACPI enabled.
  abbrev pub WakesWithin : ℕ → Type 0
  WakesWithin fuel = (m : Machine) → (n : ℕ) × (n < fuel) × (is_enabled (reads n m) ≡ true)

  -- The result of waiting for at most `fuel` reads.
  pub data Awaited (fuel : ℕ) (m : Machine) (result : Option (Unit {0} × Machine)) : Type 0 where
    enabled :
        (n : ℕ)
        → n < fuel
        → ((i : ℕ) → i < n → is_enabled (reads i m) ≡ false)
        → is_enabled (reads n m) ≡ true
        → result ≡ some (tt, reads (suc n) m)
        → Awaited fuel m result
    waiting :
        ((i : ℕ) → i < fuel → is_enabled (reads i m) ≡ false)
        → result ≡ none
        → Awaited fuel m result

  not_yet :
      (n : ℕ) (m : Machine)
      → is_enabled m ≡ false
      → ((i : ℕ) → i < n → is_enabled (reads i (read_once m)) ≡ false)
      → (i : ℕ) → i < suc n
      → is_enabled (reads i m) ≡ false
  unfolding reads
  not_yet n m now later zero h = now
  not_yet n m now later (suc i) h = later i (omega arith)

  Awaited-suc :
      {fuel : ℕ} {m : Machine} {result : Option (Unit {0} × Machine)}
      → is_enabled m ≡ false
      → Awaited fuel (read_once m) result
      → Awaited (suc fuel) m result
  unfolding reads
  Awaited-suc {m = m} now (enabled n h before at r) =
      enabled (suc n) (omega arith) (not_yet n m now before) at r
  Awaited-suc {fuel} {m} now (waiting before r) = waiting (not_yet fuel m now before) r

  await_enabled-on :
      (fuel : ℕ) (m : Machine)
      → is_enabled m ≡ true
      → await_enabled dev (suc fuel) m ≡ some (tt, read_once m)
  unfolding await_enabled read_control
  await_enabled-on fuel m on =
      let e : (bit_and (control m) 1 == 0) ≡ false = ground (arith, on) in rw (e, ◌>>=◌)

  await_enabled-off :
      (fuel : ℕ) (m : Machine)
      → is_enabled m ≡ false
      → await_enabled dev (suc fuel) m ≡ await_enabled dev fuel (read_once m)
  unfolding await_enabled read_control
  await_enabled-off fuel m off =
      let e : (bit_and (control m) 1 == 0) ≡ true = ground (arith, off) in rw (e, ◌>>=◌)

  await_enabled-Awaited : (fuel : ℕ) (m : Machine) → Awaited fuel m (await_enabled dev fuel m)
  await_enabled-Awaited zero m =
      waiting (λ i h. absurd (omega arith)) (unfold await_enabled in refl)
  await_enabled-Awaited (suc fuel) m = elim (Bool-cases (is_enabled m)) [
    | inl on ↦
        enabled 0 (omega arith) (λ i h. absurd (omega arith)) (unfold reads in on)
          (unfold reads in await_enabled-on fuel m on)
    | inr off ↦
        subst (Awaited (suc fuel) m) (sym (await_enabled-off fuel m off))
          (Awaited-suc off (await_enabled-Awaited fuel (read_once m)))
  ]

  -- The machine behind the command that the table names.
  abbrev pub commanded : Machine → Machine
  commanded m =
      log_event
        (write8 (u16 (read32 m.screen.mem (m.acpi.fadt + 48)))
          (u8 (byte_at m.screen.mem m.acpi.fadt 52)))
        m

  -- For every device and machine, `acpi_enable` writes the command of the table to its port, and then
  -- reads the control register until bit 0 is set: if that is so for the first time at read `n` and the
  -- fuel is more than `n`, it returns just behind this read, and if it is so at none of the reads that
  -- the fuel allows, it has not come to its end.
  pub acpi_enable-Awaited :
      (fuel : ℕ) (m : Machine) → Awaited fuel (commanded m) (acpi_enable dev fuel m)
  unfolding acpi_enable
  acpi_enable-Awaited fuel m = await_enabled-Awaited fuel (commanded m)

  -- Hardware that enables ACPI lets `acpi_enable` return.
  pub acpi_enable-Quietly : (fuel : ℕ) → WakesWithin fuel → Quietly Anything (acpi_enable dev fuel)
  acpi_enable-Quietly fuel wakes = record { run = λ m. ended m (acpi_enable-Awaited fuel m) }
    where
      ended :
          (m : Machine)
          → Awaited fuel (commanded m) (acpi_enable dev fuel m)
          → (a : Unit {0}) × (m' : Machine) × (acpi_enable dev fuel m ≡ some (a, m'))
            × Unit {0}
            × SameVariables m m'
      ended m (enabled n h before at r) = (
        tt,
        reads (suc n) (commanded m),
        r,
        tt,
        SameVariables-trans (SameVariables-log _ m) (reads-SameVariables (suc n) (commanded m)),
      )
      ended m (waiting before r) =
          let (n, h, on) = wakes (commanded m) in absurd (ground (arith, before n h, on))
