-- ===== src/Ps2/Init/Outcome.antt =====
-- `ps2_init` comes to its end, and what its variables then say of each other.
use mathlib.Core.Path.{subst}
use drewos.Base.{ℕ, suc, ◌^◌, ◌<◌, ◌≡◌, refl, sym, arith, ◌==◌, true, false, codes}
use drewos.Machine.{Platform, Machine, Ps2State, K, ◌>>=◌, ◌>>◌}
use drewos.Keyboard.Setup.{interrupted}
use drewos.Machine.Comes.{
  Comes, returned, stopped, Comes-Ends, Comes-run, Comes-post, Comes-bool, Comes-behind,
}
use drewos.Machine.Quiet.{Quietly, SameVariables-refl}
use drewos.Machine.Ends.{Ends-quiet}
use drewos.Print.Format.{render, expand}
use drewos.Ps2.{Port, port0, port1}
use drewos.Ps2.Reset.{reset_port}
use drewos.Ps2.Reset.Answers.{reset_port-returns}
use drewos.Ps2.Init.{set_device_id, operational, device_id_of, none_works}
use drewos.Ps2.Init.{bring_up, init_ports, ps2_init}
use drewos.Ps2.Init.Steps.{said-Quietly, prepare-Quietly, self_test-Quietly, restore-Quietly}
use drewos.Ps2.Init.Steps.{enable_ports-Quietly}
use drewos.Ps2.Init.Devices.{
  IsCalm, AtInterrupt, AtInterrupt-from, SameVariables-Kept, Kept-trans, ps2_init_device-Apart,
}
use drewos.Ps2.Init.After.{Fresh, After, After-from, After-quiet, After-set, Comes-then}
use drewos.Ps2.Init.Detection.{Tested, detect_second-Fresh, test_ports-Tested}

-- Behind the first port.
record FirstUp (s : Ps2State) : Type 0 where
  second : s.port_1_operational ≡ true → s.dual_channel ≡ true
  first_id : s.port_0_operational ≡ false → s.port0_id ≡ 0
  first_fits : s.port0_id < 2 ^ 16
  no_second : s.port1_id ≡ 0

-- A second port works on a dual-channel controller only, a port that does not work has no device, and
-- the identities fit 16 bits.
pub record IsConsistent (s : Ps2State) : Type 0 where
  pub second : s.port_1_operational ≡ true → s.dual_channel ≡ true
  pub first_id : s.port_0_operational ≡ false → s.port0_id ≡ 0
  pub second_id : s.port_1_operational ≡ false → s.port1_id ≡ 0
  pub first_fits : s.port0_id < 2 ^ 16
  pub second_fits : s.port1_id < 2 ^ 16

set_device_id-fits :
    (port : Port) (id : ℕ) (s : Ps2State)
    → id < 2 ^ 16
    → s.port0_id < 2 ^ 16
    → (set_device_id port id s).port0_id < 2 ^ 32
set_device_id-fits port0 id s h fits = omega arith
set_device_id-fits port1 id s h fits = omega arith

pub Fresh-IsConsistent : {s : Ps2State} → Fresh s → IsConsistent s
Fresh-IsConsistent f = record {
  second = λ t. absurd (ground (arith, f.second, t));
  first_id = λ _. f.no_first;
  second_id = λ _. f.no_second;
  first_fits = omega (arith, f.no_first);
  second_fits = omega (arith, f.no_second);
}

-- What `ps2_init` still does where the keyboard driver of a port triggers its interrupt.
abbrev pub remainder : Platform → ℕ → ℕ → Port → K (Unit {0})
remainder platform patience rounds port0 =
    interrupted platform >> bring_up platform (suc patience) (suc rounds) port1
remainder platform patience rounds port1 = interrupted platform

module _ (platform : Platform) where
  module _ (calm : IsCalm platform) (patience rounds : ℕ) where
    reset_port-Quietly :
        (device_id : ℕ) (port : Port)
        → device_id < 2 ^ 16
        → Quietly (λ id. id < 2 ^ 16) (reset_port platform.dev (suc patience) device_id port)
    reset_port-Quietly device_id port h = record {
      run = λ m.
          let (id, n, e, fits, s) =
            reset_port-returns platform.dev calm.never patience device_id port m h in
          (id, n, e, fits, s);
    }

    -- A port that works gets the identity of its device, another one gets 0.
    bring_up-After :
        {Q : Ps2State → Type 0} (port : Port) (m : Machine)
        → device_id_of port m.ps2 ≡ 0
        → m.ps2.port0_id < 2 ^ 16
        → (operational port m.ps2 ≡ false → Q (set_device_id port 0 m.ps2))
        → ((id : ℕ) → id < 2 ^ 16 → operational port m.ps2 ≡ true → Q (set_device_id port id m.ps2))
        → Comes
            (λ (_ : Unit {0}). interrupted platform)
            (bring_up platform (suc patience) (suc rounds) port)
            m
            (AtInterrupt platform Q m)
            (λ _. After Q m)
    unfolding bring_up
    bring_up-After {Q} port m zero_id fits off on =
        Comes-run
          (Comes-bool (operational port m.ps2)
            (λ works.
              Comes-behind
                (Ends-quiet m (reset_port-Quietly (device_id_of port m.ps2) port (omega arith)))
                λ id n p.
                  Comes-post
                    (Comes-behind
                      (After-set {Q = λ s. Q s × (s.port0_id < 2 ^ 32)} (set_device_id port id) n
                        (rw p.1.ps2 (on id p.0 works, set_device_id-fits port id m.ps2 p.0 fits)))
                      λ _ k q.
                        Comes-post
                          (ps2_init_device-Apart platform calm patience rounds port id k q.holds.1)
                          (λ _ i.
                            AtInterrupt-from {Q = Q} q.kept (λ _ same. subst Q (sym same) q.holds.0)
                              i)
                          λ _ l a. record {
                            kept = Kept-trans q.kept a.kept;
                            holds = subst Q (sym a.ps2) q.holds.0;
                          })
                    (λ _ i. AtInterrupt-from (SameVariables-Kept p.1) (λ _ q. q) i)
                    (λ _ k a. After-from p.1 a))
            (λ idle. Comes-Ends (After-set (set_device_id port 0) m (off idle))))
          refl

    first_up :
        (m : Machine)
        → Tested m.ps2
        → Comes
            (λ (_ : Unit {0}). interrupted platform)
            (bring_up platform (suc patience) (suc rounds) port0)
            m
            (AtInterrupt platform FirstUp m)
            (λ _. After FirstUp m)
    first_up m t =
        bring_up-After port0 m t.no_first (omega (arith, t.no_first))
          (λ idle. record {
            second = t.second;
            first_id = λ _. refl;
            first_fits = omega arith;
            no_second = t.no_second;
          })
          (λ id fits works. record {
            second = t.second;
            first_id = λ idle. absurd (ground (arith, works, idle));
            first_fits = fits;
            no_second = t.no_second;
          })

    second_up :
        (m : Machine)
        → FirstUp m.ps2
        → Comes
            (λ (_ : Unit {0}). interrupted platform)
            (bring_up platform (suc patience) (suc rounds) port1)
            m
            (AtInterrupt platform IsConsistent m)
            (λ _. After IsConsistent m)
    second_up m t =
        bring_up-After port1 m t.no_second t.first_fits
          (λ idle. record {
            second = t.second;
            first_id = t.first_id;
            second_id = λ _. refl;
            first_fits = t.first_fits;
            second_fits = omega arith;
          })
          (λ id fits works. record {
            second = t.second;
            first_id = t.first_id;
            second_id = λ idle. absurd (ground (arith, works, idle));
            first_fits = t.first_fits;
            second_fits = fits;
          })

    FirstUp-IsConsistent : (s : Ps2State) → FirstUp s → IsConsistent s
    FirstUp-IsConsistent s t = record {
      second = t.second;
      first_id = t.first_id;
      second_id = λ _. t.no_second;
      first_fits = t.first_fits;
      second_fits = omega (arith, t.no_second);
    }

    second_up-behind :
        (m n : Machine)
        → After FirstUp m n
        → Comes
            (remainder platform patience rounds)
            (bring_up platform (suc patience) (suc rounds) port1)
            n
            (AtInterrupt platform IsConsistent m)
            (λ _. After IsConsistent m)
    second_up-behind m n first = elim (second_up n first.holds) [
      | returned u k e q ↦
          returned u k e (record { kept = Kept-trans first.kept q.kept; holds = q.holds })
      | stopped _ k e i ↦ stopped port1 k e (AtInterrupt-from first.kept (λ _ q. q) i)
    ]

    both_up :
        (m : Machine)
        → Tested m.ps2
        → Comes
            (remainder platform patience rounds)
            (bring_up platform (suc patience) (suc rounds) port0
              >> bring_up platform (suc patience) (suc rounds) port1)
            m
            (AtInterrupt platform IsConsistent m)
            (λ _. After IsConsistent m)
    both_up m t = elim (first_up m t) [
      | returned u n e q ↦ Comes-run (second_up-behind m n q) (rw (e, ◌>>=◌) refl)
      | stopped _ n e i ↦
          stopped port0 n (rw (e, ◌>>=◌) refl)
            (AtInterrupt-from (SameVariables-Kept (SameVariables-refl m)) FirstUp-IsConsistent i)
    ]

    Tested-IsConsistent : {s : Ps2State} → Tested s → IsConsistent s
    Tested-IsConsistent t = record {
      second = t.second;
      first_id = λ _. t.no_first;
      second_id = λ _. t.no_second;
      first_fits = omega (arith, t.no_first);
      second_fits = omega (arith, t.no_second);
    }

    init_ports-IsConsistent :
        (config : ℕ) (m : Machine)
        → Fresh m.ps2
        → Comes
            (remainder platform patience rounds)
            (init_ports platform (suc patience) (suc rounds) config)
            m
            (AtInterrupt platform IsConsistent m)
            (λ _. After IsConsistent m)
    unfolding init_ports
    init_ports-IsConsistent config m fresh =
        Comes-then {P = Fresh} (After-quiet m fresh (restore-Quietly platform.dev config))
          λ _ m1 f1. Comes-then {P = Fresh} (detect_second-Fresh platform m1 f1) λ _ m2 f2.
            Comes-then {P = Tested} (test_ports-Tested platform m2 f2) λ _ m3 t.
              Comes-run
                (Comes-bool (none_works m3.ps2)
                  (λ _. Comes-Ends (
                    After-quiet m3 (Tested-IsConsistent t) (
                      said-Quietly platform.dev
                        (codes "No PS/2 ports are operational. PS/2 driver will be disabled.")
                        (unfold render expand in tt))))
                  (λ _.
                    Comes-then {P = Tested} (After-quiet m3 t (enable_ports-Quietly platform.dev))
                      λ _ m4 t4. both_up m4 t4))
                refl

    -- From the variables of the start of the kernel, with calm hardware and at least one round for
    -- each command and for the scan code set, `ps2_init` returns, or it comes to the interrupt 0x21
    -- of the keyboard driver, at the first port or at the second one, with the rest of its own code
    -- behind it. In both cases a second port works on a dual-channel controller only, a port that
    -- does not work has the identity 0, both identities fit 16 bits; the interrupt controllers' and
    -- ACPI's variables are as before, the keyboard driver has its old vector or that of line 1, no
    -- handler and no gate of another vector has changed, and neither has the memory outside of the
    -- video buffer, if the column was one of the screen. At the interrupt, the driver's handler and
    -- a gate to the generic stub are in place at the vector of line 1.
    pub ps2_init-IsConsistent :
        (m : Machine)
        → Fresh m.ps2
        → Comes
            (remainder platform patience rounds)
            (ps2_init platform (suc patience) (suc rounds))
            m
            (AtInterrupt platform IsConsistent m)
            (λ _ n. After IsConsistent m n)
    unfolding ps2_init
    ps2_init-IsConsistent m fresh =
        Comes-then {P = Fresh} (After-quiet m fresh (prepare-Quietly platform.dev)) λ config m1 f1.
          Comes-then {P = Fresh} (After-quiet m1 f1 (self_test-Quietly platform.dev))
            λ result m2 f2.
              Comes-bool (result == 0x55) (λ _. init_ports-IsConsistent config m2 f2)
                (λ _. Comes-Ends (
                  After-quiet m2 (Fresh-IsConsistent f2) (
                    said-Quietly platform.dev (codes "Error: PS/2 self-test failed")
                      (unfold render expand in tt))))
