-- ===== src/Kernel/Boot.antt =====
-- `main` from the start of the kernel to its end.
use mathlib.Core.Path.{subst}
use drewos.Base.{ℕ, suc, ◌<◌, ◌≡◌, ◌≢◌, ◌∙◌, ◌^◌, refl, ap, sym, arith, codes, false, inl, inr, ◌⊎◌}
use drewos.Memory.Copy.{within}
use drewos.Screen.{video_memory}
use drewos.Print.Format.{render, expand}
use drewos.Machine.{Platform, Machine, K, ◌>>◌}
use drewos.Machine.Comes.{Comes, Comes-Ends, Comes-behind, Comes-before, Comes-post, Comes-bool}
use drewos.Ps2.{Port}
use drewos.Machine.Quiet.{Quietly, Quietly-gets, Anything}
use drewos.Machine.Ends.{Ends, Ends-quiet, Ends-bind, Ends-post}
use drewos.Idt.Gates.{IsGate, exception_address}
use drewos.Acpi.Search.{ebda_start}
use drewos.Acpi.Fadt.{ps2_controller_exists}
use drewos.Acpi.Fadt.Enable.{WakesWithin, acpi_enable-Quietly}
use drewos.Acpi.Startup.{acpi_init}
use drewos.Acpi.Startup.Tables.{Others, Others-same, Others-trans}
use drewos.Acpi.Startup.Roots.{Started, absent, extended, plain, init_rsdp-Started}
use drewos.Keyboard.Setup.{line_1}
use drewos.Ps2.Init.Devices.{IsCalm, Kept, Kept-trans, AtInterrupt, HasDriver}
use drewos.Ps2.Init.After.{Fresh, After, After-quiet, Comes-then}
use drewos.Ps2.Init.Outcome.{IsConsistent, remainder, Fresh-IsConsistent, ps2_init-IsConsistent}
use drewos.Kernel.{announce, start_ps2, main}
use drewos.Kernel.Banner.{announce-Quietly, show_banner-quiet}
use drewos.Kernel.Ready.{
  Screened, Screened-then, clrscr-Screened, ebda_kept, IsReady, IsReady-then, pic_init-IsRemapped,
  interrupts-IsReady,
}

-- What `main` still does where the keyboard driver of a port triggers its interrupt.
abbrev pub last_remainder : Platform → ℕ → ℕ → Port → K (Unit {0})
last_remainder platform patience rounds at =
    remainder platform patience rounds at
    >> announce platform (codes "\nThank you for using DrewOS!")

module _ (platform : Platform) where
  -- The end of `main`: the interrupt controllers have the vectors from 0x20 on, every exception has its
  -- gate, the variables of the PS/2 driver are consistent, at most the keyboard driver is installed, at
  -- vector 0x21, and all memory outside of the video buffer is as before.
  pub record IsBooted (m n : Machine) : Type 0 where
    pub pic : n.pic ≡ record { offset0 = 0x20; offset1 = 0x28 }
    pub gates :
        (j : ℕ)
        → j < 32
        → exception_address platform j < 2 ^ 32
        → IsGate (n.interrupts.idt j) (exception_address platform j)
    pub ps2 : IsConsistent n.ps2
    pub driver : (n.keyboard.vector ≡ m.keyboard.vector) ⊎ (n.keyboard.vector ≡ 0x21)
    pub handlers : (v : ℕ) → v ≢ 0x21 → n.interrupts.handlers v ≡ m.interrupts.handlers v
    pub memory : (q : ℕ) → within video_memory 4000 q ≡ false → n.screen.mem q ≡ m.screen.mem q

  IsReady-IsBooted :
      {m n k : Machine} → IsReady platform m n → Kept n k → IsConsistent k.ps2 → IsBooted m k
  IsReady-IsBooted {m} {n} r kept c =
      let line : line_1 n ≡ 0x21 = rw r.pic refl in
      record {
        pic = kept.pic ∙ r.pic;
        gates = λ j h fits.
            subst (λ g. IsGate g (exception_address platform j))
              (sym (kept.gates j (λ e. omega (arith, line)))) (r.gates j h fits);
        ps2 = c;
        driver = elim kept.driver [
          | inl e ↦ inl (e ∙ ap (λ k'. k'.vector) r.keyboard)
          | inr e ↦ inr (e ∙ line)
        ];
        handlers = λ v h. kept.handlers v (λ e. h (e ∙ line)) ∙ ap (λ f. f v) r.handlers;
        memory = (Screened-then r.screen kept.memory).same;
      }

  exists-Quietly : Quietly Anything (ps2_controller_exists platform.dev)
  unfolding ps2_controller_exists
  exists-Quietly = Quietly-gets _

  module _ (calm : IsCalm platform) (fuel : ℕ) (wakes : WakesWithin platform.dev fuel)
      (patience rounds : ℕ) where
    start_ps2-Kept :
        (m : Machine)
        → Fresh m.ps2
        → Comes
            (remainder platform patience rounds)
            (start_ps2 platform (suc patience) (suc rounds))
            m
            (AtInterrupt platform IsConsistent m)
            (λ _. After IsConsistent m)
    unfolding start_ps2
    start_ps2-Kept m fresh =
        Comes-then {P = Fresh} (After-quiet m fresh exists-Quietly) λ exists n f.
          Comes-bool exists (λ _. ps2_init-IsConsistent platform calm patience rounds n f)
            (λ _. Comes-Ends (
              After-quiet n (Fresh-IsConsistent f) (
                announce-Quietly platform (codes "ps2 controller does not exist")
                  (unfold render expand in tt))))

    Started-Others : {m n : Machine} → Started m n → Others m n
    Started-Others (absent at s) = Others-same s
    Started-Others (extended p h at e l) = l.others
    Started-Others (plain p h at e l) = l.others

    acpi_init-Others :
        (m : Machine)
        → 0 < ebda_start m.screen.mem
        → Ends (acpi_init platform.dev fuel) m (λ _. Others m)
    unfolding acpi_init
    acpi_init-Others m ebda = Ends-bind (init_rsdp-Started platform.dev m ebda) λ _ n started.
        Ends-post (Ends-quiet n (acpi_enable-Quietly platform.dev fuel wakes))
          λ _ k q. Others-trans (Started-Others started) (Others-same q.1)

    -- From the variables of the start of the kernel and a segment of the EBDA that is not 0, with calm
    -- hardware that enables ACPI within `fuel` reads of its control register, and with a round for
    -- each device command and for the scan code set, `main` returns, or it comes to the interrupt
    -- 0x21 of the keyboard driver, at one of the two ports, with the rest of its own code behind it.
    -- In both cases the interrupt controllers have the vectors from 0x20 on, each exception has a
    -- gate to its stub or the generic handler if the address fits 32 bits, the variables of the PS/2
    -- driver are consistent, the keyboard driver has its old vector or 0x21, the handlers of all
    -- other vectors are as before, and so is the memory outside of the video buffer. At the
    -- interrupt, the driver's handler and a gate to the generic stub are in place at vector 0x21.
    pub main-IsBooted :
        (m : Machine)
        → Fresh m.ps2
        → 0 < ebda_start m.screen.mem
        → Comes
            (last_remainder platform patience rounds)
            (main platform fuel (suc patience) (suc rounds))
            m
            (λ n. IsBooted m n × HasDriver platform 0x21 n)
            (λ _. IsBooted m)
    unfolding main
    main-IsBooted m fresh ebda = Comes-behind (show_banner-quiet platform m) λ _ n1 shown.
        Comes-behind (pic_init-IsRemapped platform n1) λ _ n2 remapped.
          Comes-behind
            (interrupts-IsReady platform m n2
              (subst (Screened m.screen) (sym remapped.screen)
                (Screened-then (clrscr-Screened m.screen) shown.1.memory))
              (remapped.ps2 ∙ shown.1.ps2) (remapped.keyboard ∙ shown.1.keyboard)
              (ap (λ t. t.handlers) (remapped.interrupts ∙ shown.1.interrupts)) remapped.pic)
            λ _ n3 r3.
              Comes-behind
                (Ends-quiet n3 (
                  announce-Quietly platform (codes "Interrupts successfully initialised.")
                    (unfold render expand in tt)))
                λ _ n4 q4.
                  let r4 : IsReady platform m n4 = IsReady-then platform r3 (Others-same q4.1) in
                  Comes-behind
                    (acpi_init-Others n4 (omega (arith, ebda_kept m.screen n4.screen r4.screen)))
                    λ _ n5 o5.
                      Comes-behind
                        (Ends-quiet n5 (
                          announce-Quietly platform (codes "ACPI successfully initialised.")
                            (unfold render expand in tt)))
                        λ _ n6 q6.
                          let r6 : IsReady platform m n6 =
                            IsReady-then platform (IsReady-then platform r4 o5)
                              (Others-same q6.1) in
                          Comes-post
                            (Comes-before {R = λ _. After IsConsistent n6}
                              (start_ps2-Kept n6 (subst Fresh (sym r6.ps2) fresh))
                              λ _ n7 a.
                                Ends-post
                                  (After-quiet {P = IsConsistent} n7 a.holds (
                                    announce-Quietly platform
                                      (codes "\nThank you for using DrewOS!")
                                      (unfold render expand in tt)))
                                  λ _ n8 q. record {
                                    kept = Kept-trans a.kept q.kept;
                                    holds = q.holds;
                                  })
                            (λ n i. (
                              IsReady-IsBooted r6 i.kept i.holds,
                              subst (λ v. HasDriver platform v n) (rw r6.pic refl) i.driver,
                            ))
                            (λ _ n q. IsReady-IsBooted r6 q.kept q.holds)
