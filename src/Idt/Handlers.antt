-- ===== src/Idt/Handlers.antt =====
-- Handlers come and go: an attached one is always reached.
use drewos.Base.{
  ℕ, ◌^◌, ◌<◌, ◌≡◌, ◌≢◌, ◌∙◌, refl, ap, sym, u8, u32, ◌==◌, Bool-cases, inl, inr, Option, some,
}
use mathlib.Core.Path.{subst}
use drewos.Machine.{Platform, Machine, IdtState}
use drewos.Idt.{
  write_at, descriptor, idt_init, idt_set_descriptor, idt_install_irq_handler,
  idt_uninstall_irq_handler,
}
use drewos.Idt.Gates.{IsGate, descriptor-IsGate, set_exceptions-handlers}

same_machine :
    {m n : Machine} → ◌≡◌ {A = Option (Unit {0} × Machine)} (some (tt, m)) (some (tt, n)) → m ≡ n
same_machine e = cc

module _ (platform : Platform) where
  -- What the drivers do with the interrupt table: attach a handler, take one away, or leave it alone.
  pub data Step (m n : Machine) : Type 0 where
    install :
        (vector handler : ℕ)
        → idt_install_irq_handler platform vector handler m ≡ some (tt, n)
        → Step m n
    uninstall : (vector : ℕ) → idt_uninstall_irq_handler vector m ≡ some (tt, n) → Step m n
    other : n.interrupts ≡ m.interrupts → Step m n

  pub data Reach (m : Machine) : Machine → Type 0 where
    here : Reach m m
    next : {n k : Machine} → Reach m n → Step n k → Reach m k

  -- Each attached handler has a present gate, which leads to the stub that calls it.
  abbrev pub IsRouted : IdtState → Type 0
  IsRouted t = (v : ℕ) → t.handlers v ≢ 0 → IsGate (t.idt v) platform.generic_isr_stub_address

  module _ (fits : platform.generic_isr_stub_address < 2 ^ 32) where
    -- A write of both tables at one place.
    install-IsRouted :
        (i handler : ℕ) (t : IdtState)
        → IsRouted t
        → IsRouted (record t {
          handlers = write_at i handler t.handlers;
          idt = write_at i (descriptor platform.generic_isr_stub_address 0x8e) t.idt;
        })
    install-IsRouted i handler t routed v h = elim (Bool-cases (i == v)) [
      | inl e ↦ rw e (descriptor-IsGate platform.generic_isr_stub_address fits)
      | inr e ↦ rw e (routed v (λ z. h (rw e z)))
    ]

    uninstall-IsRouted :
        (i : ℕ) (t : IdtState)
        → IsRouted t
        → IsRouted (record t { handlers = write_at i 0 t.handlers })
    uninstall-IsRouted i t routed v h = elim (Bool-cases (i == v)) [
      | inl e ↦ absurd (h (rw e refl))
      | inr e ↦ routed v (λ z. h (rw e z))
    ]

    Step-IsRouted : {m n : Machine} → Step m n → IsRouted m.interrupts → IsRouted n.interrupts
    unfolding idt_install_irq_handler idt_uninstall_irq_handler idt_set_descriptor
    Step-IsRouted {m} (install vector handler e) routed =
        subst (λ k. IsRouted k.interrupts) (same_machine e)
          (install-IsRouted (u8 vector) handler m.interrupts routed)
    Step-IsRouted {m} (uninstall vector e) routed =
        subst (λ k. IsRouted k.interrupts) (same_machine e)
          (uninstall-IsRouted (u8 vector) m.interrupts routed)
    Step-IsRouted (other e) routed = subst IsRouted (sym e) routed

    Reach-IsRouted : {m n : Machine} → Reach m n → IsRouted m.interrupts → IsRouted n.interrupts
    Reach-IsRouted here routed = routed
    Reach-IsRouted (next r s) routed = Step-IsRouted s (Reach-IsRouted r routed)

    -- Behind an `idt_init` with no handler attached, however handlers are attached and taken away from
    -- then on, each attached handler has a present gate at its vector that leads to the generic stub,
    -- if the address of this stub fits 32 bits.
    pub idt_init-IsRouted :
        (m : Machine) {m0 n : Machine}
        → ((v : ℕ) → m.interrupts.handlers v ≡ 0)
        → idt_init platform m ≡ some (tt, m0)
        → Reach m0 n
        → IsRouted n.interrupts
    unfolding idt_init
    idt_init-IsRouted m empty e r = Reach-IsRouted r (
        subst (λ k. IsRouted k.interrupts) (same_machine e)
          λ v h. absurd (
            h (
              ap (λ f. f v)
                (set_exceptions-handlers platform 32 0 (record m.interrupts {
                  idtr_base = u32 platform.idt_address;
                  idtr_limit = 2047;
                })).0
              ∙ empty v)))
