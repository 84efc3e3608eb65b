-- ===== src/Isr/Stub.antt =====
-- The stub of the interrupt lines, from the entry of an interrupt to the return.
use drewos.Base.{
  Bool-cases, ◌==◌, if◌then◌else◌, ℕ, ◌<◌, ◌≤◌, ◌≡◌, ◌≢◌, refl, arith, Option-cases, inl, inr, none,
  some, u16, u8, ap, ◌⊎◌, ◌∙◌, Option,
}
use drewos.Machine.{IdtEntry, Platform, Machine, ◌>>=◌, log_event, write8}
use drewos.Idt.{generic_handler}
use drewos.Machine.Quiet.{SameVariables}
use drewos.Idt.Outcome.{Handled, reported, undefined, generic_handler-Handled}
use drewos.Isr.{Cpu, Scratch, enter, generic_isr_stub, run, step, call_generic, set_al}

end_of_interrupt : (eax : ℕ) → u8 (u8 (set_al 0x20 eax)) ≡ 0x20
end_of_interrupt eax = omega arith

module _ (platform : Platform) (scratch : Machine → Scratch) where
  -- The processor behind a `generic_isr_stub` that returns.
  abbrev pub resumed : Cpu → Cpu
  resumed c = record c { eax = set_al 0x20 c.eax; cs = u16 c.cs }

  pub generic_isr_stub_lem :
      (gate : IdtEntry) (c : Cpu) (m : Machine)
      → run platform scratch generic_isr_stub (enter gate none c) m
        ≡ (generic_handler platform c.eip >>= λ _ m'.
              if u16 c.cs == 0x08 then some (resumed c, log_event (write8 0x20 0x20) m') else none)
            m
  unfolding run step call_generic
  generic_isr_stub_lem gate c m = elim (Option-cases (generic_handler platform c.eip m)) [
    | inl e ↦ rw (e, ◌>>=◌) refl
    | inr ((u, m'), e) ↦ elim (Bool-cases (u16 c.cs == 0x08)) [
      | inl k ↦
          rw (e, ◌>>=◌, k)
            (ap (λ (v : ℕ). some (resumed c, log_event (write8 0x20 v) m'))
              (end_of_interrupt c.eax))
      | inr k ↦ rw (e, ◌>>=◌, k) refl
    ]
  ]

  -- What becomes of an interrupt that the generic stub takes, from processor `c` and machine `m`.
  pub data Served (c : Cpu) (m : Machine) (result : Option (Cpu × Machine)) : Type 0 where
    returned :
        (m' : Machine)
        → c.eip < 256
        → m.interrupts.handlers c.eip ≡ 0
        → u16 c.cs ≡ 0x08
        → result ≡ some (resumed c, log_event (write8 0x20 0x20) m')
        → SameVariables m m'
        → Served c m result
    faulted : u16 c.cs ≢ 0x08 → result ≡ none → Served c m result
    lost : (256 ≤ c.eip) ⊎ (m.interrupts.handlers c.eip ≢ 0) → result ≡ none → Served c m result

  -- The generic stub takes the address of the interrupted instruction for the vector, whatever
  -- interrupt it is. From 256 on, and where that number has a handler, it is undefined. Otherwise,
  -- if the interrupted code is not in the kernel's segment, `iret` does not return to it; and if it
  -- is, the stub returns to the interrupted instruction with the flags, the stack and all registers as before
  -- but the low byte of `eax`, which is 0x20; the variables are as before, and the last access is
  -- the end of interrupt to the master controller alone.
  pub generic_isr_stub-Served :
      (gate : IdtEntry) (c : Cpu) (m : Machine)
      → Served c m (run platform scratch generic_isr_stub (enter gate none c) m)
  generic_isr_stub-Served gate c m = served (generic_handler-Handled platform c.eip m)
    where
      served :
          Handled platform c.eip m (generic_handler platform c.eip m)
          → Served c m (run platform scratch generic_isr_stub (enter gate none c) m)
      served (reported m' small free e shown) = elim (Bool-cases (u16 c.cs == 0x08)) [
        | inl k ↦
            returned m' small free (ground arith)
              (generic_isr_stub_lem gate c m ∙ rw (e, ◌>>=◌, k) refl) shown.same
        | inr k ↦ faulted (ground arith) (generic_isr_stub_lem gate c m ∙ rw (e, ◌>>=◌, k) refl)
      ]
      served (undefined why e) = lost why (generic_isr_stub_lem gate c m ∙ rw (e, ◌>>=◌) refl)
