-- ===== src/Isr/Exceptions.antt =====
-- The stubs of the exceptions, and exceptions that lead to a function in C.
use drewos.Base.{true, false, ◌==◌}
use drewos.Base.{ℕ, ◌≤◌, ◌≡◌, refl, Option, Option-cases, inl, inr, none, some, [], ◌∷◌, u16, codes}
use drewos.Machine.{IdtEntry, Platform, Machine, ◌>>=◌}
use drewos.Machine.Quiet.{Quietly, Quietly-println, SameVariables, Anything}
use drewos.Print.Format.{render, expand}
use drewos.Idt.{generic_handler}
use drewos.Idt.Outcome.{generic_handler-outside}
use drewos.Isr.{
  Cpu, Scratch, enter, isr_stub, exception_handler, run, step, call_exception, call_generic,
  enter_function,
}

exception_handler-Quietly : Quietly Anything exception_handler
unfolding exception_handler
exception_handler-Quietly =
    Quietly-println (codes "INTERRUPT stub") [] tt (unfold render expand in tt)

-- The processor behind the stub of an exception. The registers that a function in C may use are not
-- saved. Without an error code the interrupted code goes on; an error code is never taken from the
-- stack, and so it becomes the address to go on at, the address the selector, and the segment the
-- flags; this is the state only if that selector is the one of the kernel's code.
abbrev pub behind_stub : Scratch → Cpu → Option ℕ → Cpu
behind_stub s c none = record c { eax = s.eax; ecx = s.ecx; edx = s.edx; cs = u16 c.cs }
behind_stub s c (some code) = record c {
  eax = s.eax;
  ecx = s.ecx;
  edx = s.edx;
  eip = code;
  cs = u16 c.eip;
  eflags = c.cs;
  stack = c.eflags ∷ c.stack;
}

-- The processor behind a function that is entered through a gate: it goes on at the interrupted
-- instruction, with the segment of the gate, the flags of the function, and two double words more
-- on the stack.
abbrev pub behind_function : IdtEntry → Scratch → Cpu → Cpu
behind_function gate s c = record c {
  eax = s.eax;
  ecx = s.ecx;
  edx = s.edx;
  cs = gate.kernel_cs;
  eflags = s.eflags;
  stack = s.argument ∷ c.eflags ∷ c.stack;
}

-- What the stub returns with for a selector: the interrupted segment, or the interrupted address
-- where an error code is below it.
abbrev pub return_segment : Cpu → Option ℕ → ℕ
return_segment c none = c.cs
return_segment c (some code) = c.eip

module _ (platform : Platform) (scratch : Machine → Scratch) where
  pub isr_stub-faulted :
      (gate : IdtEntry) (error : Option ℕ) (c : Cpu) (m : Machine)
      → (u16 (return_segment c error) == 0x08) ≡ false
      → run platform scratch isr_stub (enter gate error c) m ≡ none
  unfolding run step call_exception
  isr_stub-faulted gate none c m other =
      let (_, m', e, _, same) = exception_handler-Quietly.run m in rw (e, ◌>>=◌, other) refl
  isr_stub-faulted gate (some code) c m other =
      let (_, m', e, _, same) = exception_handler-Quietly.run m in rw (e, ◌>>=◌, other) refl

  pub isr_stub_lem :
      (gate : IdtEntry) (error : Option ℕ) (c : Cpu) (m : Machine)
      → (u16 (return_segment c error) == 0x08) ≡ true
      → (m' : Machine) × (run platform scratch isr_stub (enter gate error c) m
          ≡ some (behind_stub (scratch m') c error, m'))
        × SameVariables m m'
  unfolding run step call_exception
  isr_stub_lem gate none c m kernel =
      let (_, m', e, _, same) = exception_handler-Quietly.run m in
      (m', rw (e, ◌>>=◌, kernel) refl, same)
  isr_stub_lem gate (some code) c m kernel =
      let (_, m', e, _, same) = exception_handler-Quietly.run m in
      (m', rw (e, ◌>>=◌, kernel) refl, same)

  -- A function in C that a gate leads to takes the code segment for its argument.
  pub enter_function_lem :
      (gate : IdtEntry) (c : Cpu) (m : Machine)
      → enter_function platform scratch (enter gate none c) m
        ≡ (generic_handler platform c.cs >>= λ _ m'. some (behind_function gate (scratch m') c, m'))
            m
  unfolding enter_function call_generic
  enter_function_lem gate c m = elim (Option-cases (generic_handler platform c.cs m)) [
    | inl e ↦ rw (e, ◌>>=◌) refl
    | inr ((u, m'), e) ↦ rw (e, ◌>>=◌) refl
  ]

  -- With an error code, the function takes it for the address to return to, and the interrupted
  -- address for its argument.
  pub enter_function-outside :
      (gate : IdtEntry) (code : ℕ) (c : Cpu) (m : Machine)
      → 256 ≤ c.eip
      → enter_function platform scratch (enter gate (some code) c) m ≡ none
  unfolding enter_function call_generic
  enter_function-outside gate code c m far =
      rw (generic_handler-outside platform c.eip m far, ◌>>=◌) refl
