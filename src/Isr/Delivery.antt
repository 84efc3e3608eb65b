-- ===== src/Isr/Delivery.antt =====
-- Interrupts from the gate of their vector to the return, behind `idt_init`.
use mathlib.Core.Path.{subst}
use drewos.Base.{
  ℕ, ◌^◌, ◌<◌, ◌≤◌, ◌≡◌, ◌≢◌, ◌∙◌, refl, ap, arith, Option, none, some, ◌⊎◌, inl, inr,
}
use drewos.Base.{
  u16, Bool, true, false, ◌==◌, ==_iff, ◌||◌, ◌&&◌, leb, Bool-cases, if_holds, u32, ◌∷◌,
}
use drewos.Machine.{Platform, Machine, Returns, ◌>>=◌, enable_interrupts, load_idt}
use drewos.Machine.Quiet.{SameVariables}
use drewos.Idt.{idt_init, generic_handler}
use drewos.Idt.Gates.{target, IsGate, exception_address, idt_init_lem}
use drewos.Idt.Outcome.{generic_handler-outside, generic_handler-Handled, reported, undefined}
use drewos.Idt.Handlers.{Reach, idt_init-IsRouted}
use drewos.Isr.{Cpu, Scratch, enter, run, generic_isr_stub, isr_stub, enter_function, deliver}
use drewos.Isr.Stub.{generic_isr_stub_lem}
use drewos.Isr.Exceptions.{
  behind_stub, behind_function, return_segment, isr_stub-faulted, isr_stub_lem, enter_function_lem,
  enter_function-outside,
}

same : (a : ℕ) → (a == a) ≡ true
same a = (==_iff a a).1 refl

apart : (a b : ℕ) → a ≢ b → (a == b) ≡ false
apart a b h = ground arith

-- The linker gives each routine an address of its own, in 32 bits.
pub record IsLinked (platform : Platform) : Type 0 where
  pub stub_fits : platform.generic_isr_stub_address < 2 ^ 32
  pub handler_fits : platform.generic_handler_address < 2 ^ 32
  pub table_fits : (v : ℕ) → platform.isr_stub_table v < 2 ^ 32
  pub handler_apart : platform.generic_handler_address ≢ platform.generic_isr_stub_address
  pub stub_apart : (v : ℕ) → platform.isr_stub_table v ≢ platform.generic_isr_stub_address
  pub table_apart : (v : ℕ) → platform.isr_stub_table v ≢ platform.generic_handler_address

abbrev pub has_own_stub : ℕ → Bool
has_own_stub v = v == 8 || leb 10 v && leb v 14 || v == 17

module _ (platform : Platform) (scratch : Machine → Scratch) (linked : IsLinked platform) where
  deliver-stub :
      (vector : ℕ) (error : Option ℕ) (c : Cpu) (m : Machine)
      → target (m.interrupts.idt vector) ≡ platform.generic_isr_stub_address
      → deliver platform scratch vector error c m
        ≡ run platform scratch generic_isr_stub (enter (m.interrupts.idt vector) error c) m
  unfolding deliver
  deliver-stub vector error c m e =
      rw
        (ap (λ a. a == platform.generic_isr_stub_address) e
          ∙ same platform.generic_isr_stub_address)
        refl

  deliver-function :
      (vector : ℕ) (error : Option ℕ) (c : Cpu) (m : Machine)
      → target (m.interrupts.idt vector) ≡ platform.generic_handler_address
      → deliver platform scratch vector error c m
        ≡ enter_function platform scratch (enter (m.interrupts.idt vector) error c) m
  unfolding deliver
  deliver-function vector error c m e =
      rw
        (
          ap (λ a. a == platform.generic_isr_stub_address) e
              ∙ apart platform.generic_handler_address platform.generic_isr_stub_address
                  linked.handler_apart,
          ap (λ a. a == platform.generic_handler_address) e ∙ same platform.generic_handler_address,
        )
        refl

  deliver-table :
      (vector : ℕ) (error : Option ℕ) (c : Cpu) (m : Machine)
      → target (m.interrupts.idt vector) ≡ platform.isr_stub_table vector
      → deliver platform scratch vector error c m
        ≡ run platform scratch isr_stub (enter (m.interrupts.idt vector) error c) m
  unfolding deliver
  deliver-table vector error c m e =
      rw
        (
          ap (λ a. a == platform.generic_isr_stub_address) e
              ∙ apart (platform.isr_stub_table vector) platform.generic_isr_stub_address
                  (linked.stub_apart vector),
          ap (λ a. a == platform.generic_handler_address) e
              ∙ apart (platform.isr_stub_table vector) platform.generic_handler_address
                  (linked.table_apart vector),
          ap (λ a. a == platform.isr_stub_table vector) e ∙ same (platform.isr_stub_table vector),
        )
        refl

  -- An interrupt through the generic stub, from code at an address from 256 on.
  pub deliver-outside :
      (vector : ℕ) (c : Cpu) (n : Machine)
      → target (n.interrupts.idt vector) ≡ platform.generic_isr_stub_address
      → 256 ≤ c.eip
      → deliver platform scratch vector none c n ≡ none
  deliver-outside vector c n leads far =
      deliver-stub vector none c n leads
      ∙ generic_isr_stub_lem platform scratch (n.interrupts.idt vector) c n
      ∙ rw (generic_handler-outside platform c.eip n far, ◌>>=◌) refl

  -- Behind an `idt_init` with no handler attached, and whatever handlers are attached and taken
  -- away from then on, an interrupt at a vector with a handler is undefined if it interrupts code
  -- from address 256 on: the stub takes that address for the vector.
  pub deliver-lost :
      (m : Machine) {m0 n : Machine} (vector : ℕ) (c : Cpu)
      → ((v : ℕ) → m.interrupts.handlers v ≡ 0)
      → idt_init platform m ≡ some (tt, m0)
      → Reach platform m0 n
      → n.interrupts.handlers vector ≢ 0
      → 256 ≤ c.eip
      → deliver platform scratch vector none c n ≡ none
  deliver-lost m {n = n} vector c empty e reach attached far =
      deliver-outside vector c n
        (idt_init-IsRouted platform linked.stub_fits m empty e reach vector attached).leads far

  -- What becomes of an exception.
  pub data Trapped (v : ℕ) (error : Option ℕ) (c : Cpu) (m : Machine)
      (result : Option (Cpu × Machine)) : Type 0 where
    by_stub :
        (m' : Machine)
        → has_own_stub v ≡ true
        → u16 (return_segment c error) ≡ 0x08
        → result ≡ some (behind_stub (scratch m') c error, m')
        → SameVariables m m'
        → Trapped v error c m result
    faulted :
        has_own_stub v ≡ true
        → u16 (return_segment c error) ≢ 0x08
        → result ≡ none
        → Trapped v error c m result
    by_function :
        (m' : Machine)
        → has_own_stub v ≡ false
        → error ≡ none
        → result ≡ some (behind_function (m.interrupts.idt v) (scratch m') c, m')
        → SameVariables m m'
        → Trapped v error c m result
    undefined_call :
        (code : ℕ)
        → error ≡ some code
        → has_own_stub v ≡ false
        → result ≡ none
        → Trapped v error c m result

  exception_fits : (v : ℕ) → exception_address platform v < 2 ^ 32
  exception_fits v =
      if_holds (λ a. a < 2 ^ 32) (has_own_stub v) (linked.table_fits v) linked.handler_fits

  initial_gates :
      (m : Machine) {m0 : Machine} (v : ℕ)
      → idt_init platform m ≡ some (tt, m0)
      → v < 32
      → IsGate (m0.interrupts.idt v) (exception_address platform v)
        × (m0.interrupts.handlers ≡ m.interrupts.handlers)
  initial_gates m {m0} v e h =
      let (gate, handlers, _) =
        subst
          (λ r. Returns r λ _ m'.
            ((v < 32) × IsGate (m'.interrupts.idt v) (exception_address platform v)
              ⊎ (32 ≤ v) × (m'.interrupts.idt v ≡ m.interrupts.idt v))
            × (m'.interrupts.handlers ≡ m.interrupts.handlers)
            × (m'.trace ≡ enable_interrupts ∷ load_idt 2047 (u32 platform.idt_address) ∷ m.trace))
          e (idt_init_lem platform m v (exception_fits v)) in
      (elim gate [ inl (_, g) ↦ g | inr (k, _) ↦ absurd (omega arith) ], handlers)

  handled :
      (m n : Machine)
      → ((v : ℕ) → m.interrupts.handlers v ≡ 0)
      → n.interrupts.handlers ≡ m.interrupts.handlers
      → (m' : Machine) × (generic_handler platform 8 n ≡ some (tt, m')) × SameVariables n m'
  handled m n empty handlers = elim (generic_handler-Handled platform 8 n) [
    | reported m' _ _ e' shown ↦ (m', e', shown.same)
    | undefined (inl far) _ ↦ absurd (omega arith)
    | undefined (inr attached) _ ↦ absurd (attached (ap (λ f. f 8) handlers ∙ empty 8))
  ]

  -- An exception whose gate leads to `generic_handler`.
  function-Trapped :
      (m n : Machine) (v : ℕ) (error : Option ℕ) (c : Cpu)
      → ((v : ℕ) → m.interrupts.handlers v ≡ 0)
      → n.interrupts.handlers ≡ m.interrupts.handlers
      → target (n.interrupts.idt v) ≡ platform.generic_handler_address
      → has_own_stub v ≡ false
      → c.cs ≡ 8
      → 256 ≤ c.eip
      → Trapped v error c n (deliver platform scratch v error c n)
  function-Trapped m n v none c empty handlers leads other kernel far =
      let (m', e', kept) = handled m n empty handlers in
      by_function m' other refl
        (deliver-function v none c n leads
          ∙ enter_function_lem platform scratch (n.interrupts.idt v) c n
          ∙ rw (kernel, e', ◌>>=◌) refl)
        kept
  function-Trapped m n v (some code) c empty handlers leads other kernel far =
      undefined_call code refl other (
        deliver-function v (some code) c n leads
        ∙ enter_function-outside platform scratch (n.interrupts.idt v) code c n far)

  -- An exception whose gate leads to its stub.
  stub-Trapped :
      (v : ℕ) (error : Option ℕ) (c : Cpu) (n : Machine)
      → has_own_stub v ≡ true
      → target (n.interrupts.idt v) ≡ platform.isr_stub_table v
      → Trapped v error c n (deliver platform scratch v error c n)
  stub-Trapped v error c n own leads =
      let segment : ℕ = u16 (return_segment c error) in
      elim (Bool-cases (segment == 0x08)) [
        | inl k ↦
            let (m', ran, kept) = isr_stub_lem platform scratch (n.interrupts.idt v) error c n k in
            by_stub m' own (ground arith) (deliver-table v error c n leads ∙ ran) kept
        | inr k ↦ faulted own (ground arith) (
            deliver-table v error c n leads
            ∙ isr_stub-faulted platform scratch (n.interrupts.idt v) error c n k)
      ]

  -- With the routines linked at addresses of their own, in 32 bits: what becomes of each of the 32
  -- exceptions, with and without an error code, from code in the kernel's segment at an address from
  -- 256 on, behind an `idt_init` with no handler attached, and before any is attached. One of 8, 10
  -- to 14 and 17 goes through its stub: without an error code the interrupted code goes on. With one,
  -- which these exceptions have, the stub returns to the error code as the address and with the low
  -- half of the interrupted address as the selector: `iret` fails, unless that half is 8, the
  -- selector of the kernel's code. Any other goes to `generic_handler`: without an error code for vector 8,
  -- and the interrupted code goes on with two double words more on the stack and the flags that the
  -- function left; with one it is undefined. Where the processor goes on, the registers that a
  -- function in C may use are lost, and the variables are as before.
  pub deliver-Trapped :
      (m : Machine) {m0 : Machine} (v : ℕ) (error : Option ℕ) (c : Cpu)
      → ((v : ℕ) → m.interrupts.handlers v ≡ 0)
      → idt_init platform m ≡ some (tt, m0)
      → v < 32
      → c.cs ≡ 8
      → 256 ≤ c.eip
      → Trapped v error c m0 (deliver platform scratch v error c m0)
  deliver-Trapped m {m0} v error c empty e h kernel far =
      let (gate, handlers) = initial_gates m v e h in
      elim (Bool-cases (has_own_stub v)) [
        | inl own ↦ stub-Trapped v error c m0 own (gate.leads ∙ rw own refl)
        | inr other ↦
            function-Trapped m m0 v error c empty handlers (gate.leads ∙ rw other refl) other kernel
              far
      ]
