-- ===== src/Idt/Gates.antt =====
-- What the processor finds in the interrupt table.
use drewos.Base.{
  ℕ, zero, suc, ◌+◌, ◌*◌, ◌^◌, ◌≤◌, ◌<◌, ◌≡◌, ◌≢◌, ◌∙◌, refl, ap, arith, none, some, u8, u32, ◌⊎◌,
  ◌∷◌,
}
use drewos.Base.{leb, ltb, ◌==◌, ◌&&◌, if◌then◌else◌, codes, [], ◌||◌, ltb→lt, Bool-cases, inl, inr}
use drewos.Machine.{
  IdtEntry, IdtState, Machine, Platform, Returns, enable_interrupts, load_idt, ◌>>=◌,
  on_screen-none,
}
use drewos.Pic.{pic_get_isr, pic_get_irr, pic_get_irq_reg}
use drewos.Print.Format.{render, expand}
use drewos.Print.Render.{println-none}
use drewos.Print.{int, println}
use drewos.Idt.{write_at, descriptor, set_descriptor, initial_isr}
use drewos.Idt.{set_exceptions, idt_init, idt_set_descriptor, idt_install_irq_handler}
use drewos.Idt.{call_attached, call_handler, report_and_call, generic_handler}

-- The address that the processor takes from a gate.
abbrev pub target : IdtEntry → ℕ
target e = e.isr_high * 2 ^ 16 + e.isr_low

-- A present 32-bit interrupt gate in the kernel's code segment that leads to an address.
pub record IsGate (e : IdtEntry) (address : ℕ) : Type 0 where
  pub leads : target e ≡ address
  pub segment : e.kernel_cs ≡ 0x08
  pub present : e.attributes ≡ 0x8e
  pub clear : e.reserved ≡ 0

pub descriptor-IsGate : (isr : ℕ) → isr < 2 ^ 32 → IsGate (descriptor isr 0x8e) isr
descriptor-IsGate isr h = record {
  leads = omega arith;
  segment = refl;
  present = refl;
  clear = refl;
}

-- Writing entry `v` extends a written range that begins behind it.
extend_range :
    (g old : ℕ → IdtEntry) (v n j : ℕ)
    → v + suc n ≤ 256
    → (if leb (v + 1) j && ltb j (v + 1 + n) then g j else write_at (u8 v) (g v) old j)
      ≡ (if leb v j && ltb j (v + suc n) then g j else old j)
extend_range g old v n j h = ground arith

module _ (platform : Platform) where
  abbrev pub initial_gate : ℕ → IdtEntry
  initial_gate v = descriptor (initial_isr platform v) 0x8e

  set_exceptions-idt :
      (n v : ℕ) (t : IdtState) (j : ℕ)
      → v + n ≤ 256
      → (set_exceptions platform n v t).idt j
        ≡ (if leb v j && ltb j (v + n) then initial_gate j else t.idt j)
  unfolding set_exceptions
  set_exceptions-idt zero v t j h = empty_range v j
    where
      empty_range :
          (a b : ℕ) → t.idt j ≡ (if leb a b && ltb b (a + 0) then initial_gate j else t.idt j)
      empty_range a b = elim (Bool-cases (leb a b && ltb b (a + 0))) [
        | inl e ↦ absurd (ground arith)
        | inr e ↦ rw e
      ]
  set_exceptions-idt (suc n) v t j h =
      set_exceptions-idt n (v + 1) (set_descriptor v (initial_isr platform v) 0x8e t) j
        (omega arith)
      ∙ extend_range initial_gate t.idt v n j h

  set_exceptions-all :
      (t : IdtState) (j : ℕ)
      → (set_exceptions platform 32 0 t).idt j ≡ (if ltb j 32 then initial_gate j else t.idt j)
  set_exceptions-all t j =
      set_exceptions-idt 32 0 t j (omega arith)
      ∙ ap (λ b. if b then initial_gate j else t.idt j) (from_zero j)
    where
      from_zero : (k : ℕ) → (leb 0 k && ltb k 32) ≡ ltb k 32
      from_zero k = ground arith

  pub set_exceptions-handlers :
      (n v : ℕ) (t : IdtState)
      → ((set_exceptions platform n v t).handlers ≡ t.handlers)
        × ((set_exceptions platform n v t).idtr_limit ≡ t.idtr_limit)
        × ((set_exceptions platform n v t).idtr_base ≡ t.idtr_base)
  unfolding set_exceptions
  set_exceptions-handlers zero v t = (refl, refl, refl)
  set_exceptions-handlers (suc n) v t =
      set_exceptions-handlers n (v + 1) (set_descriptor v (initial_isr platform v) 0x8e t)

  -- The exceptions that have a stub of their own: 8, 10 to 14 and 17.
  abbrev pub exception_address : ℕ → ℕ
  exception_address v =
      if v == 8 || leb 10 v && leb v 14 || v == 17
      then platform.isr_stub_table v
      else platform.generic_handler_address

  initial_isr-eq : (v : ℕ) → initial_isr platform v ≡ exception_address v
  initial_isr-eq v = ground arith

  initial_gate-IsGate :
      (v : ℕ) → exception_address v < 2 ^ 32 → IsGate (initial_gate v) (exception_address v)
  initial_gate-IsGate v fits = rw (initial_isr-eq v) (descriptor-IsGate (exception_address v) fits)

  -- `idt_init` returns, if the addresses fit 32 bits. Each of the 32 exceptions then has a present
  -- interrupt gate that leads to its stub if it is one of 8, 10 to 14 and 17, and to the generic
  -- handler otherwise. Every other entry and all attached handlers are as before, and the table is
  -- loaded, with its address and the limit 2047, before interrupts are enabled.
  pub idt_init_lem :
      (m : Machine) (j : ℕ)
      → exception_address j < 2 ^ 32
      → Returns (idt_init platform m) λ _ m'.
        ((j < 32) × IsGate (m'.interrupts.idt j) (exception_address j)
          ⊎ (32 ≤ j) × (m'.interrupts.idt j ≡ m.interrupts.idt j))
        × (m'.interrupts.handlers ≡ m.interrupts.handlers)
        × (m'.trace ≡ enable_interrupts ∷ load_idt 2047 (u32 platform.idt_address) ∷ m.trace)
  unfolding idt_init
  idt_init_lem m j fits = (
    elim (Bool-cases (ltb j 32)) [
      | inl e ↦ inl (ltb→lt j 32 e, rw (set_exceptions-all start j, e) (initial_gate-IsGate j fits))
      | inr e ↦ inr (ground arith, rw (set_exceptions-all start j, e))
    ],
    (set_exceptions-handlers 32 0 start).0,
    refl,
  )
    where
      start : IdtState
      start = record m.interrupts { idtr_limit = 2047; idtr_base = u32 platform.idt_address }

  write_at_self : (v : ℕ) (e : IdtEntry) (f : ℕ → IdtEntry) → v < 256 → write_at (u8 v) e f v ≡ e
  write_at_self v e f h = ground arith

  -- `idt_install_irq_handler` and `idt_set_descriptor` behind it: for a vector below 256 the handler is
  -- attached, the gate of the vector is present and leads to the generic stub, if its address fits 32
  -- bits, and nothing changes at another vector.
  idt_install_irq_handler_lem :
      (vector handler j : ℕ) (m : Machine)
      → vector < 256
      → platform.generic_isr_stub_address < 2 ^ 32
      → Returns (idt_install_irq_handler platform vector handler m) λ _ m'.
        (m'.interrupts.handlers j ≡ (if vector == j then handler else m.interrupts.handlers j))
        × IsGate (m'.interrupts.idt vector) platform.generic_isr_stub_address
        × ((vector ≡ j) ⊎ (m'.interrupts.idt j ≡ m.interrupts.idt j))
        × (m'.trace ≡ m.trace)
  unfolding idt_install_irq_handler idt_set_descriptor
  idt_install_irq_handler_lem vector handler j m h fits = (
    ground arith,
    rw (write_at_self vector (descriptor platform.generic_isr_stub_address 0x8e) m.interrupts.idt h)
        (descriptor-IsGate platform.generic_isr_stub_address fits),
    ground arith,
    refl,
  )

  -- The message about an attached handler wants an argument that is not there.
  call_attached-none : (handler : ℕ) (m : Machine) → call_attached platform handler m ≡ none
  unfolding call_attached
  call_attached-none handler m = rw (
    println-none (codes "A handler has been attached to vector %x and will be invoked.") [] m.screen
        tt refl_render,
    ◌>>=◌,
  )
    where
      refl_render :
          render (codes "A handler has been attached to vector %x and will be invoked.") [] ≡ none
      refl_render = unfold render expand in refl

  call_handler-attached :
      (vector : ℕ) (m : Machine)
      → m.interrupts.handlers vector ≢ 0
      → call_handler platform vector m ≡ none
  unfolding call_handler
  call_handler-attached vector m h =
      ground (arith, call_attached-none (m.interrupts.handlers vector) m)

  report_and_call-attached :
      (vector isr irr : ℕ) (m : Machine)
      → m.interrupts.handlers vector ≢ 0
      → report_and_call platform vector isr irr m ≡ none
  unfolding report_and_call
  report_and_call-attached vector isr irr m h =
      on_screen-none
        (println (some (codes "INTERRUPT %d (%x), isr = %x, irr = %x"))
          (int vector ∷ int vector ∷ int isr ∷ int irr ∷ []))
        (call_handler platform vector) m
        (λ s. call_handler-attached vector (record m { screen = s }) h)

  -- A vector whose handler is attached makes `generic_handler` undefined: it prints a format that wants
  -- an argument, and passes none.
  pub generic_handler-attached :
      (vector : ℕ) (m : Machine)
      → m.interrupts.handlers vector ≢ 0
      → generic_handler platform vector m ≡ none
  unfolding generic_handler pic_get_isr pic_get_irr pic_get_irq_reg
  generic_handler-attached vector m h = report_and_call-attached vector _ _ _ h
