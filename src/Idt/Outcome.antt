-- ===== src/Idt/Outcome.antt =====
-- What `generic_handler` does with every vector.
use drewos.Base.{
  ℕ, ◌^◌, ◌*◌, u16, bit_or, ◌<◌, ◌≤◌, ◌≡◌, ◌≢◌, ◌∙◌, ap, arith, Option, none, some, [], ◌∷◌, codes,
  ◌⊎◌, inl, inr, Bool-cases, leb, ◌==◌,
}
use drewos.Base.{u8, sym, refl, List, ◌++◌}
use drewos.Screen.{write_char}
use drewos.Screen.Frame.{KeepsMemory-refl}
use drewos.Screen.Palette.{white, black}
use drewos.Print.{Arg}
use drewos.Print.Text.{type_text, type_text-append}
use drewos.Print.Render.{cprintln-returns}
use drewos.Machine.{
  Device, Machine, Trace, Platform, read8, write8, ◌>>=◌, on_screen, on_screen-none,
}
use drewos.Machine.Quiet.{
  Quietly, Quietly-bind, Quietly-pure, Quietly-read_byte, Quietly-write_byte, Quietly-println,
  SameVariables, SameVariables-trans, Quietly-at, IsText, IsText-some,
}
use drewos.Pic.{pic_get_isr, pic_get_irr, pic_get_irq_reg}
use drewos.Print.{int, println}
use drewos.Print.Format.{AreWords, render, expand}
use drewos.Idt.{call_handler, report_and_call, generic_handler}
use drewos.Idt.Gates.{generic_handler-attached}

abbrev IsWord : ℕ → Type 0
IsWord v = v < 2 ^ 16

irq_reg-Quietly : (dev : Device) (ocw3 : ℕ) → Quietly IsWord (pic_get_irq_reg dev ocw3)
unfolding pic_get_irq_reg
irq_reg-Quietly dev ocw3 = Quietly-bind (Quietly-write_byte 0x20 ocw3) λ _ _.
    Quietly-bind (Quietly-write_byte 0xa0 ocw3) λ _ _.
      Quietly-bind (Quietly-read_byte dev 0xa0) λ slave _.
        Quietly-bind (Quietly-read_byte dev 0x20)
          λ master _. Quietly-pure (u16 (bit_or (slave * 2 ^ 8) master)) (omega arith)

-- The two chips' registers, the slave's in the high byte, as the chips answer to the command that is
-- written to them; and the accesses of that.
abbrev chip_answers : Device → ℕ → Trace → ℕ × Trace
chip_answers dev command t =
    let asked : Trace = write8 0xa0 command ∷ write8 0x20 command ∷ t in
    let slave : ℕ = u8 (dev asked 0xa0) in
    let master : ℕ = u8 (dev (read8 0xa0 slave ∷ asked) 0x20) in
    (u16 (bit_or (slave * 2 ^ 8) master), read8 0x20 master ∷ read8 0xa0 slave ∷ asked)

println-typed :
    (msg : List ℕ) (args : List Arg) (n : Machine) (text : List ℕ)
    → AreWords args
    → render msg args ≡ some text
    → on_screen (println (some msg) args) n
      ≡ some (
        tt,
        record n { screen = write_char b'\n' white black (type_text white black text n.screen) },
      )
unfolding println
println-typed msg args n text words r =
    rw (cprintln-returns white black msg args n.screen text words r, on_screen) refl

-- Accesses alone change no variable.
SameVariables-trace : (m : Machine) (t : Trace) → SameVariables m (record m { trace = t })
SameVariables-trace m t = record {
  pic = refl;
  interrupts = refl;
  ps2 = refl;
  keyboard = refl;
  acpi = refl;
  memory = KeepsMemory-refl m.screen;
}

-- The message about a vector has been typed: the vector twice, and the registers that say which
-- interrupts are served and which are waiting, in this order. The accesses are those to the chips.
pub record Reported (dev : Device) (vector : ℕ) (m m' : Machine) : Type 0 where
  pub text : List ℕ
  pub reads :
      let (served, t) = chip_answers dev 0x0b m.trace in
      let (waiting, t') = chip_answers dev 0x0a t in
      (render
          (codes "INTERRUPT %d (%x), isr = %x, irr = %x")
          (int vector ∷ int vector ∷ int served ∷ int waiting ∷ [])
        ≡ some text)
      × (m'.trace ≡ t')
  pub typed : m'.screen ≡ type_text white black (text ++ codes "\n") m.screen
  pub same : SameVariables m m'

module _ (platform : Platform) where
  -- What becomes of a call for a vector.
  pub data Handled (vector : ℕ) (m : Machine) (result : Option (Unit {0} × Machine)) : Type 0 where
    reported :
        (m' : Machine)
        → vector < 256
        → m.interrupts.handlers vector ≡ 0
        → result ≡ some (tt, m')
        → Reported platform.dev vector m m'
        → Handled vector m result
    undefined :
        (256 ≤ vector) ⊎ (m.interrupts.handlers vector ≢ 0)
        → result ≡ none
        → Handled vector m result

  call_handler-outside :
      (vector : ℕ) (m : Machine) → 256 ≤ vector → call_handler platform vector m ≡ none
  unfolding call_handler
  call_handler-outside vector m h = ground arith

  call_handler-unattached :
      (vector : ℕ) (m : Machine)
      → vector < 256
      → m.interrupts.handlers vector ≡ 0
      → call_handler platform vector m ≡ some (tt, m)
  unfolding call_handler
  call_handler-unattached vector m h e = ground arith

  report_and_call-outside :
      (vector isr irr : ℕ) (m : Machine)
      → 256 ≤ vector
      → report_and_call platform vector isr irr m ≡ none
  unfolding report_and_call
  report_and_call-outside vector isr irr m h =
      on_screen-none
        (println (some (codes "INTERRUPT %d (%x), isr = %x, irr = %x"))
          (int vector ∷ int vector ∷ int isr ∷ int irr ∷ []))
        (call_handler platform vector) m
        (λ s. call_handler-outside vector (record m { screen = s }) h)

  pub generic_handler-outside :
      (vector : ℕ) (m : Machine) → 256 ≤ vector → generic_handler platform vector m ≡ none
  unfolding generic_handler pic_get_isr pic_get_irr pic_get_irq_reg
  generic_handler-outside vector m h = report_and_call-outside vector _ _ _ h

  irq_reg-answers :
      (ocw3 : ℕ) (m : Machine)
      → ocw3 < 256
      → let (v, t) = chip_answers platform.dev ocw3 m.trace in
        pic_get_irq_reg platform.dev ocw3 m ≡ some (v, record m { trace = t })
  unfolding pic_get_irq_reg
  irq_reg-answers ocw3 m h = let byte : u8 ocw3 ≡ ocw3 = omega arith in rw byte refl

  -- The message, on the screen of a machine.
  message_typed :
      (vector served waiting : ℕ) (n : Machine)
      → vector < 2 ^ 32
      → served < 2 ^ 32
      → waiting < 2 ^ 32
      → (n' : Machine) × (text : List ℕ) × (on_screen
            (println
              (some (codes "INTERRUPT %d (%x), isr = %x, irr = %x"))
              (int vector ∷ int vector ∷ int served ∷ int waiting ∷ []))
            n
          ≡ some (tt, n'))
        × (render
              (codes "INTERRUPT %d (%x), isr = %x, irr = %x")
              (int vector ∷ int vector ∷ int served ∷ int waiting ∷ [])
            ≡ some text)
        × (n'.screen ≡ type_text white black (text ++ codes "\n") n.screen)
        × (n'.trace ≡ n.trace)
        × SameVariables n n'
  message_typed vector served waiting n hv hs hw =
      let msg = codes "INTERRUPT %d (%x), isr = %x, irr = %x" in
      let args = int vector ∷ int vector ∷ int served ∷ int waiting ∷ [] in
      let words : AreWords args = (hv, (hv, (hs, (hw, tt)))) in
      let is_text : IsText (render msg args) = unfold render expand in tt in
      let (text, r) = IsText-some (render msg args) is_text in
      let n' : Machine = record n {
        screen = write_char b'\n' white black (type_text white black text n.screen);
      } in
      let shown : on_screen (println (some msg) args) n ≡ some (tt, n') =
        println-typed msg args n text words r in
      (
        n',
        text,
        shown,
        r,
        sym (type_text-append white black text (codes "\n") n.screen),
        refl,
        (Quietly-at (Quietly-println msg args words is_text) shown).1,
      )

  generic_handler-unattached :
      (vector : ℕ) (m : Machine)
      → vector < 256
      → m.interrupts.handlers vector ≡ 0
      → Handled vector m (generic_handler platform vector m)
  unfolding generic_handler report_and_call pic_get_isr pic_get_irr
  generic_handler-unattached vector m h e =
      let (served, t) = chip_answers platform.dev 0x0b m.trace in
      let (waiting, t') = chip_answers platform.dev 0x0a t in
      let asked : Machine = record m { trace = t' } in
      let (m', text, shown, r, typed, accesses, same) =
        message_typed vector served waiting asked (omega arith) (omega arith) (omega arith) in
      reported m' h e
        (rw
          (
            irq_reg-answers 0x0b m (omega arith),
            ◌>>=◌,
            irq_reg-answers 0x0a (record m { trace = t }) (omega arith),
            ◌>>=◌,
            shown,
            ◌>>=◌,
          )
          (call_handler-unattached vector m' h (ap (λ t. t.handlers vector) same.interrupts ∙ e)))
        (record {
          text = text;
          reads = (r, accesses);
          typed = typed;
          same = SameVariables-trans (SameVariables-trace m t') same;
        })

  -- For every vector and machine: a vector below 256 without a handler is reported on the screen:
  -- `generic_handler` types its message with the vector and what the two interrupt controllers
  -- answer about the interrupts served and waiting, and returns with all variables as before. A vector with a handler is
  -- undefined, since the message about it has no argument, and so is one from 256 on, for which
  -- `handlers` has no place.
  pub generic_handler-Handled :
      (vector : ℕ) (m : Machine) → Handled vector m (generic_handler platform vector m)
  generic_handler-Handled vector m = elim (Bool-cases (leb 256 vector)) [
    | inl e ↦ undefined (inl (ground arith)) (generic_handler-outside vector m (ground arith))
    | inr e ↦ elim (Bool-cases (m.interrupts.handlers vector == 0)) [
      | inl k ↦ generic_handler-unattached vector m (ground arith) (ground arith)
      | inr k ↦
          undefined (inr (ground arith)) (generic_handler-attached platform vector m (ground arith))
    ]
  ]
