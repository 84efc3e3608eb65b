-- ===== src/Keyboard/Setup.antt =====
-- What the initialisation of the keyboard driver leaves behind.
use drewos.Base.{
  ℕ, suc, ◌+◌, ◌-◌, bit_and, ◌^◌, ◌≡◌, ◌≢◌, ◌∙◌, refl, ap, arith, List, [], ◌∷◌, ◌==◌, u8, codes,
  Bool-cases, inl, inr,
}
use drewos.Machine.{Platform, Machine, K, ◌>>=◌, ◌>>◌}
use drewos.Machine.Comes.{Comes, returned, stopped}
use drewos.Machine.Quiet.{Quietly, Quietly-bind, Quietly-println, Anything, SameVariables}
use drewos.Machine.Quiet.{Quietly-read_byte, Quietly-write_byte, IsText}
use drewos.Screen.Frame.{KeepsMemory, KeepsMemory-trans}
use drewos.Machine.Ends.{Ends}
use drewos.Print.{int}
use drewos.Print.Format.{render, expand}
use drewos.Pic.{pic_get_vector, irq_clear_mask}
use drewos.Idt.{write_at, descriptor, idt_install_irq_handler, idt_set_descriptor}
use drewos.Ps2.{say, Port, port_code}
use drewos.Ps2.Resend.{port_code-lt}
use drewos.Ps2.Reset.Answers.{NeverResends}
use drewos.Keyboard.{get_vector, configure, set_up, ps2_kbd_init}
use drewos.Keyboard.Scan.{KeepsSet1, send_cmd-Quietly, set_scan_codes-Quietly}

-- The vector of line 1 at the master controller.
abbrev pub line_1 : Machine → ℕ
line_1 m = u8 (m.pic.offset0 + 1)

-- The driver is installed for a port: its variables, its handler and the gate of its vector. All else
-- that the drivers keep is as before.
pub record Installed (platform : Platform) (at : Port) (m n : Machine) : Type 0 where
  pub vector : n.keyboard.vector ≡ line_1 m
  pub port : n.keyboard.port ≡ port_code at
  pub handlers :
      n.interrupts.handlers
      ≡ write_at (line_1 m) platform.keyboard_handler_address m.interrupts.handlers
  pub idt :
      n.interrupts.idt
      ≡ write_at (line_1 m) (descriptor platform.generic_isr_stub_address 0x8e) m.interrupts.idt
  pub pic : n.pic ≡ m.pic
  pub ps2 : n.ps2 ≡ m.ps2
  pub acpi : n.acpi ≡ m.acpi
  pub memory : KeepsMemory m.screen n.screen

Installed-SameVariables :
    {platform : Platform} {at : Port} {m n k : Machine}
    → Installed platform at m n
    → SameVariables n k
    → Installed platform at m k
Installed-SameVariables i s = record {
  vector = ap (λ k. k.vector) s.keyboard ∙ i.vector;
  port = ap (λ k. k.port) s.keyboard ∙ i.port;
  handlers = ap (λ t. t.handlers) s.interrupts ∙ i.handlers;
  idt = ap (λ t. t.idt) s.interrupts ∙ i.idt;
  pic = s.pic ∙ i.pic;
  ps2 = s.ps2 ∙ i.ps2;
  acpi = s.acpi ∙ i.acpi;
  memory = KeepsMemory-trans i.memory s.memory;
}

-- What `ps2_kbd_init` does behind its preparations.
abbrev pub interrupted : Platform → K (Unit {0})
interrupted platform =
    platform.software_interrupt 0x21
    >> say platform.dev (codes "Successfully triggered interrupt 0x21!") []

module _ (platform : Platform) where
  told : (msg : List ℕ) → IsText (render msg []) → Quietly Anything (say platform.dev msg [])
  told msg h = Quietly-println msg [] tt h

  clear_mask-Quietly : Quietly Anything (irq_clear_mask platform.dev 1)
  unfolding irq_clear_mask
  clear_mask-Quietly =
      Quietly-bind (Quietly-read_byte platform.dev 0x21)
        λ v _. Quietly-write_byte 0x21 (u8 (bit_and v (255 - u8 (2 ^ 1))))

  -- The driver's variables are those of the port.
  abbrev named : Port → Machine → Machine
  named at m = record m { keyboard = record { vector = u8 (line_1 m); port = port_code at } }

  -- The handler is in its place.
  abbrev attached : Machine → Machine
  attached n = record n {
    interrupts = record n.interrupts {
      handlers =
          write_at (u8 n.keyboard.vector) platform.keyboard_handler_address n.interrupts.handlers;
      idt =
          write_at (u8 n.keyboard.vector) (descriptor platform.generic_isr_stub_address 0x8e)
            n.interrupts.idt;
    };
  }

  attached-Installed :
      (at : Port) (m n : Machine)
      → SameVariables (named at m) n
      → Installed platform at m (attached n)
  attached-Installed at m n s =
      let vector : n.keyboard.vector ≡ line_1 m = ap (λ k. k.vector) s.keyboard ∙ omega arith in
      let place : u8 n.keyboard.vector ≡ line_1 m = omega arith in
      record {
        vector = vector;
        port = ap (λ k. k.port) s.keyboard;
        handlers = rw (place, s.interrupts) refl;
        idt = rw (place, s.interrupts) refl;
        pic = s.pic;
        ps2 = s.ps2;
        acpi = s.acpi;
        memory = s.memory;
      }

  module _ (never : NeverResends platform.dev) (keeps : KeepsSet1 platform.dev)
      (patience rounds : ℕ) (at : Port) where
    configure-Quietly : Quietly Anything (configure platform (suc patience) (suc rounds) at)
    unfolding configure
    configure-Quietly =
        Quietly-bind
          (Quietly-println (codes "Initialising PS/2 keyboard in port %d...")
            (int (port_code at) ∷ []) (port_code-lt at, tt) (unfold render expand in tt))
          λ _ _. Quietly-bind (told (codes "Unmasking IRQ1...") (unfold render expand in tt)) λ _ _.
            Quietly-bind clear_mask-Quietly λ _ _.
              Quietly-bind (told (codes "Enabling scanning...") (unfold render expand in tt)) λ _ _.
                Quietly-bind (send_cmd-Quietly platform never patience 0xf4 (omega arith)) λ _ _.
                  Quietly-bind (told (codes "Enabling scan code 1...") (unfold render expand in tt))
                    λ _ _.
                      Quietly-bind (set_scan_codes-Quietly platform never keeps patience rounds)
                        λ _ _. told (codes "Installing IRQ handler...") (unfold render expand in tt)

    pub set_up-Installed :
        (m : Machine)
        → Ends (set_up platform (suc patience) (suc rounds) at) m (λ _. Installed platform at m)
    unfolding set_up get_vector pic_get_vector idt_install_irq_handler idt_set_descriptor
    set_up-Installed m =
        let (_, n, e, _, s) = configure-Quietly.run (named at m) in
        let (_, k, e', _, s') =
          (told (codes "Triggerring interrupt 0x21...") (unfold render expand in tt)).run
            (attached n) in
        record {
          value = tt;
          behind = k;
          returns = rw (e, ◌>>=◌) e';
          post = Installed-SameVariables (attached-Installed at m n s) s';
        }

    -- A device that never asks to send again and never names the scan code sets 2 and 3 lets
    -- `ps2_kbd_init` come to an end or to its interrupt, from every machine. If the driver had a
    -- vector, it returns and nothing has happened. Otherwise it goes on as the interrupt 0x21 and the
    -- message behind it do from a machine in which the port and the vector of line 1 are recorded, that
    -- vector has the driver's handler and a gate to the generic stub, and all other handlers, gates
    -- and variables are as before.
    pub ps2_kbd_init-Initialised :
        (m : Machine)
        → Comes
            (λ (_ : Unit {0}). interrupted platform)
            (ps2_kbd_init platform (suc patience) (suc rounds) at)
            m
            (λ n. (m.keyboard.vector ≡ 0) × Installed platform at m n)
            (λ _ n. (m.keyboard.vector ≢ 0) × (n ≡ m))
    unfolding ps2_kbd_init
    ps2_kbd_init-Initialised m = elim (Bool-cases (m.keyboard.vector == 0)) [
      | inl e ↦
          let s = set_up-Installed m in
          stopped tt s.behind (rw (e, s.returns, ◌>>=◌) refl) (ground arith, s.post)
      | inr e ↦ returned tt m (rw (e, ◌>>=◌) refl) (ground arith, refl)
    ]
