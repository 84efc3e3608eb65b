-- ===== src/Ps2/Board/Driver.antt =====
-- src/driver/ps2_keyboard.c with a keyboard that answers.
use drewos.Base.{true}
use drewos.Base.{arith, some, ℕ, suc, ◌+◌, ◌≡◌, refl, ap, ◌∙◌, ◌==◌, List, [], ◌∷◌, u8, codes}
use drewos.Machine.{Platform, write8, pure}
use drewos.Machine.Quiet.{Quietly-println, IsText}
use drewos.Print.{int}
use drewos.Print.Format.{render, expand}
use drewos.Pic.{pic_get_vector, irq_clear_mask}
use drewos.Idt.{write_at, descriptor, idt_install_irq_handler, idt_set_descriptor, set_descriptor}
use drewos.Ps2.{say, port0, ps2_send_device_command}
use drewos.Ps2.Resend.{port_code-lt}
use drewos.Keyboard.{
  set_1, get_scan_code_set, ps2_kbd_send_cmd, ps2_kbd_get_scan_code, ps2_kbd_set_scan_codes,
  configure, set_up, ps2_kbd_init, get_vector, port_of, differ,
}
use drewos.Keyboard.Setup.{interrupted}
use drewos.Ps2.Board.{SecondPort, Board, Obeys, for_scan_set, hears, asked, shown, idle}
use drewos.Ps2.Board.World.{World, with_board, Others-refl, Others-log, Others-trans}
use drewos.Ps2.Board.Talks.{
  Reaches, Reaches-here, Talks, Talks-world, Talks-true, Talks-pure, Talks-bind, Talks-value,
  Talks-keyboard, Talks-on_keyboard, Talks-on_table, Talks-screen, Talks-false,
}
use drewos.Ps2.Board.Transfers.{send_data-Talks, read_data-Talks, device_command-Talks}

-- The vector of the keyboard's line.
abbrev pub keyboard_vector : World → ℕ
keyboard_vector w = u8 (w.pic.offset0 + 1)

-- The driver's handler and its gate are in the place of a vector.
abbrev attached : Platform → ℕ → World → World
attached platform v w = record w {
  interrupts = record w.interrupts {
    handlers = write_at v platform.keyboard_handler_address w.interrupts.handlers;
    idt = write_at v (descriptor platform.generic_isr_stub_address 0x8e) w.interrupts.idt;
  };
}

-- The driver has its variables, its handler and its gate for the first port.
abbrev pub with_driver : Platform → World → World
with_driver platform w =
    attached platform (keyboard_vector w)
      (record w { keyboard = record { vector = keyboard_vector w; port = 0 } })

-- The keyboard sends the codes of set 1, and waits for an argument of the command 0xf0.
abbrev pub left_waiting : SecondPort → ℕ → Board
left_waiting mouse config = record (idle true mouse 0xfa config 1) { awaits = for_scan_set }

module _ (start : Board) (platform : Platform) (obeys : Obeys start platform.dev)
    (mouse : SecondPort) where
  told-Talks :
      {w : World} (msg : List ℕ)
      → IsText (render msg [])
      → Talks start (say platform.dev msg []) w tt w
  told-Talks msg h = Talks-screen _ (Quietly-println msg [] tt h)

  -- The board does not hear the accesses to the interrupt controller.
  clear_mask-Talks : {w : World} → Talks start (irq_clear_mask platform.dev 1) w tt w
  unfolding irq_clear_mask
  clear_mask-Talks = record {
    run = λ m i. (
      _,
      refl,
      record {
        pic = i.pic;
        interrupts = i.interrupts;
        ps2 = i.ps2;
        keyboard = i.keyboard;
        board = i.board;
      },
      Others-trans (Others-log _ m) (Others-log _ _),
    );
  }

  module _ (patience : ℕ) where
    to_first-Talks :
        {w : World} (cmd : ℕ) {port : ℕ}
        → port ≡ 0
        → u8 (shown (hears (write8 0x60 (u8 cmd)) w.board)) ≡ 0xfa
        → Talks start
            (ps2_send_device_command platform.dev (suc patience) cmd (port_of port))
            w
            tt
            (with_board (asked cmd w.board) w)
    to_first-Talks cmd e ack = rw e (device_command-Talks start platform.dev obeys patience cmd ack)

    send_cmd-Talks :
        {w : World} (cmd : ℕ)
        → w.keyboard.port ≡ 0
        → u8 (shown (hears (write8 0x60 (u8 cmd)) w.board)) ≡ 0xfa
        → Talks start
            (ps2_kbd_send_cmd platform (suc patience) cmd)
            w
            tt
            (with_board (asked cmd w.board) w)
    unfolding ps2_kbd_send_cmd
    send_cmd-Talks cmd first ack =
        Talks-keyboard (λ k. k.port) λ port e. to_first-Talks cmd (e ∙ first) ack

    -- The keyboard has answered to a byte before, and that answer is taken for the one to the command;
    -- the answer to the command is taken for the set.
    get_scan_code-Talks :
        (w : World) (config scan_set : ℕ)
        → w.keyboard.port ≡ 0
        → Talks start
            (ps2_kbd_get_scan_code platform (suc patience))
            (with_board (record (idle true mouse 0xfa config scan_set) { output = 0xfa ∷ [] }) w)
            set_1
            (with_board (record (idle true mouse 0xfa config scan_set) { awaits = for_scan_set }) w)
    unfolding ps2_kbd_get_scan_code
    get_scan_code-Talks w config scan_set first = Talks-bind (send_cmd-Talks 0xf0 first refl) λ _ _.
        Talks-bind (read_data-Talks start platform.dev obeys)
          λ id e. Talks-value (ap get_scan_code_set e) (Talks-pure (get_scan_code_set id))

    pub set_scan_codes-Talks :
        (w : World) (rounds config scan_set : ℕ)
        → w.keyboard.port ≡ 0
        → Talks start
            (ps2_kbd_set_scan_codes platform (suc patience) (suc rounds) set_1)
            (with_board (idle true mouse 0xfa config scan_set) w)
            tt
            (with_board (left_waiting mouse config) w)
    unfolding ps2_kbd_set_scan_codes
    set_scan_codes-Talks w rounds config scan_set first =
        Talks-bind (send_cmd-Talks 0xf0 first refl) λ _ _.
          Talks-bind (send_data-Talks start platform.dev obeys 1) λ _ _.
            Talks-bind (get_scan_code-Talks w config 1 first)
              λ set e. Talks-false _ (ap (λ s. differ s set_1) e) (Talks-pure tt)

    configure-Talks :
        (w : World) (rounds config scan_set : ℕ)
        → w.keyboard.port ≡ 0
        → Talks start
            (configure platform (suc patience) (suc rounds) port0)
            (with_board (idle true mouse 0xfa config scan_set) w)
            tt
            (with_board (left_waiting mouse config) w)
    unfolding configure
    configure-Talks w rounds config scan_set first =
        Talks-bind
          (Talks-screen _ (
            Quietly-println (codes "Initialising PS/2 keyboard in port %d...") (int 0 ∷ [])
              (port_code-lt port0, tt) (unfold render expand in tt)))
          λ _ _.
            Talks-bind (told-Talks (codes "Unmasking IRQ1...") (unfold render expand in tt)) λ _ _.
              Talks-bind clear_mask-Talks λ _ _.
                Talks-bind (told-Talks (codes "Enabling scanning...") (unfold render expand in tt))
                  λ _ _. Talks-bind (send_cmd-Talks 0xf4 first refl) λ _ _.
                    Talks-bind
                      (told-Talks (codes "Enabling scan code 1...") (unfold render expand in tt))
                      λ _ _. Talks-bind (set_scan_codes-Talks w rounds config scan_set first) λ _ _.
                        told-Talks (codes "Installing IRQ handler...") (unfold render expand in tt)

    get_vector-Talks : {w : World} → Talks start get_vector w (keyboard_vector w) w
    unfolding get_vector pic_get_vector
    get_vector-Talks = record {
      run = λ m i. (m, ap (λ p. some (u8 (p.offset0 + 1), m)) i.pic, i, Others-refl m);
    }

    install-Talks :
        {w : World} {vector : ℕ}
        → vector ≡ keyboard_vector w
        → Talks start
            (idt_install_irq_handler platform vector platform.keyboard_handler_address)
            w
            tt
            (attached platform (keyboard_vector w) w)
    unfolding idt_install_irq_handler idt_set_descriptor
    install-Talks {w} {vector} e =
        let place : u8 vector ≡ keyboard_vector w = omega (arith, e) in
        Talks-world (ap (λ v. attached platform v w) place) (
          Talks-bind
            (Talks-on_table (λ t. record t {
              handlers = write_at (u8 vector) platform.keyboard_handler_address t.handlers;
            }))
            λ _ _. Talks-on_table (set_descriptor vector platform.generic_isr_stub_address 0x8e))

    set_up-Talks :
        (w : World) (rounds config scan_set : ℕ)
        → Talks start
            (set_up platform (suc patience) (suc rounds) port0)
            (with_board (idle true mouse 0xfa config scan_set) w)
            tt
            (with_board (left_waiting mouse config) (with_driver platform w))
    unfolding set_up
    set_up-Talks w rounds config scan_set =
        let named : World = record w {
          keyboard = record { vector = keyboard_vector w; port = 0 };
        } in
        Talks-bind (Talks-on_keyboard (λ k. record k { port = 0 })) λ _ _.
          Talks-bind get_vector-Talks λ vector e.
            let byte : u8 vector ≡ keyboard_vector w = omega (arith, e) in
            Talks-bind
              (Talks-world {w = with_board (idle true mouse 0xfa config scan_set) named}
                (rw byte refl) (Talks-on_keyboard (λ k. record k { vector = u8 vector })))
              λ _ _. Talks-bind (configure-Talks named rounds config scan_set refl) λ _ _.
                Talks-keyboard (λ k. k.vector)
                  λ installed e'. Talks-bind (install-Talks e') λ _ _.
                    told-Talks (codes "Triggerring interrupt 0x21...") (unfold render expand in tt)

    -- Where the driver is started for the first time, it comes to its interrupt.
    pub ps2_kbd_init-Reaches :
        (w : World) (rounds config scan_set : ℕ)
        → w.keyboard.vector ≡ 0
        → Reaches start
            (ps2_kbd_init platform (suc patience) (suc rounds) port0)
            (with_board (idle true mouse 0xfa config scan_set) w)
            (interrupted platform)
            (with_board (left_waiting mouse config) (with_driver platform w))
    unfolding ps2_kbd_init
    ps2_kbd_init-Reaches w rounds config scan_set fresh =
        Talks-keyboard (λ k. k.vector)
          λ vector e.
            Talks-true (pure tt) (ap (λ v. v == 0) (e ∙ fresh))
              (Talks-bind (set_up-Talks w rounds config scan_set) λ _ _. Reaches-here)
