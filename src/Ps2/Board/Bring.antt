-- ===== src/Ps2/Board/Bring.antt =====
-- `ps2_init` up to the interrupt of the keyboard driver, with a keyboard at the port.
use drewos.Base.{true, false}
use drewos.Base.{ℕ, suc, ◌^◌, ◌<◌, ◌≡◌, refl, ap, ◌∙◌, true, false, [], ◌∷◌, codes}
use drewos.Machine.{Platform, Ps2State, K, ◌>>◌}
use drewos.Machine.Quiet.{Quietly-println}
use drewos.Print.{int, str}
use drewos.Print.Format.{render, expand}
use drewos.Ps2.{port0, port1}
use drewos.Ps2.Resend.{port_code-lt}
use drewos.Ps2.Identity.{get_device_kind, get_device_type, get_device_type_str}
use drewos.Ps2.Init.{
  start_driver, ps2_init_device, on_ps2, bring_up, ps2_init, operational, set_device_id,
}
use drewos.Ps2.Init.After.{Fresh}
use drewos.Ps2.Board.{SecondPort, absent, Board, Obeys, idle}
use drewos.Ps2.Board.Configuration.{configured}
use drewos.Ps2.Board.Detection.{IsQuiet}
use drewos.Ps2.Board.Ready.{one_port, ps2_init-Reaches}
use drewos.Ps2.Board.Identity.{reset_port-Talks}
use drewos.Keyboard.Setup.{interrupted}
use drewos.Ps2.Board.Driver.{with_driver, left_waiting, ps2_kbd_init-Reaches}
use drewos.Ps2.Board.World.{World, with_board}
use drewos.Ps2.Board.Talks.{
  Reaches, Reaches-in, Reaches-trans, Talks-bind, Talks-world, Talks-ps2, Talks-on_ps2,
  Talks-screen, Talks-true,
}

-- A keyboard with two bytes of identity at the first port, and no second port.
abbrev pub one_keyboard : Ps2State
one_keyboard = record {
  port_0_operational = true;
  port_1_operational = false;
  dual_channel = false;
  port0_id = 0xab83;
  port1_id = 0;
}

-- The world behind `ps2_init`.
abbrev pub detected : Platform → World → World
detected platform w =
    with_board (left_waiting absent (configured w.board.config))
      (with_driver platform (record w { ps2 = one_keyboard }))

-- What `ps2_init` does behind the preparations of the keyboard driver.
abbrev pub after_first : Platform → ℕ → ℕ → K (Unit {0})
after_first platform patience rounds =
    interrupted platform >> bring_up platform (suc patience) (suc rounds) port1

module _ (start : Board) (platform : Platform) (obeys : Obeys start platform.dev)
    (mouse : SecondPort) (patience rounds : ℕ) where
  init_device-Reaches :
      (w : World) (config scan_set : ℕ) {device_id : ℕ}
      → device_id ≡ 0xab83
      → w.keyboard.vector ≡ 0
      → Reaches start
          (ps2_init_device platform (suc patience) (suc rounds) device_id port0)
          (with_board (idle true mouse 0xfa config scan_set) w)
          (interrupted platform)
          (with_board (left_waiting mouse config) (with_driver platform w))
  unfolding ps2_init_device get_device_type get_device_kind start_driver
  init_device-Reaches w config scan_set e fresh = rw e (
      Talks-bind
        (Talks-screen _ (
          Quietly-println (codes "Port %d successfully initialised. Device type: %s")
            (int 0 ∷ str (get_device_type_str (get_device_type 0xab83)) ∷ [])
            (port_code-lt port0, tt) (unfold render expand in tt)))
        λ _ _.
          ps2_kbd_init-Reaches start platform obeys mouse patience w rounds config scan_set fresh)

  pub bring_up_first-Reaches :
      (w : World) (last config scan_set : ℕ)
      → w.ps2.port_0_operational ≡ true
      → w.keyboard.vector ≡ 0
      → Reaches start
          (bring_up platform (suc patience) (suc rounds) port0)
          (with_board (idle true mouse last config scan_set) w)
          (interrupted platform)
          (with_board
            (left_waiting mouse config)
            (with_driver platform (record w { ps2 = record w.ps2 { port0_id = 0xab83 } })))
  unfolding bring_up
  bring_up_first-Reaches w last config scan_set works fresh =
      Talks-ps2 (λ s. s)
        λ s e. Talks-true (on_ps2 (set_device_id port0 0)) (ap (operational port0) e ∙ works) (
          Talks-bind
            (reset_port-Talks start platform.dev obeys mouse w patience s.port0_id last config
              scan_set)
            λ id e'.
              Talks-bind (Talks-world (rw e' refl) (Talks-on_ps2 (set_device_id port0 id))) λ _ _.
                init_device-Reaches (record w { ps2 = record w.ps2 { port0_id = 0xab83 } }) config 2
                  e' fresh)

pub ps2_init-after_first :
    (start : Board) (platform : Platform)
    → Obeys start platform.dev
    → (patience rounds : ℕ) (w : World) → w.board.config < 2 ^ 8
    → IsQuiet w.board
    → w.board.mouse ≡ absent
    → w.board.populated ≡ true
    → Fresh w.ps2
    → w.keyboard.vector ≡ 0
    → Reaches start
        (ps2_init platform (suc patience) (suc rounds))
        w
        (after_first platform patience rounds)
        (detected platform w)
ps2_init-after_first start platform obeys patience rounds w byte rests single there clear fresh =
    let config = configured w.board.config in
    Reaches-trans
      (Talks-world
        (ap
          (λ p.
            with_board (idle p absent config config w.board.scan_set) (record w { ps2 = one_port }))
          there)
        (ps2_init-Reaches start platform obeys patience rounds w byte rests single clear))
      (Reaches-in _ (
        bring_up_first-Reaches start platform obeys absent patience rounds
          (record w { ps2 = one_port }) config config w.board.scan_set refl fresh))
