-- ===== src/Ps2/Board/Ready.antt =====
-- `ps2_init` up to the first device, with a controller that has one port.
use drewos.Base.{ℕ, suc, ◌^◌, ◌<◌, ◌≡◌, refl, ap, ◌∙◌, ◌==◌, true, false, [], codes}
use drewos.Machine.{Platform, Ps2State, K, ◌>>◌}
use drewos.Ps2.{port0, port1, say}
use drewos.Ps2.Init.{bring_up, init_ports, ps2_init, set_device_id, none_works}
use drewos.Ps2.Init.After.{Fresh}
use drewos.Ps2.Board.{absent, switched_off, Board, Obeys, idle}
use drewos.Ps2.Board.Configuration.{disabled, configured}
use drewos.Ps2.Board.Detection.{
  IsQuiet, prepare-Talks, self_test-Talks, restore-Talks, detect_second-Talks,
}
use drewos.Ps2.Board.Ports.{test_ports-Talks, enable_ports-Talks}
use drewos.Ps2.Board.World.{World, with_board, Others-ps2}
use drewos.Ps2.Board.Talks.{
  Reaches, Reaches-here, Talks, Talks-bind, Talks-world, Talks-ps2, Talks-true, Talks-false,
}

-- The first port works, and it is the only one.
abbrev pub one_port : Ps2State
one_port = record {
  port_0_operational = true;
  port_1_operational = false;
  dual_channel = false;
  port0_id = 0;
  port1_id = 0;
}

-- The world in which the devices are brought up.
abbrev pub tested : ℕ → World → World
tested config w =
    with_board
      (idle w.board.populated absent (configured config) (configured config) w.board.scan_set)
      (record w { ps2 = one_port })

-- What `ps2_init` does at its end.
abbrev pub bring_up_both : Platform → ℕ → ℕ → K (Unit {0})
bring_up_both platform patience rounds =
    bring_up platform (suc patience) (suc rounds) port0
    >> bring_up platform (suc patience) (suc rounds) port1

module _ (start : Board) (platform : Platform) (obeys : Obeys start platform.dev)
    (patience rounds : ℕ) where
  pub bring_up_second-Talks :
      (w : World)
      → w.ps2.port_1_operational ≡ false
      → Talks start
          (bring_up platform (suc patience) (suc rounds) port1)
          w
          tt
          (record w { ps2 = record w.ps2 { port1_id = 0 } })
  unfolding bring_up
  bring_up_second-Talks w off = record {
    run = λ m i.
        let off' : m.ps2.port_1_operational ≡ false = ap (λ s. s.port_1_operational) i.ps2 ∙ off in
        (
          record m { ps2 = record m.ps2 { port1_id = 0 } },
          rw off' refl,
          record {
            pic = i.pic;
            interrupts = i.interrupts;
            ps2 = ap (set_device_id port1 0) i.ps2;
            keyboard = i.keyboard;
            board = i.board;
          },
          Others-ps2 m,
        );
  }

  init_ports-Reaches :
      (w : World) (config : ℕ)
      → config < 2 ^ 8
      → Fresh w.ps2
      → (last : ℕ) {wanted : ℕ} → wanted ≡ configured config
      → Reaches start
          (init_ports platform (suc patience) (suc rounds) wanted)
          (with_board (idle w.board.populated absent last (configured config) w.board.scan_set) w)
          (bring_up_both platform patience rounds)
          (tested config w)
  unfolding init_ports
  init_ports-Reaches w config byte clear last e =
      Talks-bind
        (restore-Talks start platform.dev obeys w.board.populated absent config byte refl w last
          w.board.scan_set e)
        λ _ _.
          Talks-bind
            (detect_second-Talks start platform.dev obeys w.board.populated config byte w
              (configured config) w.board.scan_set)
            λ _ _.
              Talks-bind
                (test_ports-Talks start platform.dev obeys w.board.populated absent
                  (record w { ps2 = record w.ps2 { dual_channel = false } }) (configured config)
                  (configured config) w.board.scan_set refl)
                λ _ _.
                  Talks-ps2 (λ s. s)
                    λ s e'.
                      Talks-false
                        (say platform.dev
                          (codes "No PS/2 ports are operational. PS/2 driver will be disabled.") [])
                        (ap none_works e')
                        (Talks-bind
                          (Talks-world (rw (clear.second, clear.no_first, clear.no_second) refl) (
                            enable_ports-Talks start platform.dev obeys w.board.populated config
                              byte
                              (record w {
                                ps2 = record w.ps2 {
                                  dual_channel = false;
                                  port_0_operational = true;
                                };
                              })
                              refl clear.second 0 w.board.scan_set))
                          λ _ _. Reaches-here)

  pub ps2_init-Reaches :
      (w : World)
      → w.board.config < 2 ^ 8
      → IsQuiet w.board
      → w.board.mouse ≡ absent
      → Fresh w.ps2
      → Reaches start
          (ps2_init platform (suc patience) (suc rounds))
          w
          (bring_up_both platform patience rounds)
          (tested w.board.config w)
  unfolding ps2_init
  ps2_init-Reaches w byte rests single clear =
      Talks-bind
        (prepare-Talks start platform.dev obeys w.board.populated absent w.board.config byte refl w
          refl refl (ap switched_off single) rests)
        λ config e.
          Talks-bind
            (self_test-Talks start platform.dev obeys w.board.populated absent w.board.config byte
              refl w (disabled w.board.config) w.board.scan_set)
            λ result e'.
              Talks-true (say platform.dev (codes "Error: PS/2 self-test failed") [])
                (ap (λ r. r == 0x55) e') (init_ports-Reaches w w.board.config byte clear 0x55 e)
