-- ===== src/Ps2/Board/Ports.antt =====
-- The tests of the ports and their enabling, with a board behind them.
use drewos.Base.{Bool, true, false}
use drewos.Base.{ℕ, ◌^◌, ◌<◌, ◌≡◌, refl, ap, ◌∙◌, ◌==◌, true, false}
use drewos.Machine.{Device, pure}
use drewos.Ps2.{port0, port1, ps2_send_command}
use drewos.Ps2.Config.{set_flag, clock_0, interrupts_config}
use drewos.Ps2.Init.{
  ask_port, report_port, test_port, test_ports, enable_port, enable_ports, operational,
  set_operational,
}
use drewos.Ps2.Board.{SecondPort, absent, Board, Obeys, idle}
use drewos.Ps2.Board.Configuration.{
  configured, configured_byte, first_clock, enabled_already, interrupts_already,
}
use drewos.Ps2.Board.Detection.{read_config-Talks, set_config-Talks}
use drewos.Ps2.Board.World.{World, with_board}
use drewos.Ps2.Board.Talks.{
  Talks, Talks-pure, Talks-bind, Talks-world, Talks-ps2, Talks-on_ps2, Talks-true, Talks-false,
  Talks-then, Talks-else,
}
use drewos.Ps2.Board.Transfers.{send_command-Talks, read_data-Talks}

module _ (start : Board) (dev : Device) (obeys : Obeys start dev) (populated : Bool)
    (mouse : SecondPort) where
  pub test_first-Talks :
      (w : World) (last config scan_set : ℕ)
      → Talks start
          (test_port dev port0)
          (with_board (idle populated mouse last config scan_set) w)
          tt
          (record w {
            ps2 = record w.ps2 { port_0_operational = true };
            board = idle populated mouse 0 config scan_set;
          })
  unfolding test_port ask_port
  test_first-Talks w last config scan_set =
      Talks-bind
        (Talks-bind (send_command-Talks start dev obeys 0xab)
          λ _ _. read_data-Talks start dev obeys)
        λ resp e.
          Talks-bind (Talks-world (rw e refl) (Talks-on_ps2 (set_operational port0 (resp == 0))))
            λ _ _. Talks-true (report_port dev port0 resp) (ap (λ r. r == 0) e) (Talks-pure tt)

  -- The first port works; the second one is not tested.
  pub test_ports-Talks :
      (w : World) (last config scan_set : ℕ)
      → w.ps2.dual_channel ≡ false
      → Talks start
          (test_ports dev)
          (with_board (idle populated mouse last config scan_set) w)
          tt
          (record w {
            ps2 = record w.ps2 { port_0_operational = true };
            board = idle populated mouse 0 config scan_set;
          })
  unfolding test_ports
  test_ports-Talks w last config scan_set single =
      Talks-bind (test_first-Talks w last config scan_set) λ _ _.
        Talks-ps2 (λ s. s.dual_channel)
          λ dual e. Talks-false (test_port dev port1) (e ∙ single) (Talks-pure tt)

  module _ (w : World) (last config scan_set : ℕ) where
    pub enable_first-Talks :
        w.ps2.port_0_operational ≡ true
        → set_flag clock_0 false config ≡ config
        → Talks start
            (enable_port dev port0)
            (with_board (idle populated mouse last config scan_set) w)
            tt
            (with_board (idle populated mouse last config scan_set) w)
    unfolding enable_port
    enable_first-Talks first already =
        Talks-ps2 (λ s. s)
          λ s e. Talks-then (pure tt) (ap (operational port0) e ∙ first) (
            Talks-world (ap (λ c. with_board (idle populated mouse last c scan_set) w) already)
              (send_command-Talks start dev obeys 0xae))

    enable_none-Talks :
        w.ps2.port_1_operational ≡ false
        → Talks start
            (enable_port dev port1)
            (with_board (idle populated mouse last config scan_set) w)
            tt
            (with_board (idle populated mouse last config scan_set) w)
    unfolding enable_port
    enable_none-Talks second =
        Talks-ps2 (λ s. s)
          λ s e.
            Talks-else (ps2_send_command dev 0xa8) (ap (operational port1) e ∙ second)
              (Talks-pure tt)

-- The first port was enabled before, and there is no second one.
pub enable_ports-Talks :
    (start : Board) (dev : Device)
    → Obeys start dev
    → (populated : Bool) (config : ℕ) → config < 2 ^ 8
    → (w : World) → w.ps2.port_0_operational ≡ true
    → w.ps2.port_1_operational ≡ false
    → (last scan_set : ℕ)
    → Talks start
        (enable_ports dev)
        (with_board (idle populated absent last (configured config) scan_set) w)
        tt
        (with_board (idle populated absent (configured config) (configured config) scan_set) w)
unfolding enable_ports
enable_ports-Talks start dev obeys populated config byte w first second last scan_set =
    Talks-bind
      (enable_first-Talks start dev obeys populated absent w last (configured config) scan_set first
        (enabled_already config byte))
      λ _ _.
        Talks-bind
          (enable_none-Talks start dev obeys populated absent w last (configured config) scan_set
            second)
          λ _ _.
            Talks-bind
              (read_config-Talks start dev obeys populated absent config byte refl w last scan_set)
              λ found e.
                Talks-ps2 (λ s. s)
                  λ s e'.
                    let sent : interrupts_config s.port_0_operational s.port_1_operational found
                        ≡ configured config =
                      rw (e, e', first, second) (interrupts_already config byte) in
                    set_config-Talks start dev obeys populated absent w (configured config)
                      (configured config) scan_set true (configured config) sent
                      (configured_byte config byte) (first_clock config byte) refl
