-- ===== src/Ps2/Board/Second.antt =====
-- The steps of `ps2_init` about the ports, with a second port at the controller.
use drewos.Base.{ℕ, ◌^◌, ◌<◌, ◌≡◌, refl, ap, ◌∙◌, ◌==◌, Bool, true, false, not}
use drewos.Machine.{Device, pure}
use drewos.Ps2.{port1}
use drewos.Ps2.Config.{get_flag, clock_1, second_port_config, interrupts_config}
use drewos.Ps2.Init.{
  ask_port, report_port, test_port, test_ports, enable_port, enable_ports, operational,
  set_operational, detect_second, try_second, disable_second,
}
use drewos.Ps2.Board.{off, on, clocked, Board, Obeys, idle}
use drewos.Ps2.Board.Configuration.{
  configured, opened, dual, both_on, opened_byte, second_clock, dual_byte, dual_first, dual_second,
  dual_first_already, dual_second_already, both_on_byte, both_on_first, both_on_second,
}
use drewos.Ps2.Board.Detection.{get_config-Talks, set_config-Talks}
use drewos.Ps2.Board.Ports.{test_first-Talks, enable_first-Talks}
use drewos.Ps2.Board.World.{World, with_board}
use drewos.Ps2.Board.Talks.{
  Talks, Talks-pure, Talks-bind, Talks-world, Talks-ps2, Talks-on_ps2, Talks-true, Talks-false,
  Talks-then,
}
use drewos.Ps2.Board.Transfers.{send_command-Talks, read_data-Talks}

module _ (start : Board) (dev : Device) (obeys : Obeys start dev) (populated : Bool) (config : ℕ)
    (byte : config < 2 ^ 8) where
  disable_second-Talks :
      (w : World) (last before scan_set : ℕ) {found : ℕ}
      → found ≡ opened config
      → Talks start
          (disable_second dev found)
          (with_board (idle populated on last before scan_set) w)
          tt
          (with_board (idle populated on last (dual config) scan_set) w)
  unfolding disable_second
  disable_second-Talks w last before scan_set e =
      Talks-bind (send_command-Talks start dev obeys 0xa7) λ _ _.
        set_config-Talks start dev obeys populated off w last _ scan_set true (dual config)
          (ap second_port_config e) (dual_byte config byte) (dual_first config byte)
          (ap (λ c. clocked c off) (dual_second config byte))

  -- The second port is found. Behind its detection its clock is on, though it was disabled again.
  pub detect_second-Talks :
      (w : World) (last scan_set : ℕ)
      → Talks start
          (detect_second dev)
          (with_board (idle populated off last (configured config) scan_set) w)
          tt
          (record w {
            ps2 = record w.ps2 { dual_channel = true };
            board = idle populated on (opened config) (dual config) scan_set;
          })
  unfolding detect_second try_second
  detect_second-Talks w last scan_set =
      Talks-bind
        (Talks-bind (send_command-Talks start dev obeys 0xa8) λ _ _.
          get_config-Talks start dev obeys populated on w last (opened config) scan_set true
            (opened_byte config byte))
        λ found e.
          let second : get_flag clock_1 found ≡ false =
            ap (get_flag clock_1) e ∙ second_clock config byte in
          Talks-bind
            (Talks-world (rw second refl)
              (Talks-on_ps2 (λ s. record s { dual_channel = not (get_flag clock_1 found) })))
            λ _ _. Talks-false (pure tt) second (
              disable_second-Talks (record w { ps2 = record w.ps2 { dual_channel = true } })
                (opened config) (opened config) scan_set e)

  test_second-Talks :
      (w : World) (last now scan_set : ℕ)
      → Talks start
          (test_port dev port1)
          (with_board (idle populated on last now scan_set) w)
          tt
          (record w {
            ps2 = record w.ps2 { port_1_operational = true };
            board = idle populated on 0 now scan_set;
          })
  unfolding test_port ask_port
  test_second-Talks w last now scan_set =
      Talks-bind
        (Talks-bind (send_command-Talks start dev obeys 0xa9)
          λ _ _. read_data-Talks start dev obeys)
        λ resp e.
          Talks-bind (Talks-world (rw e refl) (Talks-on_ps2 (set_operational port1 (resp == 0))))
            λ _ _. Talks-true (report_port dev port1 resp) (ap (λ r. r == 0) e) (Talks-pure tt)

  -- Both ports work.
  pub test_both-Talks :
      (w : World) (last now scan_set : ℕ)
      → w.ps2.dual_channel ≡ true
      → Talks start
          (test_ports dev)
          (with_board (idle populated on last now scan_set) w)
          tt
          (record w {
            ps2 = record w.ps2 { port_0_operational = true; port_1_operational = true };
            board = idle populated on 0 now scan_set;
          })
  unfolding test_ports
  test_both-Talks w last now scan_set both =
      Talks-bind (test_first-Talks start dev obeys populated on w last now scan_set) λ _ _.
        Talks-ps2 (λ s. s.dual_channel)
          λ found e. Talks-true (pure tt) (e ∙ both) (
            test_second-Talks (record w { ps2 = record w.ps2 { port_0_operational = true } }) 0 now
              scan_set)

  enable_second-Talks :
      (w : World) (last scan_set : ℕ)
      → w.ps2.port_1_operational ≡ true
      → Talks start
          (enable_port dev port1)
          (with_board (idle populated on last (dual config) scan_set) w)
          tt
          (with_board (idle populated on last (dual config) scan_set) w)
  unfolding enable_port
  enable_second-Talks w last scan_set second =
      Talks-ps2 (λ s. s)
        λ s e. Talks-then (pure tt) (ap (operational port1) e ∙ second) (
          Talks-world
            (ap (λ c. with_board (idle populated on last c scan_set) w)
              (dual_second_already config byte))
            (send_command-Talks start dev obeys 0xa8))

  -- Both ports get their interrupts.
  pub enable_both-Talks :
      (w : World) (last scan_set : ℕ)
      → w.ps2.port_0_operational ≡ true
      → w.ps2.port_1_operational ≡ true
      → Talks start
          (enable_ports dev)
          (with_board (idle populated on last (dual config) scan_set) w)
          tt
          (with_board (idle populated on (dual config) (both_on config) scan_set) w)
  unfolding enable_ports
  enable_both-Talks w last scan_set first second =
      Talks-bind
        (enable_first-Talks start dev obeys populated on w last (dual config) scan_set first
          (dual_first_already config byte))
        λ _ _. Talks-bind (enable_second-Talks w last scan_set second) λ _ _.
          Talks-bind
            (get_config-Talks start dev obeys populated on w last (dual config) scan_set true
              (dual_byte config byte))
            λ found e.
              Talks-ps2 (λ s. s)
                λ s e'.
                  let sent : interrupts_config s.port_0_operational s.port_1_operational found
                      ≡ both_on config =
                    rw (e, e', first, second) refl in
                  set_config-Talks start dev obeys populated on w (dual config) (dual config)
                    scan_set true (both_on config) sent (both_on_byte config byte)
                    (both_on_first config byte)
                    (ap (λ c. clocked c on) (both_on_second config byte))
