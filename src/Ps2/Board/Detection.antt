-- ===== src/Ps2/Board/Detection.antt =====
-- The steps of `ps2_init` that talk to the controller, with a board behind the ports.
use drewos.Base.{ℕ, ◌^◌, ◌<◌, ◌≡◌, refl, ap, ◌∙◌, Bool, true, false, not, [], u8, arith}
use drewos.Machine.{Device}
use drewos.Ps2.Config.{get_flag, clock_0, clock_1, ps2_get_config, ps2_set_config, initial_config}
use drewos.Ps2.Init.{prepare, self_test, restore, try_second, disable_second, detect_second}
use drewos.Ps2.Board.{
  SecondPort, absent, clocked, switched_off, Board, Obeys, for_keyboard, taken, shown, idle,
}
use drewos.Ps2.Board.Configuration.{
  disabled, configured, disabled_byte, configured_byte, no_second_clock, first_clock,
}
use drewos.Ps2.Board.World.{World, with_board}
use drewos.Ps2.Board.Talks.{
  Talks, Talks-pure, Talks-bind, Talks-value, Talks-world, Talks-on_ps2, Talks-true, Talks-then,
}
use drewos.Ps2.Board.Transfers.{
  send_command-Talks, send_data-Talks, read_data-Talks, read_data_port-Talks,
}

-- At most one byte is left in the output buffer, and no argument is waited for.
pub record IsQuiet (b : Board) : Type 0 where
  pub flushable : (taken b).output ≡ []
  pub no_argument : b.awaits ≡ for_keyboard

module _ (start : Board) (dev : Device) (obeys : Obeys start dev) (populated : Bool)
    (mouse : SecondPort) where
  pub get_config-Talks :
      (w : World) (last config scan_set : ℕ) (enabled : Bool)
      → u8 config ≡ config
      → Talks start
          (ps2_get_config dev)
          (with_board (record (idle populated mouse last config scan_set) { enabled = enabled }) w)
          config
          (with_board
            (record (idle populated mouse config config scan_set) { enabled = enabled })
            w)
  unfolding ps2_get_config
  get_config-Talks w last config scan_set enabled byte =
      Talks-value byte (
        Talks-bind (send_command-Talks start dev obeys 0x20) λ _ _. read_data-Talks start dev obeys)

  -- A configuration with a clock at the first port becomes the board's.
  pub set_config-Talks :
      (w : World) (last before scan_set : ℕ) (enabled : Bool) (config : ℕ) {sent : ℕ}
      {next : SecondPort}
      → sent ≡ config
      → u8 config ≡ config
      → not (get_flag clock_0 config) ≡ true
      → clocked (not (get_flag clock_1 config)) mouse ≡ next
      → Talks start
          (ps2_set_config dev sent)
          (with_board (record (idle populated mouse last before scan_set) { enabled = enabled }) w)
          tt
          (with_board (idle populated next last config scan_set) w)
  unfolding ps2_set_config
  set_config-Talks w last before scan_set enabled config e byte clock second = rw e (
      Talks-world (rw (byte, clock, second) refl) (
        Talks-bind (send_command-Talks start dev obeys 0x60)
          λ _ _. send_data-Talks start dev obeys config))

  module _ (config : ℕ) (byte : config < 2 ^ 8) (still : clocked false mouse ≡ mouse) where
    still_off : clocked (not (get_flag clock_1 (configured config))) mouse ≡ mouse
    still_off = ap (λ f. clocked (not f) mouse) (no_second_clock config byte) ∙ still

    -- Both ports are disabled, and a byte that is left over is thrown away.
    pub prepare-Talks :
        (w : World)
        → w.board.config ≡ config
        → w.board.populated ≡ populated
        → switched_off w.board.mouse ≡ mouse
        → IsQuiet w.board
        → Talks start (prepare dev) w (configured config) (
            with_board
              (idle populated mouse (disabled config) (configured config) w.board.scan_set)
              w)
    unfolding prepare
    prepare-Talks w same there without quiet =
        Talks-bind (send_command-Talks start dev obeys 0xad) λ _ _.
          Talks-bind (send_command-Talks start dev obeys 0xa7) λ _ _.
            Talks-bind
              (Talks-world
                {w = with_board
                  (record (idle populated mouse (shown w.board) (disabled config)
                    w.board.scan_set) { enabled = false })
                  w}
                (rw (quiet.flushable, quiet.no_argument, same, there, without) refl)
                (read_data_port-Talks start dev obeys))
              λ _ _.
                Talks-bind
                  (get_config-Talks w (shown w.board) (disabled config) w.board.scan_set false
                    (disabled_byte config byte))
                  λ read e.
                    Talks-bind
                      (set_config-Talks w (disabled config) (disabled config) w.board.scan_set false
                        (configured config) (ap initial_config e) (configured_byte config byte)
                        (first_clock config byte) still_off)
                      λ _ _. Talks-value (ap initial_config e) (Talks-pure (initial_config read))

    -- The self-test leaves the configuration as it is, so that nothing is to be restored.
    pub self_test-Talks :
        (w : World) (last scan_set : ℕ)
        → Talks start
            (self_test dev)
            (with_board (idle populated mouse last (configured config) scan_set) w)
            0x55
            (with_board (idle populated mouse 0x55 (configured config) scan_set) w)
    unfolding self_test
    self_test-Talks w last scan_set =
        Talks-bind (send_command-Talks start dev obeys 0xaa) λ _ _. read_data-Talks start dev obeys

    pub read_config-Talks :
        (w : World) (last scan_set : ℕ)
        → Talks start
            (ps2_get_config dev)
            (with_board (idle populated mouse last (configured config) scan_set) w)
            (configured config)
            (with_board (idle populated mouse (configured config) (configured config) scan_set) w)
    read_config-Talks w last scan_set =
        get_config-Talks w last (configured config) scan_set true (configured_byte config byte)

    pub restore-Talks :
        (w : World) (last scan_set : ℕ) {wanted : ℕ}
        → wanted ≡ configured config
        → Talks start
            (restore dev wanted)
            (with_board (idle populated mouse last (configured config) scan_set) w)
            tt
            (with_board (idle populated mouse (configured config) (configured config) scan_set) w)
    unfolding restore
    restore-Talks w last scan_set {wanted} e =
        Talks-bind (read_config-Talks w last scan_set)
          λ found e'. Talks-then (ps2_set_config dev wanted) (ground (arith, e, e')) (Talks-pure tt)

-- There is no second port.
pub detect_second-Talks :
    (start : Board) (dev : Device)
    → Obeys start dev
    → (populated : Bool) (config : ℕ) → config < 2 ^ 8
    → (w : World) (last scan_set : ℕ)
    → Talks start
        (detect_second dev)
        (with_board (idle populated absent last (configured config) scan_set) w)
        tt
        (record w {
          ps2 = record w.ps2 { dual_channel = false };
          board = idle populated absent (configured config) (configured config) scan_set;
        })
unfolding detect_second try_second
detect_second-Talks start dev obeys populated config byte w last scan_set =
    Talks-bind
      (Talks-bind (send_command-Talks start dev obeys 0xa8)
        λ _ _. read_config-Talks start dev obeys populated absent config byte refl w last scan_set)
      λ found e.
        let single : get_flag clock_1 found ≡ true =
          ap (get_flag clock_1) e ∙ no_second_clock config byte in
        Talks-bind
          (Talks-world (rw single refl)
            (Talks-on_ps2 (λ s. record s { dual_channel = not (get_flag clock_1 found) })))
          λ _ _. Talks-true (disable_second dev found) single (Talks-pure tt)
