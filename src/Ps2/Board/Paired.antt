-- ===== src/Ps2/Board/Paired.antt =====
-- `ps2_init` with a keyboard and a mouse.
use drewos.Base.{ℕ, suc, ◌^◌, ◌<◌, ◌≡◌, ◌≢◌, refl, ap, ◌==◌, true, not, [], codes}
use mathlib.Core.Path.{subst}
use drewos.Machine.{Platform, Machine, Ps2State, K, ◌>>◌}
use drewos.Machine.Ends.{Ends}
use drewos.Machine.Quiet.{Quietly-println}
use drewos.Print.Format.{render, expand}
use drewos.Ps2.{say, port1}
use drewos.Ps2.Init.{bring_up, init_ports, ps2_init, none_works}
use drewos.Ps2.Init.After.{Fresh}
use drewos.Ps2.Board.{SecondPort, absent, off, on, switched_off, Board, Obeys, after_trace, idle}
use drewos.Ps2.Board.Configuration.{
  disabled, configured, opened, dual, both_on, both_on_interrupts, both_on_first, both_on_second,
}
use drewos.Ps2.Config.{get_flag, port_0_interrupt, port_1_interrupt, clock_0, clock_1}
use drewos.Ps2.Board.Detection.{IsQuiet, prepare-Talks, self_test-Talks, restore-Talks}
use drewos.Ps2.Board.Second.{detect_second-Talks, test_both-Talks, enable_both-Talks}
use drewos.Ps2.Board.Ready.{bring_up_both}
use drewos.Ps2.Board.Bring.{after_first, bring_up_first-Reaches}
use drewos.Ps2.Board.Pair.{bring_up_mouse-Talks}
use drewos.Ps2.Board.Driver.{with_driver, left_waiting}
use drewos.Ps2.Board.World.{World, In, with_board, world, In-world, world-In, Others}
use drewos.Ps2.Board.Talks.{
  Reaches, Reaches-here, Reaches-in, Reaches-trans, Talks, Talks-bind, Talks-world, Talks-ps2,
  Talks-screen, Talks-true, Talks-false,
}

-- Both ports work; the first has a device with this identity.
abbrev two_ports : ℕ → Ps2State
two_ports id = record {
  port_0_operational = true;
  port_1_operational = true;
  dual_channel = true;
  port0_id = id;
  port1_id = 0;
}

-- The world in which the devices are brought up.
abbrev both_tested : ℕ → World → World
both_tested config w =
    with_board (idle w.board.populated on (dual config) (both_on config) w.board.scan_set)
      (record w { ps2 = two_ports 0 })

-- The world behind `ps2_init`.
abbrev pub paired : Platform → World → World
paired platform w =
    with_board (left_waiting on (both_on w.board.config))
      (with_driver platform (record w { ps2 = two_ports 0xab83 }))

module _ (start : Board) (platform : Platform) (obeys : Obeys start platform.dev)
    (patience rounds : ℕ) where
  init_both-Reaches :
      (w : World) (config : ℕ)
      → config < 2 ^ 8
      → Fresh w.ps2
      → (last : ℕ) {wanted : ℕ} → wanted ≡ configured config
      → Reaches start
          (init_ports platform (suc patience) (suc rounds) wanted)
          (with_board (idle w.board.populated off last (configured config) w.board.scan_set) w)
          (bring_up_both platform patience rounds)
          (both_tested config w)
  unfolding init_ports
  init_both-Reaches w config byte clear last e =
      Talks-bind
        (restore-Talks start platform.dev obeys w.board.populated off config byte refl w last
          w.board.scan_set e)
        λ _ _.
          Talks-bind
            (detect_second-Talks start platform.dev obeys w.board.populated config byte w
              (configured config) w.board.scan_set)
            λ _ _.
              Talks-bind
                (test_both-Talks start platform.dev obeys w.board.populated config byte
                  (record w { ps2 = record w.ps2 { dual_channel = true } }) (opened config)
                  (dual config) w.board.scan_set refl)
                λ _ _.
                  Talks-ps2 (λ s. s)
                    λ s e'.
                      Talks-false
                        (say platform.dev
                          (codes "No PS/2 ports are operational. PS/2 driver will be disabled.") [])
                        (ap none_works e')
                        (Talks-bind
                          (Talks-world (rw (clear.no_first, clear.no_second) refl) (
                            enable_both-Talks start platform.dev obeys w.board.populated config byte
                              (record w {
                                ps2 = record w.ps2 {
                                  dual_channel = true;
                                  port_0_operational = true;
                                  port_1_operational = true;
                                };
                              })
                              0 w.board.scan_set refl refl))
                          λ _ _. Reaches-here)

  ps2_init-bring_up_both :
      (w : World)
      → w.board.config < 2 ^ 8
      → IsQuiet w.board
      → switched_off w.board.mouse ≡ off
      → Fresh w.ps2
      → Reaches start
          (ps2_init platform (suc patience) (suc rounds))
          w
          (bring_up_both platform patience rounds)
          (both_tested w.board.config w)
  unfolding ps2_init
  ps2_init-bring_up_both w byte rests second clear =
      Talks-bind
        (prepare-Talks start platform.dev obeys w.board.populated off w.board.config byte refl w
          refl refl second rests)
        λ config e.
          Talks-bind
            (self_test-Talks start platform.dev obeys w.board.populated off w.board.config byte refl
              w (disabled w.board.config) w.board.scan_set)
            λ result e'.
              Talks-true (say platform.dev (codes "Error: PS/2 self-test failed") [])
                (ap (λ r. r == 0x55) e') (init_both-Reaches w w.board.config byte clear 0x55 e)

-- The configuration has the interrupts and the clocks of both ports.
pub record IsOn (config : ℕ) : Type 0 where
  pub first_interrupt : get_flag port_0_interrupt config ≡ true
  pub second_interrupt : get_flag port_1_interrupt config ≡ true
  pub first_clock : not (get_flag clock_0 config) ≡ true
  pub second_clock : not (get_flag clock_1 config) ≡ true

both_on-IsOn : (config : ℕ) → config < 2 ^ 8 → IsOn (both_on config)
both_on-IsOn config byte =
    let interrupts = both_on_interrupts config byte in
    record {
      first_interrupt = interrupts.0;
      second_interrupt = interrupts.1;
      first_clock = both_on_first config byte;
      second_clock = both_on_second config byte;
    }

present : (second : SecondPort) → second ≢ absent → switched_off second ≡ off
present absent h = absurd (h refl)
present off h = refl
present on h = refl

-- What `ps2_init` does behind the interrupt.
abbrev pub behind_interrupt : Platform → ℕ → ℕ → K (Unit {0})
behind_interrupt platform patience rounds =
    say platform.dev (codes "Successfully triggered interrupt 0x21!") []
    >> bring_up platform (suc patience) (suc rounds) port1

pub ps2_init-interrupted :
    (start : Board) (platform : Platform)
    → Obeys start platform.dev
    → (patience rounds : ℕ) (w : World) → w.board.config < 2 ^ 8
    → IsQuiet w.board
    → w.board.mouse ≢ absent
    → w.board.populated ≡ true
    → Fresh w.ps2
    → w.keyboard.vector ≡ 0
    → Reaches start
        (ps2_init platform (suc patience) (suc rounds))
        w
        (after_first platform patience rounds)
        (paired platform w)
ps2_init-interrupted start platform obeys patience rounds w byte rests second there clear fresh =
    let config = w.board.config in
    Reaches-trans
      (Talks-world
        (ap
          (λ p.
            with_board (idle p on (dual config) (both_on config) w.board.scan_set)
              (record w { ps2 = two_ports 0 }))
          there)
        (ps2_init-bring_up_both start platform obeys patience rounds w byte rests
          (present w.board.mouse second) clear))
      (Reaches-in _ (
        bring_up_first-Reaches start platform obeys on patience rounds
          (record w { ps2 = two_ports 0 }) (dual config) (both_on config) w.board.scan_set refl
          fresh))

behind_interrupt-Talks :
    (start : Board) (platform : Platform)
    → Obeys start platform.dev
    → (patience rounds : ℕ) (w : World)
    → Talks start
        (behind_interrupt platform patience rounds)
        (paired platform w)
        tt
        (paired platform w)
behind_interrupt-Talks start platform obeys patience rounds w =
    Talks-bind
      (Talks-screen _ (
        Quietly-println (codes "Successfully triggered interrupt 0x21!") [] tt
          (unfold render expand in tt)))
      λ _ _.
        bring_up_mouse-Talks start platform obeys patience rounds (both_on w.board.config)
          (with_driver platform (record w { ps2 = two_ports 0xab83 })) refl

-- On the hardware of Ps2/Board, a controller with two ports, a keyboard at the first that nobody
-- types on and a mouse at the second that nobody moves, with a byte for its configuration, at most
-- one byte in its output buffer and no argument awaited, with the variables of the start of the
-- kernel, and with at least one round for each command and for the scan code set, `ps2_init` comes
-- to the interrupt 0x21 that the keyboard driver triggers, with the message behind it and the second
-- port still to do. There both ports work, the first one has the identity 0xab83, and the keyboard
-- driver is installed for it at the vector of line 1; the configuration has the clocks and the
-- interrupts of both ports; the keyboard sends scan code set 1, and it still waits for an argument of
-- the command 0xf0; the other variables are as before, and so is the memory outside of the video
-- buffer, if the column was one of the screen. From every machine with these variables and this
-- hardware, what `ps2_init` still has to do behind the interrupt returns, and leaves all of it as it
-- is: the mouse at the second port has the identity 0.
pub ps2_init-paired :
    (start : Board) (platform : Platform)
    → Obeys start platform.dev
    → (patience rounds : ℕ) (m k : Machine) → (after_trace start m.trace).config < 2 ^ 8
    → IsQuiet (after_trace start m.trace)
    → (after_trace start m.trace).mouse ≢ absent
    → (after_trace start m.trace).populated ≡ true
    → Fresh m.ps2
    → m.keyboard.vector ≡ 0
    → world start k ≡ paired platform (world start m)
    → ((n : Machine) × (ps2_init platform (suc patience) (suc rounds) m
          ≡ after_first platform patience rounds n)
        × (world start n ≡ paired platform (world start m))
        × Others m n)
      × IsOn (both_on (after_trace start m.trace).config)
      × Ends
          (behind_interrupt platform patience rounds)
          k
          (λ _ l. (world start l ≡ paired platform (world start m)) × Others k l)
ps2_init-paired start platform obeys patience rounds m k byte rests second there clear fresh same =
    let (n, e, i, o) =
      (ps2_init-interrupted start platform obeys patience rounds (world start m) byte rests second
          there clear fresh).run
        m (In-world start m) in
    let (l, e', i', o') =
      (behind_interrupt-Talks start platform obeys patience rounds (world start m)).run k
        (subst (λ w. In start w k) same (In-world start k)) in
    (
      (n, e, world-In i, o),
      both_on-IsOn (world start m).board.config byte,
      record { value = tt; behind = l; returns = e'; post = (world-In i', o') },
    )
