-- ===== src/Ps2/Board/Phantom.antt =====
-- `ps2_init` with nothing at the port of the controller.
use drewos.Base.{ℕ, suc, ◌^◌, ◌<◌, ◌≡◌, refl, ap, ◌∙◌, true, false, not, [], ◌∷◌}
use drewos.Base.{arith, codes}
use drewos.Machine.{Platform, Machine}
use drewos.Machine.Ends.{Ends}
use drewos.Machine.Quiet.{Quietly-println}
use drewos.Print.{int}
use drewos.Print.Format.{render, expand}
use drewos.Ps2.{port0}
use drewos.Ps2.Resend.{port_code-lt}
use drewos.Ps2.Identity.{get_device_type}
use drewos.Ps2.Init.{
  on_ps2, ps2_init_device, bring_up, ps2_init, operational, set_device_id, is_unknown,
}
use drewos.Ps2.Init.After.{Fresh}
use drewos.Ps2.Board.{absent, Board, Obeys, after_trace, idle}
use drewos.Ps2.Board.Configuration
use drewos.Ps2.Board.Configuration.{configured}
use drewos.Ps2.Board.Detection.{IsQuiet}
use drewos.Ps2.Board.Ready.{one_port, ps2_init-Reaches, bring_up_second-Talks}
use drewos.Ps2.Board.Mouse.{doubled, doubled-is_unknown}
use drewos.Ps2.Board.Absent.{IsNoise, reset_port-Talks}
use drewos.Ps2.Board.World.{World, with_board, world, In-world, world-In, Others}
use drewos.Ps2.Board.Talks.{
  Reaches-trans, Talks, Talks-bind, Talks-world, Talks-ps2, Talks-on_ps2, Talks-screen, Talks-true,
}

configured-IsNoise : (config : ℕ) → config < 2 ^ 8 → IsNoise (configured config)
configured-IsNoise config byte = record {
  fits = let e = Configuration.configured_byte config byte in omega (arith, e);
  no_ack = Configuration.no_ack config byte;
  no_resend = Configuration.no_resend config byte;
  no_fail = Configuration.no_fail config byte;
  no_zero = Configuration.no_zero config byte;
}

-- The world behind `ps2_init`: the configuration has been taken for a device.
abbrev pub phantom : World → World
phantom w =
    let config : ℕ = configured w.board.config in
    record w {
      ps2 = record one_port { port0_id = doubled config };
      board = idle false absent config config w.board.scan_set;
    }

module _ (start : Board) (platform : Platform) (obeys : Obeys start platform.dev) (byte : ℕ)
    (noise : IsNoise byte) (patience rounds : ℕ) where
  unknown : is_unknown (get_device_type (doubled byte)) ≡ true
  unknown = doubled-is_unknown byte noise.fits ∙ ap not noise.no_zero

  init_device-Talks :
      {device_id : ℕ} (w : World)
      → device_id ≡ doubled byte
      → w.ps2.port0_id ≡ doubled byte
      → Talks start (ps2_init_device platform (suc patience) (suc rounds) device_id port0) w tt w
  unfolding ps2_init_device
  init_device-Talks w e same =
      let fits = noise.fits in
      Talks-true _ (ap (λ i. is_unknown (get_device_type i)) e ∙ unknown) (
        Talks-ps2 (λ s. s.port0_id)
          λ id e'. Talks-screen _ (
            Quietly-println
              (codes "Failed to initialise ps2 device in port %d: Unknown device (ID: %x)")
              (int 0 ∷ int id ∷ []) (port_code-lt port0, (omega (arith, e', same, fits), tt))
              (unfold render expand in tt)))

  bring_up_first-Talks :
      (config scan_set : ℕ) (w : World)
      → w.ps2.port_0_operational ≡ true
      → Talks start
          (bring_up platform (suc patience) (suc rounds) port0)
          (with_board (idle false absent byte config scan_set) w)
          tt
          (with_board
            (idle false absent byte config scan_set)
            (record w { ps2 = record w.ps2 { port0_id = doubled byte } }))
  unfolding bring_up
  bring_up_first-Talks config scan_set w works =
      Talks-ps2 (λ s. s)
        λ s e. Talks-true (on_ps2 (set_device_id port0 0)) (ap (operational port0) e ∙ works) (
          Talks-bind
            (reset_port-Talks start platform.dev obeys byte noise config scan_set w patience
              s.port0_id)
            λ id e'.
              Talks-bind (Talks-world (rw e' refl) (Talks-on_ps2 (set_device_id port0 id)))
                λ _ _. init_device-Talks _ e' refl)

-- On the hardware of Ps2/Board, a controller with one port, but with nothing at that port, with a
-- byte for its configuration, at most one byte in its output buffer and no argument awaited, and
-- with the variables of the start of the kernel, `ps2_init` returns, if it has at least one round
-- for each command and for the scan code set. It takes the first configuration that it writes,
-- which is the last byte that it has read, for every answer of a device: behind it the first port
-- works and has 257 times that byte for its identity, which is unknown to the driver. No driver is
-- installed; the other variables are as before, and so is the memory outside of the video buffer,
-- if the column was one of the screen.
pub ps2_init-phantom :
    (start : Board) (platform : Platform)
    → Obeys start platform.dev
    → (patience rounds : ℕ) (m : Machine) → (after_trace start m.trace).config < 2 ^ 8
    → IsQuiet (after_trace start m.trace)
    → (after_trace start m.trace).mouse ≡ absent
    → (after_trace start m.trace).populated ≡ false
    → Fresh m.ps2
    → Ends (ps2_init platform (suc patience) (suc rounds)) m (λ _ n.
      (world start n ≡ phantom (world start m))
      × (is_unknown (get_device_type n.ps2.port0_id) ≡ true)
      × Others m n)
ps2_init-phantom start platform obeys patience rounds m byte rests single empty clear =
    let w = world start m in
    let config = configured w.board.config in
    let noise = configured-IsNoise w.board.config byte in
    let through : Talks start (ps2_init platform (suc patience) (suc rounds)) w tt (phantom w) =
      Reaches-trans
        (Talks-world
          (ap
            (λ p.
              with_board (idle p absent config config w.board.scan_set)
                (record w { ps2 = one_port }))
            empty)
          (ps2_init-Reaches start platform obeys patience rounds w byte rests single clear))
        (Talks-bind
          (bring_up_first-Talks start platform obeys config noise patience rounds config
            w.board.scan_set (record w { ps2 = one_port }) refl)
          λ _ _. bring_up_second-Talks start platform obeys patience rounds (phantom w) refl) in
    let (n, e, i, o) = through.run m (In-world start m) in
    record {
      value = tt;
      behind = n;
      returns = e;
      post = (
        world-In i,
        ap (λ s. is_unknown (get_device_type s.port0_id)) i.ps2
            ∙ unknown start platform obeys config noise patience rounds,
        o,
      );
    }
