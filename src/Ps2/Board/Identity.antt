-- ===== src/Ps2/Board/Identity.antt =====
-- `reset_port` finds out the identity of the keyboard.
use drewos.Base.{true}
use drewos.Base.{ℕ, suc, ◌≡◌, refl, ap, [], ◌∷◌, ◌==◌}
use drewos.Machine.{Device}
use drewos.Ps2.{port0, select_port}
use drewos.Ps2.Reset.{
  report_reset, response_id, identify_reply, identify, reset_port, unpopulated, reset_failed,
}
use drewos.Ps2.Board.{SecondPort, Board, Obeys, idle}
use drewos.Ps2.Board.World.{World, with_board}
use drewos.Ps2.Board.Talks.{Talks, Talks-pure, Talks-bind, Talks-value, Talks-else}
use drewos.Ps2.Board.Transfers.{send_data-Talks, expect-Talks, device_command-Talks}

module _ (start : Board) (dev : Device) (obeys : Obeys start dev) (mouse : SecondPort)
    (w : World) where
  report_reset-Talks :
      {v : World} {resp0 resp1 : ℕ}
      → resp0 ≡ 0xfa
      → resp1 ≡ 0xaa
      → Talks start (report_reset dev port0 resp0 resp1) v tt v
  unfolding report_reset
  report_reset-Talks e0 e1 = rw (e0, e1) (Talks-pure tt)

  response_id-Talks :
      {v : World} {resp2 : ℕ} → resp2 ≡ 0xaa → Talks start (response_id dev resp2) v 0xaa v
  unfolding response_id
  response_id-Talks e = rw e (Talks-pure 0xaa)

  identify_reply-Talks :
      (before last config scan_set : ℕ)
      → Talks start
          (identify_reply dev before)
          (with_board
            (record (idle true mouse last config scan_set) { output = 0xab ∷ 0x83 ∷ [] })
            w)
          0xab83
          (with_board (idle true mouse 0x83 config scan_set) w)
  unfolding identify_reply
  identify_reply-Talks before last config scan_set =
      expect-Talks start dev obeys _
        λ first e. expect-Talks start dev obeys _ λ second e'. rw (e, e') (Talks-pure 0xab83)

  -- Behind the reset there are only two bytes: the third byte of the response is the second one again.
  identify-Talks :
      (patience last config scan_set : ℕ) {resp0 resp1 resp2 : ℕ}
      → resp0 ≡ 0xfa
      → resp1 ≡ 0xaa
      → resp2 ≡ 0xaa
      → Talks start
          (identify dev (suc patience) port0 resp0 resp1 resp2)
          (with_board (idle true mouse last config scan_set) w)
          0xab83
          (with_board (idle true mouse 0xfa config scan_set) w)
  unfolding identify
  identify-Talks patience last config scan_set e0 e1 e2 =
      Talks-bind (report_reset-Talks e0 e1) λ _ _. Talks-bind (response_id-Talks e2) λ before _.
        Talks-bind (device_command-Talks start dev obeys patience 0xf5 refl) λ _ _.
          Talks-bind (device_command-Talks start dev obeys patience 0xf2 refl) λ _ _.
            Talks-bind (identify_reply-Talks before 0xfa config scan_set) λ id e.
              Talks-bind (device_command-Talks start dev obeys patience 0xf4 refl)
                λ _ _. Talks-value e (Talks-pure id)

  pub reset_port-Talks :
      (patience device_id last config scan_set : ℕ)
      → Talks start
          (reset_port dev (suc patience) device_id port0)
          (with_board (idle true mouse last config scan_set) w)
          0xab83
          (with_board (idle true mouse 0xfa config 2) w)
  unfolding reset_port select_port
  reset_port-Talks patience device_id last config scan_set =
      Talks-bind (Talks-pure {w = with_board (idle true mouse last config scan_set) w} tt) λ _ _.
        Talks-bind (send_data-Talks start dev obeys 0xff) λ _ _.
          expect-Talks start dev obeys (unpopulated dev port0) λ resp0 e0.
            expect-Talks start dev obeys (unpopulated dev port0) λ resp1 e1.
              expect-Talks start dev obeys (unpopulated dev port0) λ resp2 e2.
                Talks-else (reset_failed dev device_id port0) (ap (λ r. r == 0xfc) e0)
                  (identify-Talks patience 0xaa config 2 e0 e1 e2)
