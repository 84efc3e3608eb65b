-- ===== src/Ps2/Board/Pair.antt =====
-- The mouse at the second port, behind the keyboard at the first one.
use drewos.Base.{ℕ, suc, ◌≡◌, refl, ap, ◌∙◌, ◌==◌, true, List, [], ◌∷◌, codes}
use drewos.Machine.{Device, Platform}
use drewos.Machine.Quiet.{Quietly-println}
use drewos.Print.{int, str}
use drewos.Print.Format.{render, expand}
use drewos.Ps2.{port1, select_port}
use drewos.Ps2.Resend.{port_code-lt}
use drewos.Ps2.Identity.{get_device_kind, get_device_type, get_device_type_str}
use drewos.Ps2.Reset.{
  report_reset, response_id, identify_reply, identify, reset_port, unpopulated, reset_failed,
}
use drewos.Ps2.Init.{on_ps2, start_driver, ps2_init_device, bring_up, operational, set_device_id}
use drewos.Ps2.Board.{on, Board, Obeys}
use drewos.Ps2.Board.Driver.{left_waiting}
use drewos.Ps2.Board.World.{World, with_board}
use drewos.Ps2.Board.Talks.{
  Talks, Talks-pure, Talks-bind, Talks-value, Talks-world, Talks-ps2, Talks-on_ps2, Talks-screen,
  Talks-true, Talks-else,
}
use drewos.Ps2.Board.Transfers.{
  send_command-Talks, send_data-Talks, expect-Talks, second_command-Talks,
}

module _ (start : Board) (dev : Device) (obeys : Obeys start dev) (w : World) (config : ℕ) where
  -- With these bytes in the output buffer, and the last one that was read.
  abbrev holding : List ℕ → ℕ → World
  holding bytes last =
      with_board (record (left_waiting on config) { output = bytes; last = last }) w

  report_reset-Talks :
      {v : World} {resp0 resp1 : ℕ}
      → resp0 ≡ 0xfa
      → resp1 ≡ 0xaa
      → Talks start (report_reset dev port1 resp0 resp1) v tt v
  unfolding report_reset
  report_reset-Talks e0 e1 = rw (e0, e1) (Talks-pure tt)

  response_id-Talks :
      {v : World} {resp2 : ℕ} → resp2 ≡ 0 → Talks start (response_id dev resp2) v 0 v
  unfolding response_id
  response_id-Talks e = rw e (Talks-pure 0)

  -- The identity is one byte, which is read twice.
  identify_reply-Talks :
      (before last : ℕ)
      → Talks start (identify_reply dev before) (holding (0 ∷ []) last) 0 (holding [] 0)
  unfolding identify_reply
  identify_reply-Talks before last =
      expect-Talks start dev obeys _
        λ first e. expect-Talks start dev obeys _ λ second e'. rw (e, e') (Talks-pure 0)

  identify-Talks :
      (patience : ℕ) {resp0 resp1 resp2 : ℕ}
      → resp0 ≡ 0xfa
      → resp1 ≡ 0xaa
      → resp2 ≡ 0
      → Talks start
          (identify dev (suc patience) port1 resp0 resp1 resp2)
          (holding [] 0)
          0
          (holding [] 0xfa)
  unfolding identify
  identify-Talks patience e0 e1 e2 = Talks-bind (report_reset-Talks e0 e1) λ _ _.
      Talks-bind (response_id-Talks e2) λ before _.
        Talks-bind (second_command-Talks start dev obeys patience 0xf5 refl) λ _ _.
          Talks-bind (second_command-Talks start dev obeys patience 0xf2 refl) λ _ _.
            Talks-bind (identify_reply-Talks before 0xfa) λ id e.
              Talks-bind (second_command-Talks start dev obeys patience 0xf4 refl)
                λ _ _. Talks-value e (Talks-pure id)

  -- The mouse answers with three bytes to its reset, and has the identity 0.
  reset_second-Talks :
      (patience device_id : ℕ)
      → Talks start
          (reset_port dev (suc patience) device_id port1)
          (holding [] 0xfa)
          0
          (holding [] 0xfa)
  unfolding reset_port select_port
  reset_second-Talks patience device_id =
      Talks-bind (send_command-Talks start dev obeys {w = holding [] 0xfa} 0xd4) λ _ _.
        Talks-bind (send_data-Talks start dev obeys 0xff) λ _ _.
          expect-Talks start dev obeys (unpopulated dev port1) λ resp0 e0.
            expect-Talks start dev obeys (unpopulated dev port1) λ resp1 e1.
              expect-Talks start dev obeys (unpopulated dev port1) λ resp2 e2.
                Talks-else (reset_failed dev device_id port1) (ap (λ r. r == 0xfc) e0)
                  (identify-Talks patience e0 e1 e2)

module _ (start : Board) (platform : Platform) (obeys : Obeys start platform.dev)
    (patience rounds : ℕ) (config : ℕ) where
  init_mouse-Talks :
      {device_id : ℕ} {w : World}
      → device_id ≡ 0
      → Talks start (ps2_init_device platform (suc patience) (suc rounds) device_id port1) w tt w
  unfolding ps2_init_device get_device_type get_device_kind start_driver
  init_mouse-Talks e = rw e (
      Talks-bind
        (Talks-screen _ (
          Quietly-println (codes "Port %d successfully initialised. Device type: %s")
            (int 1 ∷ str (get_device_type_str (get_device_type 0)) ∷ []) (port_code-lt port1, tt)
            (unfold render expand in tt)))
        λ _ _. Talks-pure tt)

  -- The mouse gets its identity and no driver.
  pub bring_up_mouse-Talks :
      (w : World)
      → w.ps2.port_1_operational ≡ true
      → Talks start
          (bring_up platform (suc patience) (suc rounds) port1)
          (with_board (left_waiting on config) w)
          tt
          (with_board (left_waiting on config) (record w { ps2 = record w.ps2 { port1_id = 0 } }))
  unfolding bring_up
  bring_up_mouse-Talks w works =
      Talks-ps2 (λ s. s)
        λ s e. Talks-true (on_ps2 (set_device_id port1 0)) (ap (operational port1) e ∙ works) (
          Talks-bind (reset_second-Talks start platform.dev obeys w config patience s.port1_id)
            λ id e'.
              Talks-bind (Talks-world (rw e' refl) (Talks-on_ps2 (set_device_id port1 id)))
                λ _ _. init_mouse-Talks e')
