-- ===== src/Ps2/Board/Absent.antt =====
-- `reset_port` and the device commands with nothing at the port: the byte that was read last is taken
-- for every answer.
use drewos.Base.{
  ℕ, suc, ◌+◌, ◌*◌, ◌^◌, ◌<◌, ◌≡◌, refl, ap, ◌∙◌, ◌==◌, ◌||◌, ◌&&◌, Bool, true, false, Option, some,
  [], ◌∷◌, arith, u8, u16, codes, Bool-cases, inl, inr,
}
use drewos.Machine.{Device, pure}
use drewos.Machine.Quiet.{Quietly-println}
use drewos.Print.{int}
use drewos.Print.Format.{render, expand}
use drewos.Ps2.{
  port0, wants_resend, select_port, send_once, try_read_data, report_answer,
  ps2_send_device_command,
}
use drewos.Ps2.Resend.{port_code-lt}
use drewos.Ps2.Reset.{
  expect, reset_succeeded, unpopulated, reset_failed, report_reset, response_id, identify_reply,
  identify, reset_port,
}
use drewos.Ps2.Board.{absent, Board, Obeys, idle}
use drewos.Ps2.Board.Mouse.{doubled}
use drewos.Ps2.Board.World.{World, with_board}
use drewos.Ps2.Board.Talks.{
  Talks, Talks-pure, Talks-bind, Talks-value, Talks-screen, Talks-false, Talks-else, Talks-then,
}
use drewos.Ps2.Board.Transfers.{send_data-Talks, try_read_data-Talks, expect-Talks}

-- A byte that does not mean anything as an answer to a command or to a reset.
pub record IsNoise (byte : ℕ) : Type 0 where
  pub fits : byte < 2 ^ 8
  pub no_ack : (byte == 0xfa) ≡ false
  pub no_resend : (byte == 0xfe) ≡ false
  pub no_fail : (byte == 0xfc) ≡ false
  pub no_zero : (byte == 0) ≡ false

no_reset : {byte : ℕ} → IsNoise byte → reset_succeeded byte byte ≡ false
no_reset {byte} noise = rw (noise.no_ack) (none_of (byte == 0xaa))
  where
    none_of : (b : Bool) → (false && b || b && false) ≡ false
    none_of true = refl
    none_of false = refl

module _ (start : Board) (dev : Device) (obeys : Obeys start dev) (byte : ℕ) (noise : IsNoise byte)
    (config scan_set : ℕ) (w : World) where
  abbrev silent : World
  silent = with_board (idle false absent byte config scan_set) w

  read-Talks : Talks start (try_read_data dev) silent (some byte) silent
  read-Talks =
      let h = noise.fits in
      let same : u8 byte ≡ byte = omega (arith, h) in
      Talks-value (ap some same) (try_read_data-Talks start dev obeys)

  report-Talks :
      (cmd : ℕ) (answer : Option ℕ)
      → cmd < 2 ^ 32
      → answer ≡ some byte
      → Talks start (report_answer dev cmd port0 answer) silent tt silent
  unfolding report_answer
  report-Talks cmd answer h e =
      let fits = noise.fits in
      rw e (
        Talks-else (pure tt) noise.no_ack (
          Talks-screen _ (
            Quietly-println
              (codes "Error: device %d command %x failed; expected ACK (0xFA), but received %x")
              (int 0 ∷ int cmd ∷ int byte ∷ []) (port_code-lt port0, (h, (omega (arith, fits), tt)))
              (unfold render expand in tt))))

  command-Talks :
      (patience cmd : ℕ)
      → cmd < 2 ^ 32
      → Talks start (ps2_send_device_command dev (suc patience) cmd port0) silent tt silent
  unfolding ps2_send_device_command send_once select_port
  command-Talks patience cmd h =
      Talks-bind
        (Talks-bind (Talks-pure tt)
          λ _ _. Talks-bind (send_data-Talks start dev obeys cmd) λ _ _. read-Talks)
        λ answer e.
          Talks-false _ (ap wants_resend e ∙ noise.no_resend) (report-Talks cmd answer h e)

  expected : {resp : ℕ} → resp ≡ u8 byte → resp ≡ byte
  expected e = let fits = noise.fits in omega (arith, e, fits)

  report_reset-Talks :
      {resp0 resp1 : ℕ}
      → resp0 ≡ byte
      → resp1 ≡ byte
      → Talks start (report_reset dev port0 resp0 resp1) silent tt silent
  unfolding report_reset
  report_reset-Talks e0 e1 =
      rw (e0, e1)
        (Talks-else (pure tt) (no_reset noise) (
          Talks-screen _ (
            Quietly-println (codes "Failed to reset port %d; resp = %x")
              (int 0 ∷ int (u16 (byte * 2 ^ 8 + byte)) ∷ []) (port_code-lt port0, (omega arith, tt))
              (unfold render expand in tt))))

  -- Some identity, which is not used.
  response_id-Talks : (resp2 : ℕ) → (v : ℕ) × Talks start (response_id dev resp2) silent v silent
  unfolding response_id
  response_id-Talks resp2 = elim (Bool-cases (resp2 == 0xab || resp2 == 0xac)) [
    | inl yes' ↦ (
      u16 (resp2 + u8 byte * 2 ^ 8),
      Talks-then (pure resp2) yes' (
          expect-Talks start dev obeys (pure resp2) λ special e.
            Talks-value (ap (λ s. u16 (resp2 + s * 2 ^ 8)) e)
              (Talks-pure (u16 (resp2 + special * 2 ^ 8)))),
    )
    | inr no' ↦ (
      resp2,
      Talks-else (expect dev (pure resp2) (λ special. pure (u16 (resp2 + special * 2 ^ 8)))) no'
          (Talks-pure resp2),
    )
  ]

  identify_reply-Talks :
      (before : ℕ) → Talks start (identify_reply dev before) silent (doubled byte) silent
  unfolding identify_reply
  identify_reply-Talks before = expect-Talks start dev obeys _ λ first e.
      expect-Talks start dev obeys _ λ second e'.
        let fits = noise.fits in
        let both : u16 (first * 2 ^ 8 + second) ≡ doubled byte = omega (arith, e, e', fits) in
        Talks-value both (Talks-pure (u16 (first * 2 ^ 8 + second)))

  identify-Talks :
      (patience resp2 : ℕ) {resp0 resp1 : ℕ}
      → resp0 ≡ byte
      → resp1 ≡ byte
      → Talks start
          (identify dev (suc patience) port0 resp0 resp1 resp2)
          silent
          (doubled byte)
          silent
  unfolding identify
  identify-Talks patience resp2 e0 e1 =
      let (_, response) = response_id-Talks resp2 in
      Talks-bind (report_reset-Talks e0 e1) λ _ _. Talks-bind response λ before _.
        Talks-bind (command-Talks patience 0xf5 (omega arith)) λ _ _.
          Talks-bind (command-Talks patience 0xf2 (omega arith)) λ _ _.
            Talks-bind (identify_reply-Talks before) λ id e.
              Talks-bind (command-Talks patience 0xf4 (omega arith))
                λ _ _. Talks-value e (Talks-pure id)

  pub reset_port-Talks :
      (patience device_id : ℕ)
      → Talks start (reset_port dev (suc patience) device_id port0) silent (doubled byte) silent
  unfolding reset_port select_port
  reset_port-Talks patience device_id = Talks-bind (Talks-pure {w = silent} tt) λ _ _.
      Talks-bind (send_data-Talks start dev obeys 0xff) λ _ _.
        expect-Talks start dev obeys (unpopulated dev port0) λ resp0 e0.
          expect-Talks start dev obeys (unpopulated dev port0) λ resp1 e1.
            expect-Talks start dev obeys (unpopulated dev port0) λ resp2 _.
              Talks-else (reset_failed dev device_id port0)
                (ap (λ r. r == 0xfc) (expected e0) ∙ noise.no_fail)
                (identify-Talks patience resp2 (expected e0) (expected e1))
