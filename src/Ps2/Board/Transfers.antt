-- ===== src/Ps2/Board/Transfers.antt =====
-- Waiting, reading and sending with a board behind the ports.
use drewos.Base.{ℕ, zero, suc, ◌≡◌, refl, ap, ◌∙◌, Bool, true, false, some, Option, u8, u16, arith}
use drewos.Machine.{Device, Machine, read8, write8, log_event, read_byte, write_byte, K}
use drewos.Ps2.{
  Port, port1, port0, ps2_buffer_wait, response_wait, try_read_data, ps2_read_data, ps2_send_data,
  ps2_send_command, send_once, select_port, report_answer, ps2_send_device_command, resp_ack,
  wants_resend,
}
use drewos.Ps2.Wait.{
  status, polls, takes_command, has_response, Waited, in_time, at_last, never,
  ps2_buffer_wait-Waited, response_wait-Waited,
}
use drewos.Ps2.Reset.{expect}
use drewos.Ps2.Resend.{Waited-SameVariables}
use drewos.Ps2.Board.{Board, Obeys, hears, asked, taken, shown, after_trace}
use drewos.Ps2.Board.World.{World, with_board, In-SameVariables, Others-log}
use drewos.Ps2.Board.Talks.{Talks, Talks-pure, Talks-bind, Talks-value, Talks-true, Talks-false}

module _ (start : Board) (dev : Device) (obeys : Obeys start dev) where
  polls-board :
      (n : ℕ) (m : Machine) → after_trace start (polls dev n m).trace ≡ after_trace start m.trace
  unfolding polls
  polls-board zero m = refl
  polls-board (suc n) m = polls-board n (log_event (read8 0x64 (status dev m)) m)

  -- A status that is as good at the last poll as it is at the first is no late one.
  wait_outcome :
      (ready : ℕ → Bool) {b : Bool} {m n : Machine}
      → ((k : ℕ) → ready (status dev (polls dev k m)) ≡ ready (status dev m))
      → Waited dev ready m b n
      → (b ≡ true) × (after_trace start n.trace ≡ after_trace start m.trace)
  unfolding polls
  wait_outcome ready {m = m} steady (in_time n h f) = (refl, polls-board (suc n) m)
  wait_outcome ready {m = m} steady (at_last n h f) =
      let early : ready (status dev m) ≡ false = f.before 0 (omega arith) in
      let late : ready (status dev (polls dev n m)) ≡ true = f.at in
      absurd (ground (arith, early, late, steady n))
  wait_outcome ready {m = m} steady (never f) = (refl, polls-board 1025 m)

  -- A wait whose outcome is known to be `true`.
  Waited-Talks :
      {c : K Bool} {w : World} (ready : ℕ → Bool)
      → ((m : Machine) → (b : Bool) × (n : Machine) × Waited dev ready m b n × (c m ≡ some (b, n)))
      → ((m n : Machine)
          → after_trace start n.trace ≡ after_trace start m.trace
          → ready (status dev n) ≡ ready (status dev m))
      → Talks start c w true w
  Waited-Talks ready waits steady = record {
    run = λ m i.
        let (b, n, t, e) = waits m in
        let (yes', same) = wait_outcome ready (λ k. steady m (polls dev k m) (polls-board k m)) t in
        let s = Waited-SameVariables dev t in
        (
          n,
          e ∙ ap (λ x. some (x, n)) yes',
          In-SameVariables i s refl (same ∙ i.board),
          record { acpi = s.acpi; memory = s.memory },
        );
  }

  buffer_wait-Talks : {w : World} → Talks start (ps2_buffer_wait dev) w true w
  buffer_wait-Talks =
      Waited-Talks takes_command (ps2_buffer_wait-Waited dev)
        (λ m n _. rw (obeys.accepts n.trace, obeys.accepts m.trace) refl)

  response_wait-Talks : {w : World} → Talks start (response_wait dev) w true w
  response_wait-Talks =
      Waited-Talks has_response (response_wait-Waited dev)
        (λ m n same. rw (obeys.announces n.trace, obeys.announces m.trace, same) refl)

  pub write_byte-Talks :
      {w : World} (port v : ℕ)
      → Talks start
          (write_byte port v)
          w
          tt
          (with_board (hears (write8 (u16 port) (u8 v)) w.board) w)
  write_byte-Talks port v = record {
    run = λ m i. (
      log_event (write8 (u16 port) (u8 v)) m,
      refl,
      record {
        pic = i.pic;
        interrupts = i.interrupts;
        ps2 = i.ps2;
        keyboard = i.keyboard;
        board = ap (hears (write8 (u16 port) (u8 v))) i.board;
      },
      Others-log _ m,
    );
  }

  -- The data port shows what the board says, and the board moves on.
  pub read_data_port-Talks :
      {w : World}
      → Talks start (read_byte dev 0x60) w (u8 (shown w.board)) (with_board (taken w.board) w)
  read_data_port-Talks {w} = record {
    run = λ m i.
        let v : ℕ = u8 (dev m.trace 0x60) in
        (
          log_event (read8 0x60 v) m,
          ap (λ x. some (x, log_event (read8 0x60 v) m))
              (obeys.shows m.trace ∙ ap (λ b. u8 (shown b)) i.board),
          record {
            pic = i.pic;
            interrupts = i.interrupts;
            ps2 = i.ps2;
            keyboard = i.keyboard;
            board = ap taken i.board;
          },
          Others-log _ m,
        );
  }

  -- An empty buffer is read all the same, after a wait in vain: the byte is the last one again.
  pub try_read_data-Talks :
      {w : World}
      → Talks start (try_read_data dev) w (some (u8 (shown w.board))) (with_board (taken w.board) w)
  unfolding try_read_data
  try_read_data-Talks = Talks-bind response_wait-Talks λ ok yes'.
      Talks-true _ yes'
        (Talks-bind read_data_port-Talks λ byte e. Talks-value (ap some e) (Talks-pure (some byte)))

  -- Where the code reads a byte if there is one, there is one.
  pub expect-Talks :
      {A : Type 0} {use_byte : ℕ → K A} {w v : World} {a : A} (missing : K A)
      → ((byte : ℕ)
          → byte ≡ u8 (shown w.board)
          → Talks start (use_byte byte) (with_board (taken w.board) w) a v)
      → Talks start (expect dev missing use_byte) w a v
  expect-Talks missing then_use = Talks-bind try_read_data-Talks λ r e. rw e (then_use _ refl)

  pub read_data-Talks :
      {w : World}
      → Talks start (ps2_read_data dev) w (u8 (shown w.board)) (with_board (taken w.board) w)
  unfolding ps2_read_data
  read_data-Talks = Talks-bind try_read_data-Talks λ resp e. rw e (Talks-pure _)

  pub send_data-Talks :
      {w : World} (byte : ℕ)
      → Talks start
          (ps2_send_data dev byte)
          w
          tt
          (with_board (hears (write8 0x60 (u8 byte)) w.board) w)
  unfolding ps2_send_data
  send_data-Talks byte =
      Talks-bind buffer_wait-Talks λ ok yes'. Talks-true _ yes' (write_byte-Talks 0x60 byte)

  pub send_command-Talks :
      {w : World} (command : ℕ)
      → Talks start
          (ps2_send_command dev command)
          w
          tt
          (with_board (hears (write8 0x64 (u8 command)) w.board) w)
  unfolding ps2_send_command
  send_command-Talks command =
      Talks-bind buffer_wait-Talks λ ok yes'. Talks-true _ yes' (write_byte-Talks 0x64 command)

  report_answer-Talks :
      {w : World} (port : Port) (cmd : ℕ) (answer : Option ℕ)
      → answer ≡ some resp_ack
      → Talks start (report_answer dev cmd port answer) w tt w
  unfolding report_answer
  report_answer-Talks port cmd answer e = rw e (Talks-pure tt)

  -- A command to the first port, behind which the data port shows an acknowledgement.
  pub device_command-Talks :
      {w : World} (patience cmd : ℕ)
      → u8 (shown (hears (write8 0x60 (u8 cmd)) w.board)) ≡ resp_ack
      → Talks start
          (ps2_send_device_command dev (suc patience) cmd port0)
          w
          tt
          (with_board (asked cmd w.board) w)
  unfolding ps2_send_device_command send_once select_port
  device_command-Talks patience cmd ack =
      Talks-bind
        (Talks-bind (Talks-pure tt)
          λ _ _. Talks-bind (send_data-Talks cmd) λ _ _. try_read_data-Talks)
        λ answer e.
          let acknowledged : answer ≡ some resp_ack = e ∙ ap some ack in
          Talks-false _ (ap wants_resend acknowledged)
            (report_answer-Talks port0 cmd answer acknowledged)

  -- A command to the second port, behind which the data port shows an acknowledgement.
  pub second_command-Talks :
      {w : World} (patience cmd : ℕ)
      → u8 (shown (hears (write8 0x60 (u8 cmd)) (hears (write8 0x64 0xd4) w.board))) ≡ resp_ack
      → Talks start
          (ps2_send_device_command dev (suc patience) cmd port1)
          w
          tt
          (with_board (asked cmd (hears (write8 0x64 0xd4) w.board)) w)
  unfolding ps2_send_device_command send_once select_port
  second_command-Talks patience cmd ack =
      Talks-bind
        (Talks-bind (send_command-Talks 0xd4)
          λ _ _. Talks-bind (send_data-Talks cmd) λ _ _. try_read_data-Talks)
        λ answer e.
          let acknowledged : answer ≡ some resp_ack = e ∙ ap some ack in
          Talks-false _ (ap wants_resend acknowledged)
            (report_answer-Talks port1 cmd answer acknowledged)
