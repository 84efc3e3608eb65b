-- ===== src/Ps2/Resend.antt =====
-- Reading and sending always return; a command comes to its end when the device lets it.
use drewos.Base.{ℕ, zero, suc, ◌^◌, ◌<◌, ◌≡◌, refl, arith, Option, none, some}
use drewos.Base.{[], ◌∷◌, Bool, true, false, codes, if_holds, ◌==◌}
use drewos.Machine.{Device, Machine, pure, ◌>>=◌, on_screen}
use drewos.Machine.Quiet.{
  SameVariables, SameVariables-trans, Quietly, Quietly-at, Quietly-pure, Quietly-bind,
}
use drewos.Machine.Quiet.{Quietly-bool, Quietly-read_byte, Quietly-write_byte, Quietly-println}
use drewos.Machine.Quiet.{Anything, IsByte}
use drewos.Print.{int, println}
use drewos.Print.Format.{render, expand}
use drewos.Ps2.{
  resp_ack, Port, port0, port1, port_code, ps2_buffer_wait, response_wait, try_read_data,
  ps2_read_data,
}
use drewos.Ps2.{
  ps2_send_data, ps2_send_command, select_port, send_once, report_answer, wants_resend,
}
use drewos.Ps2.{ps2_send_device_command}
use drewos.Ps2.Wait.{
  polls-SameVariables, Waited, in_time, at_last, never, ps2_buffer_wait-Waited,
  response_wait-Waited,
}

-- A byte, if there is one.
abbrev pub IsByte? : Option ℕ → Type 0
IsByte? none = Unit
IsByte? (some v) = IsByte v

pub port_code-lt : (port : Port) → port_code port < 2 ^ 32
port_code-lt port0 = omega arith
port_code-lt port1 = omega arith

module _ (dev : Device) where
  pub Waited-SameVariables :
      {ready : ℕ → Bool} {m m' : Machine} {b : Bool} → Waited dev ready m b m' → SameVariables m m'
  Waited-SameVariables {m = m} (in_time n h f) = polls-SameVariables dev (suc n) m
  Waited-SameVariables {m = m} (at_last n h f) = polls-SameVariables dev (suc n) m
  Waited-SameVariables {m = m} (never f) = polls-SameVariables dev 1025 m

  buffer_wait-Quietly : Quietly Anything (ps2_buffer_wait dev)
  buffer_wait-Quietly = record {
    run = λ m.
        let (b, m', w, e) = ps2_buffer_wait-Waited dev m in (b, m', e, tt, Waited-SameVariables w);
  }

  pub response_wait-Quietly : Quietly Anything (response_wait dev)
  response_wait-Quietly = record {
    run = λ m.
        let (b, m', w, e) = response_wait-Waited dev m in (b, m', e, tt, Waited-SameVariables w);
  }

  pub try_read_data-Quietly : Quietly IsByte? (try_read_data dev)
  unfolding try_read_data
  try_read_data-Quietly = Quietly-bind response_wait-Quietly λ b _.
      Quietly-bool b (Quietly-bind (Quietly-read_byte dev 0x60) (λ v h. Quietly-pure (some v) h))
        (Quietly-pure none tt)

  pub read_data-Quietly : Quietly IsByte (ps2_read_data dev)
  unfolding ps2_read_data
  read_data-Quietly = Quietly-bind try_read_data-Quietly answer
    where
      answer :
          (r : Option ℕ)
          → IsByte? r
          → Quietly IsByte (elim r [
            | some byte ↦ pure byte
            | none ↦
                (on_screen
                    (println (some (codes "Error: PS/2 controller did not write a response")) [])
                  >>= λ _. pure 0)
          ])
      answer (some byte) h = Quietly-pure byte h
      answer none h =
          Quietly-bind
            (Quietly-println (codes "Error: PS/2 controller did not write a response") [] tt
              (unfold render expand in tt))
            (λ _ _. Quietly-pure 0 (omega arith))

  pub send_data-Quietly : (byte : ℕ) → Quietly Anything (ps2_send_data dev byte)
  unfolding ps2_send_data
  send_data-Quietly byte = Quietly-bind buffer_wait-Quietly λ b _.
      Quietly-bool b (Quietly-write_byte 0x60 byte) (
        Quietly-println (codes "Error: PS/2 controller faield to enter ready state") [] tt
          (unfold render expand in tt))

  pub send_command-Quietly : (command : ℕ) → Quietly Anything (ps2_send_command dev command)
  unfolding ps2_send_command
  send_command-Quietly command = Quietly-bind buffer_wait-Quietly λ b _.
      Quietly-bool b (Quietly-write_byte 0x64 command) (
        Quietly-println (codes "Error: ps/2 controller failed to enter ready state") [] tt
          (unfold render expand in tt))

  pub select_port-Quietly : (port : Port) → Quietly Anything (select_port dev port)
  unfolding select_port
  select_port-Quietly port0 = Quietly-pure tt tt
  select_port-Quietly port1 = send_command-Quietly 0xd4

  pub send_once-Quietly : (cmd : ℕ) (port : Port) → Quietly IsByte? (send_once dev cmd port)
  unfolding send_once
  send_once-Quietly cmd port =
      Quietly-bind (select_port-Quietly port)
        λ _ _. Quietly-bind (send_data-Quietly cmd) λ _ _. try_read_data-Quietly

  pub report_answer-Quietly :
      (cmd : ℕ) (port : Port) (r : Option ℕ)
      → IsByte cmd
      → IsByte? r
      → Quietly Anything (report_answer dev cmd port r)
  unfolding report_answer
  report_answer-Quietly cmd port none hc hr =
      Quietly-println (codes "Error: device %d command %x did not generate a response (timeout)")
        (int (port_code port) ∷ int cmd ∷ []) (port_code-lt port, (omega arith, tt))
        (unfold render expand in tt)
  report_answer-Quietly cmd port (some resp) hc hr =
      if_holds (Quietly Anything) (resp == resp_ack) (Quietly-pure tt tt) (
        Quietly-println
          (codes "Error: device %d command %x failed; expected ACK (0xFA), but received %x")
          (int (port_code port) ∷ int cmd ∷ int resp ∷ [])
          (port_code-lt port, (omega arith, (omega arith, tt))) (unfold render expand in tt))

  -- The device asks for the command to be sent again in the first `n - 1` rounds from a machine on,
  -- and not in round `n`.
  pub data Settles (cmd : ℕ) (port : Port) : ℕ → Machine → Type 0 where
    answered :
        {n : ℕ} {m m' : Machine} {r : Option ℕ}
        → send_once dev cmd port m ≡ some (r, m')
        → wants_resend r ≡ false
        → Settles cmd port (suc n) m
    again :
        {n : ℕ} {m m' : Machine} {r : Option ℕ}
        → send_once dev cmd port m ≡ some (r, m')
        → wants_resend r ≡ true
        → Settles cmd port n m'
        → Settles cmd port (suc n) m

  -- `ps2_send_device_command` comes to its end for every command byte and device that settles within
  -- the rounds given, and it changes the ports and the screen alone. The memory outside
  -- of the video buffer is as before, if the column was one of the screen.
  pub ps2_send_device_command-Settles :
      (cmd : ℕ) (port : Port) {n : ℕ} {m : Machine}
      → cmd < 2 ^ 8
      → Settles cmd port n m
      → (m' : Machine) × (ps2_send_device_command dev n cmd port m ≡ some (tt, m'))
        × SameVariables m m'
  unfolding ps2_send_device_command
  ps2_send_device_command-Settles cmd port hc (answered {m' = m'} {r = r} e done) =
      let (byte, same) = Quietly-at (send_once-Quietly cmd port) e in
      let (u, k, e', p, same') = (report_answer-Quietly cmd port r hc byte).run m' in
      (k, rw (e, done, ◌>>=◌) e', SameVariables-trans same same')
  ps2_send_device_command-Settles cmd port hc (again e more rest) =
      let (byte, same) = Quietly-at (send_once-Quietly cmd port) e in
      let (k, e', same') = ps2_send_device_command-Settles cmd port hc rest in
      (k, rw (e, more, ◌>>=◌) e', SameVariables-trans same same')

  -- A device that answers each round of a command by the request to send it again keeps
  -- `ps2_send_device_command` from ever coming to its end.
  pub ps2_send_device_command-stubborn :
      (cmd : ℕ) (port : Port)
      → ((m : Machine) → (m' : Machine) × (send_once dev cmd port m ≡ some (some 0xfe, m')))
      → (n : ℕ) (m : Machine) → ps2_send_device_command dev n cmd port m ≡ none
  unfolding ps2_send_device_command
  ps2_send_device_command-stubborn cmd port resends zero m = refl
  ps2_send_device_command-stubborn cmd port resends (suc n) m =
      rw ((resends m).1, ◌>>=◌) (ps2_send_device_command-stubborn cmd port resends n (resends m).0)
