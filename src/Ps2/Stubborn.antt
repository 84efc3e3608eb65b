-- ===== src/Ps2/Stubborn.antt =====
-- Devices that always have an answer, and the one that always asks to send again.
use drewos.Base.{ℕ, ◌≡◌, ◌∙◌, refl, sym, ap, arith, Bool, true, Option, none, some, u8, [], codes}
use drewos.Machine.{Device, Machine, Trace, read8, log_event, pure, ◌>>=◌, read_byte}
use drewos.Machine.Quiet.{SameVariables-log, Quietly, Quietly-pure, Quietly-bind}
use drewos.Ps2.{
  say, Port, response_wait, try_read_data, ps2_read_data, send_once, ps2_send_device_command,
}
use drewos.Ps2.Wait.{polls, Waited, in_time, at_last, never, has_response, response_wait-Waited}
use drewos.Ps2.Resend.{
  Waited-SameVariables, select_port-Quietly, send_data-Quietly, ps2_send_device_command-stubborn,
}

-- Every status announces a response.
abbrev pub Announces : Device → Type 0
Announces dev = (t : Trace) → has_response (u8 (dev t 0x64)) ≡ true

module _ (dev : Device) (announces : Announces dev) where
  Waited-announced : {m m' : Machine} {b : Bool} → Waited dev has_response m b m' → b ≡ true
  Waited-announced (in_time n h f) = refl
  Waited-announced {m = m} (at_last n h f) =
      sym (f.before 0 (omega arith)) ∙ announces ((polls dev 0 m).trace)
  Waited-announced (never f) = refl

  response_wait-announced : Quietly (λ b. b ≡ true) (response_wait dev)
  response_wait-announced = record {
    run = λ m.
        let (b, m', w, e) = response_wait-Waited dev m in
        (b, m', e, Waited-announced w, Waited-SameVariables dev w);
  }

  module _ (P : ℕ → Type 0) (reads : (t : Trace) → P (u8 (dev t 0x60))) where
    read_byte-announced : Quietly P (read_byte dev 0x60)
    read_byte-announced = record {
      run = λ m. (
        u8 (dev m.trace 0x60),
        log_event (read8 0x60 (u8 (dev m.trace 0x60))) m,
        refl,
        reads m.trace,
        SameVariables-log _ m,
      );
    }

    abbrev Has : Option ℕ → Type 0
    Has none = ⊥
    Has (some v) = P v

    try_read_data-announced : Quietly Has (try_read_data dev)
    unfolding try_read_data
    try_read_data-announced =
        Quietly-bind response_wait-announced
          λ b e. rw e (Quietly-bind read_byte-announced (λ v h. Quietly-pure (some v) h))

    -- A byte that is read is one of the device's.
    pub read_data-announced : Quietly P (ps2_read_data dev)
    unfolding ps2_read_data
    read_data-announced = Quietly-bind try_read_data-announced answer
      where
        answer :
            (r : Option ℕ)
            → Has r
            → Quietly P (elim r [
              | some byte ↦ pure byte
              | none ↦ say dev (codes "Error: PS/2 controller did not write a response") [] >>= λ _.
                  pure 0
            ])
        answer (some byte) h = Quietly-pure byte h
        answer none h = absurd h

    send_once-announced : (cmd : ℕ) (port : Port) → Quietly Has (send_once dev cmd port)
    unfolding send_once
    send_once-announced cmd port =
        Quietly-bind (select_port-Quietly dev port)
          λ _ _. Quietly-bind (send_data-Quietly dev cmd) λ _ _. try_read_data-announced

  -- A device of which every status announces a response and every byte is the request to send again
  -- keeps `ps2_send_device_command` from ever coming to its end, whatever the command, the port and
  -- the number of rounds.
  pub ps2_send_device_command-endless :
      (cmd : ℕ) (port : Port)
      → ((t : Trace) → u8 (dev t 0x60) ≡ 0xfe)
      → (n : ℕ) (m : Machine) → ps2_send_device_command dev n cmd port m ≡ none
  ps2_send_device_command-endless cmd port resends n m =
      ps2_send_device_command-stubborn dev cmd port round n m
    where
      round : (m : Machine) → (m' : Machine) × (send_once dev cmd port m ≡ some (some 0xfe, m'))
      round m =
          let (r, k, e, h, _) = (send_once-announced (λ v. v ≡ 0xfe) resends cmd port).run m in
          answer r k e h
        where
          answer :
              (r : Option ℕ) (k : Machine)
              → send_once dev cmd port m ≡ some (r, k)
              → Has (λ v. v ≡ 0xfe) resends r
              → (m' : Machine) × (send_once dev cmd port m ≡ some (some 0xfe, m'))
          answer (some v) k e h = (k, e ∙ ap (λ (u : ℕ). some (some u, k)) h)
          answer none k e h = absurd h
