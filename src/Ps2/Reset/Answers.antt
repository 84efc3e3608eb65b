-- ===== src/Ps2/Reset/Answers.antt =====
-- `reset_port` with a device that does not ask for anything again.
use drewos.Base.{
  ℕ, suc, ◌^◌, ◌*◌, ◌+◌, ◌<◌, ◌≡◌, ◌≢◌, refl, arith, Option, none, some, [], ◌∷◌, false, u8, u16,
}
use drewos.Base.{◌==◌, ◌||◌, codes, if_holds}
use drewos.Machine.{Device, Machine, Trace, K, read8, log_event, read_byte}
use drewos.Machine.Quiet.{
  SameVariables, SameVariables-log, Quietly, Quietly-bind, Quietly-pure, Quietly-bool,
}
use drewos.Machine.Quiet.{Quietly-println, Anything, IsByte}
use drewos.Print.{int}
use drewos.Print.Format.{render, expand}
use drewos.Ps2.{Port, port_code, wants_resend, try_read_data, send_once, ps2_send_device_command}
use drewos.Ps2.Resend.{
  IsByte?, port_code-lt, try_read_data-Quietly, response_wait-Quietly, send_data-Quietly,
}
use drewos.Ps2.Resend.{select_port-Quietly, answered, ps2_send_device_command-Settles}
use drewos.Ps2.Reset.{
  expect, unpopulated, report_reset, reset_succeeded, response_id, identify_reply,
}
use drewos.Ps2.Reset.{identify, reset_failed, reset_port, resp_reset_fail}

-- The data port never answers with the request to send again.
abbrev pub NeverResends : Device → Type 0
NeverResends dev = (t : Trace) → u8 (dev t 0x60) ≢ 0xfe

abbrev IsId : ℕ → Type 0
IsId v = v < 2 ^ 16

abbrev Settled : Option ℕ → Type 0
Settled r = wants_resend r ≡ false

module _ (dev : Device) where
  expect-Quietly :
      {A : Type 0} {P : A → Type 0} {missing : K A} {use_byte : ℕ → K A}
      → Quietly P missing
      → ((v : ℕ) → IsByte v → Quietly P (use_byte v))
      → Quietly P (expect dev missing use_byte)
  expect-Quietly {P = P} {missing = missing} {use_byte = use_byte} q r =
      Quietly-bind (try_read_data-Quietly dev) answer
    where
      answer :
          (o : Option ℕ)
          → IsByte? o
          → Quietly P (elim o [ none ↦ missing | some byte ↦ use_byte byte ])
      answer none h = q
      answer (some v) h = r v h

  unpopulated-Quietly : (port : Port) → Quietly IsId (unpopulated dev port)
  unfolding unpopulated
  unpopulated-Quietly port =
      Quietly-bind
        (Quietly-println (codes "Port %d is not populated") (int (port_code port) ∷ [])
          (port_code-lt port, tt) (unfold render expand in tt))
        (λ _ _. Quietly-pure 0 (omega arith))

  reset_failed-Quietly :
      (device_id : ℕ) (port : Port)
      → IsId device_id
      → Quietly IsId (reset_failed dev device_id port)
  unfolding reset_failed
  reset_failed-Quietly device_id port h =
      Quietly-bind
        (Quietly-println (codes "Port %d reset failed") (int (port_code port) ∷ [])
          (port_code-lt port, tt) (unfold render expand in tt))
        (λ _ _. Quietly-pure device_id h)

  report_reset-Quietly :
      (port : Port) (resp0 resp1 : ℕ) → Quietly Anything (report_reset dev port resp0 resp1)
  unfolding report_reset
  report_reset-Quietly port resp0 resp1 =
      if_holds (Quietly Anything) (reset_succeeded resp0 resp1) (Quietly-pure tt tt) (
        Quietly-println (codes "Failed to reset port %d; resp = %x")
          (int (port_code port) ∷ int (u16 (resp0 * 2 ^ 8 + resp1)) ∷ [])
          (port_code-lt port, (omega arith, tt)) (unfold render expand in tt))

  response_id-Quietly : (resp2 : ℕ) → IsByte resp2 → Quietly IsId (response_id dev resp2)
  unfolding response_id
  response_id-Quietly resp2 h =
      if_holds (Quietly IsId) (resp2 == 0xab || resp2 == 0xac)
        (expect-Quietly (Quietly-pure resp2 (omega arith))
          (λ code _. Quietly-pure (u16 (resp2 + code * 2 ^ 8)) (omega arith)))
        (Quietly-pure resp2 (omega arith))

  identify_reply-Quietly : (before : ℕ) → IsId before → Quietly IsId (identify_reply dev before)
  unfolding identify_reply
  identify_reply-Quietly before h = expect-Quietly (Quietly-pure before h) λ first hf.
      expect-Quietly (Quietly-pure first (omega arith))
        λ second _. Quietly-pure (u16 (first * 2 ^ 8 + second)) (omega arith)

  module _ (never : NeverResends dev) where
    read_data-Settled : Quietly (λ v. (v == 0xfe) ≡ false) (read_byte dev 0x60)
    read_data-Settled = record {
      run = λ m. (
        u8 (dev m.trace 0x60),
        log_event (read8 0x60 (u8 (dev m.trace 0x60))) m,
        refl,
        ground (arith, never m.trace),
        SameVariables-log _ m,
      );
    }

    send_once-Settled : (cmd : ℕ) (port : Port) → Quietly Settled (send_once dev cmd port)
    unfolding send_once try_read_data
    send_once-Settled cmd port = Quietly-bind (select_port-Quietly dev port) λ _ _.
        Quietly-bind (send_data-Quietly dev cmd) λ _ _.
          Quietly-bind (response_wait-Quietly dev) λ b _.
            Quietly-bool b (Quietly-bind read_data-Settled (λ v h. Quietly-pure (some v) h))
              (Quietly-pure none refl)

    pub device_command-Quietly :
        (patience cmd : ℕ) (port : Port)
        → IsByte cmd
        → Quietly Anything (ps2_send_device_command dev (suc patience) cmd port)
    device_command-Quietly patience cmd port h = record { run = runs }
      where
        runs :
            (m : Machine)
            → (a : Unit {0}) × (m' : Machine) × (ps2_send_device_command dev
                  (suc patience)
                  cmd
                  port
                  m
                ≡ some (a, m'))
              × Anything a
              × SameVariables m m'
        runs m =
            let (r, n, e, settled, same) = (send_once-Settled cmd port).run m in
            let (m', e', same') =
              ps2_send_device_command-Settles dev cmd port {n = suc patience} h
                (answered e settled) in
            (tt, m', e', tt, same')

    identify-Quietly :
        (patience : ℕ) (port : Port) (resp0 resp1 resp2 : ℕ)
        → IsByte resp2
        → Quietly IsId (identify dev (suc patience) port resp0 resp1 resp2)
    unfolding identify
    identify-Quietly patience port resp0 resp1 resp2 h =
        Quietly-bind (report_reset-Quietly port resp0 resp1) λ _ _.
          Quietly-bind (response_id-Quietly resp2 h) λ before hb.
            Quietly-bind (device_command-Quietly patience 0xf5 port (omega arith)) λ _ _.
              Quietly-bind (device_command-Quietly patience 0xf2 port (omega arith)) λ _ _.
                Quietly-bind (identify_reply-Quietly before hb) λ device_id hi.
                  Quietly-bind (device_command-Quietly patience 0xf4 port (omega arith))
                    λ _ _. Quietly-pure device_id hi

    -- With a device that never asks to send again, and at least one round for each command,
    -- `reset_port` returns from every machine. The identity that it leaves fits 16 bits if the one
    -- before did, and the variables of all drivers are as before.
    pub reset_port-returns :
        (patience device_id : ℕ) (port : Port) (m : Machine)
        → device_id < 2 ^ 16
        → (v : ℕ) × (m' : Machine) × (reset_port dev (suc patience) device_id port m ≡ some (v, m'))
          × (v < 2 ^ 16)
          × SameVariables m m'
    unfolding reset_port
    reset_port-returns patience device_id port m h =
        (Quietly-bind (select_port-Quietly dev port) λ _ _.
            Quietly-bind (send_data-Quietly dev 0xff) λ _ _.
              expect-Quietly (unpopulated-Quietly port) λ resp0 _.
                expect-Quietly (unpopulated-Quietly port) λ resp1 _.
                  expect-Quietly (unpopulated-Quietly port) λ resp2 h2.
                    if_holds (Quietly IsId) (resp0 == resp_reset_fail)
                      (reset_failed-Quietly device_id port h)
                      (identify-Quietly patience port resp0 resp1 resp2 h2)).run
          m
