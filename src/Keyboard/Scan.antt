-- ===== src/Keyboard/Scan.antt =====
-- Scan codes of a keyboard that stays with set 1.
use drewos.Base.{ℕ, suc, ◌^◌, ◌<◌, ◌≡◌, ◌≢◌, refl, arith, Option, none, some, [], u8, codes}
use drewos.Machine.{Device, Platform, Trace, pure, ◌>>=◌, read8, log_event, read_byte}
use drewos.Machine.Quiet.{
  Quietly, Quietly-bind, Quietly-pure, Quietly-bool, Quietly-gets, Quietly-println,
}
use drewos.Machine.Quiet.{Anything, SameVariables-log}
use drewos.Print.Format.{render, expand}
use drewos.Ps2.{say, ps2_read_data, try_read_data}
use drewos.Ps2.Resend.{response_wait-Quietly, send_data-Quietly}
use drewos.Ps2.Reset.Answers.{NeverResends, device_command-Quietly}
use drewos.Keyboard.{set_1, get_scan_code_set, ps2_kbd_send_cmd, ps2_kbd_get_scan_code}
use drewos.Keyboard.{ps2_kbd_set_scan_codes, port_of}

-- The data port never names the scan code sets 2 and 3.
abbrev pub KeepsSet1 : Device → Type 0
KeepsSet1 dev = (t : Trace) → (u8 (dev t 0x60) ≢ 2) × (u8 (dev t 0x60) ≢ 3)

abbrev NamesSet1 : ℕ → Type 0
NamesSet1 id = get_scan_code_set id ≡ set_1

module _ (platform : Platform) (never : NeverResends platform.dev) (patience : ℕ) where
  pub send_cmd-Quietly :
      (cmd : ℕ) → cmd < 2 ^ 8 → Quietly Anything (ps2_kbd_send_cmd platform (suc patience) cmd)
  unfolding ps2_kbd_send_cmd
  send_cmd-Quietly cmd h =
      Quietly-bind (Quietly-gets (λ m. m.keyboard.port))
        λ port _. device_command-Quietly platform.dev never patience cmd (port_of port) h

module _ (platform : Platform) (never : NeverResends platform.dev) (keeps : KeepsSet1 platform.dev)
    (patience : ℕ) where
  read_byte-NamesSet1 : Quietly NamesSet1 (read_byte platform.dev 0x60)
  read_byte-NamesSet1 = record {
    run = λ m. (
      u8 (platform.dev m.trace 0x60),
      log_event (read8 0x60 (u8 (platform.dev m.trace 0x60))) m,
      refl,
      ground (arith, keeps m.trace),
      SameVariables-log _ m,
    );
  }

  abbrev NamesSet1? : Option ℕ → Type 0
  NamesSet1? none = Unit
  NamesSet1? (some id) = NamesSet1 id

  try_read_data-NamesSet1 : Quietly NamesSet1? (try_read_data platform.dev)
  unfolding try_read_data
  try_read_data-NamesSet1 = Quietly-bind (response_wait-Quietly platform.dev) λ b _.
      Quietly-bool b (Quietly-bind read_byte-NamesSet1 (λ v h. Quietly-pure (some v) h))
        (Quietly-pure none tt)

  read_data-NamesSet1 : Quietly NamesSet1 (ps2_read_data platform.dev)
  unfolding ps2_read_data
  read_data-NamesSet1 = Quietly-bind try_read_data-NamesSet1 answer
    where
      answer :
          (r : Option ℕ)
          → NamesSet1? r
          → Quietly NamesSet1 (elim r [
            | some byte ↦ pure byte
            | none ↦
                say platform.dev (codes "Error: PS/2 controller did not write a response") []
                >>= λ _. pure 0
          ])
      answer (some byte) h = Quietly-pure byte h
      answer none h =
          Quietly-bind
            (Quietly-println (codes "Error: PS/2 controller did not write a response") [] tt
              (unfold render expand in tt))
            (λ _ _. Quietly-pure 0 refl)

  get_scan_code-Quietly :
      Quietly (λ set. set ≡ set_1) (ps2_kbd_get_scan_code platform (suc patience))
  unfolding ps2_kbd_get_scan_code
  get_scan_code-Quietly =
      Quietly-bind (send_cmd-Quietly platform never patience 0xf0 (omega arith))
        λ _ _. Quietly-bind read_data-NamesSet1 λ id h. Quietly-pure (get_scan_code_set id) h

  pub set_scan_codes-Quietly :
      (rounds : ℕ)
      → Quietly Anything (ps2_kbd_set_scan_codes platform (suc patience) (suc rounds) set_1)
  unfolding ps2_kbd_set_scan_codes
  set_scan_codes-Quietly rounds =
      Quietly-bind (send_cmd-Quietly platform never patience 0xf0 (omega arith)) λ _ _.
        Quietly-bind (send_data-Quietly platform.dev 1)
          λ _ _. Quietly-bind get_scan_code-Quietly λ set e. rw e (Quietly-pure tt tt)
