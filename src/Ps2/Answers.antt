-- ===== src/Ps2/Answers.antt =====
-- `ps2_send_device_command` with a device that answers by the number of bytes it has been sent.
use drewos.Base.{ℕ, suc, ◌+◌, ◌≡◌, true, some, u8, [], ◌∷◌, ◌==◌, if◌then◌else◌}
use drewos.Machine.{Device, Machine, Trace, K, write8}
use drewos.Ps2.Wait.{takes_command, has_response}

-- The number of bytes that have been written to the data port.
abbrev pub sent : Trace → ℕ
sent [] = 0
sent (write8 p v ∷ t) = if p == 0x60 then suc (sent t) else sent t
sent (_ ∷ t) = sent t

-- The controller always takes a byte and always has one, and behind `n` bytes sent the device answers
-- with number `n`.
pub record Replies (answers : ℕ → ℕ) (dev : Device) : Type 0 where
  pub accepts : (t : Trace) → takes_command (u8 (dev t 0x64)) ≡ true
  pub announces : (t : Trace) → has_response (u8 (dev t 0x64)) ≡ true
  pub shows : (t : Trace) → u8 (dev t 0x60) ≡ answers (sent t)

-- A run with a known value that sends `k` bytes.
record Sends {A : Type 0} (c : K A) (a : A) (k : ℕ) (m : Machine) : Type 0 where
  behind : Machine
  returns : c m ≡ some (a, behind)
  count : sent behind.trace ≡ k + sent m.trace
