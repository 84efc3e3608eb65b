-- ===== src/Ps2/Silent.antt =====
-- Reading from a controller that has nothing to say.
use drewos.Base.{ℕ, ◌≡◌, ◌∙◌, refl, sym, Bool, true, false, some, u8}
use drewos.Machine.{log_event, read8, Device, Machine, Trace, ◌>>=◌}
use drewos.Ps2.{try_read_data, ps2_read_data}
use drewos.Ps2.Wait.{Waited, in_time, at_last, never, polls, has_response, response_wait-Waited}

-- No status ever announces a response.
abbrev NeverAnnounces : Device → Type 0
NeverAnnounces dev = (t : Trace) → has_response (u8 (dev t 0x64)) ≡ false

-- The machine after the read of the data port.
abbrev poll_data : Device → Machine → Machine
poll_data dev m = log_event (read8 0x60 (u8 (dev m.trace 0x60))) m

module _ (dev : Device) (silent : NeverAnnounces dev) where
  Waited-silent : {m m' : Machine} {b : Bool} → Waited dev has_response m b m' → b ≡ true
  Waited-silent (in_time n h f) = refl
  Waited-silent {m = m} (at_last n h f) = sym (silent ((polls dev n m).trace)) ∙ f.at
  Waited-silent (never f) = refl

  -- A controller whose status never announces a response is read all the same: `try_read_data`
  -- never reports that there is none, and it and `ps2_read_data` return the byte that happens to be
  -- at the data port.
  try_read_data-silent :
      (m : Machine)
      → (m' : Machine) × (v : ℕ) × (v ≡ u8 (dev m'.trace 0x60))
        × (try_read_data dev m ≡ some (some v, poll_data dev m'))
        × (ps2_read_data dev m ≡ some (v, poll_data dev m'))
  unfolding try_read_data ps2_read_data
  try_read_data-silent m =
      let (b, m', w, e) = response_wait-Waited dev m in
      (
        m',
        u8 (dev m'.trace 0x60),
        refl,
        rw (e, Waited-silent w, ◌>>=◌),
        rw (e, Waited-silent w, ◌>>=◌),
      )
