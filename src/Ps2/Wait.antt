-- ===== src/Ps2/Wait.antt =====
-- When the bounded waits report success.
use drewos.Base.{
  ℕ, zero, suc, ◌-◌, ◌^◌, ◌≤◌, ◌<◌, ◌≡◌, refl, ap, ◌∙◌, arith, bit_and, ◌⊎◌, inl, inr, Bool-cases,
}
use drewos.Base.{Bool, true, false, not, ◌==◌, some, u8}
use drewos.Machine.Quiet.{SameVariables, SameVariables-refl, SameVariables-log, SameVariables-trans}
use drewos.Machine.{Device, Machine, K, pure, ◌>>=◌, read8, log_event}
use drewos.Ps2.{port_status, default_wait, wait_loop, command_ready, response_ready}
use drewos.Ps2.{ps2_buffer_wait, response_wait}

module _ (dev : Device) where
  -- The status byte that the next poll reads, and the machine behind that poll.
  abbrev pub status : Machine → ℕ
  status m = u8 (dev m.trace port_status)

  abbrev pub poll : Machine → Machine
  poll m = log_event (read8 port_status (status m)) m

  -- The machine after `n` polls.
  unfoldable pub polls : ℕ → Machine → Machine
  polls zero m = m
  polls (suc n) m = polls n (poll m)

pub polls-SameVariables : (dev : Device) (n : ℕ) (m : Machine) → SameVariables m (polls dev n m)
unfolding polls
polls-SameVariables dev zero m = SameVariables-refl m
polls-SameVariables dev (suc n) m =
    SameVariables-trans (SameVariables-log (read8 port_status (status dev m)) m)
      (polls-SameVariables dev n (poll dev m))

abbrev pub takes_command : ℕ → Bool
takes_command status = bit_and status 0x02 == 0

abbrev pub has_response : ℕ → Bool
has_response status = not (bit_and status 0x01 == 0)

module _ (dev : Device) (ready : ℕ → Bool) where
  -- The first status that is ready comes after `n` others.
  pub record FirstReady (n : ℕ) (m : Machine) : Type 0 where
    pub before : (i : ℕ) → i < n → ready (status dev (polls dev i m)) ≡ false
    pub at : ready (status dev (polls dev n m)) ≡ true

  FirstReady-poll : {n : ℕ} {m : Machine} → FirstReady (suc n) m → FirstReady n (poll dev m)
  unfolding polls
  FirstReady-poll f = record { before = λ i h. f.before (suc i) (omega arith); at = f.at }

  -- No status up to number `w` is ready.
  abbrev pub NeverReady : ℕ → Machine → Type 0
  NeverReady w m = (i : ℕ) → i ≤ w → ready (status dev (polls dev i m)) ≡ false

  -- What a wait reports, and the machine behind it. It gives up after poll number 1024, counted
  -- from 0: a device that is ready just then counts as late, and one that is not ready even then
  -- counts as ready.
  pub data Waited (m : Machine) : Bool → Machine → Type 0 where
    in_time : (n : ℕ) → n < 1024 → FirstReady n m → Waited m true (polls dev (suc n) m)
    at_last : (n : ℕ) → n ≡ 1024 → FirstReady n m → Waited m false (polls dev (suc n) m)
    never : NeverReady 1024 m → Waited m true (polls dev 1025 m)

  FirstReady-suc :
      {n : ℕ} {m : Machine}
      → ready (status dev m) ≡ false
      → FirstReady n (poll dev m)
      → FirstReady (suc n) m
  unfolding polls
  FirstReady-suc {n} {m} now f = record { before = earlier; at = f.at }
    where
      earlier : (i : ℕ) → i < suc n → ready (status dev (polls dev i m)) ≡ false
      earlier zero h = now
      earlier (suc i) h = f.before i (omega arith)

  NeverReady-suc :
      (w : ℕ) (m : Machine)
      → ready (status dev m) ≡ false
      → NeverReady w (poll dev m)
      → NeverReady (suc w) m
  unfolding polls
  NeverReady-suc w m now f zero h = now
  NeverReady-suc w m now f (suc i) h = f i (omega arith)

  -- Among `w + 1` polls there is a first ready one, or none is ready.
  find_ready : (w : ℕ) (m : Machine) → ((n : ℕ) × (n ≤ w) × FirstReady n m) ⊎ NeverReady w m
  unfolding polls
  find_ready zero m = elim (Bool-cases (ready (status dev m))) [
    | inl yes' ↦ inl (0, omega arith, record { before = λ i h. absurd (omega arith); at = yes' })
    | inr no' ↦ inr (only no')
  ]
    where
      only : ready (status dev m) ≡ false → NeverReady 0 m
      only e zero h = e
      only e (suc i) h = absurd (omega arith)
  find_ready (suc w) m = elim (Bool-cases (ready (status dev m))) [
    | inl yes' ↦ inl (0, omega arith, record { before = λ i h. absurd (omega arith); at = yes' })
    | inr no' ↦ later no' (find_ready w (poll dev m))
  ]
    where
      later :
          ready (status dev m) ≡ false
          → ((n : ℕ) × (n ≤ w) × FirstReady n (poll dev m)) ⊎ NeverReady w (poll dev m)
          → ((n : ℕ) × (n ≤ suc w) × FirstReady n m) ⊎ NeverReady (suc w) m
      later e (inl (n, h, f)) = inl (suc n, omega arith, FirstReady-suc e f)
      later e (inr f) = inr (NeverReady-suc w m e f)

  module _ (test : K Bool)
      (tests : (m : Machine) → test m ≡ some (ready (status dev m), poll dev m)) where
    wait_loop-ready :
        (n w : ℕ) (m : Machine)
        → FirstReady n m
        → n ≤ w
        → wait_loop test w m ≡ some (w - n, polls dev (suc n) m)
    unfolding wait_loop polls
    wait_loop-ready zero zero m f h = rw (tests m, f.at, ◌>>=◌) refl
    wait_loop-ready zero (suc w) m f h =
        rw (tests m, f.at, ◌>>=◌) (ap (λ k. some (k, poll dev m)) (omega arith))
    wait_loop-ready (suc n) zero m f h = absurd (omega arith)
    wait_loop-ready (suc n) (suc w) m f h =
        rw (tests m, f.before 0 (omega arith), ◌>>=◌)
          (wait_loop-ready n w (poll dev m) (FirstReady-poll f) (omega arith)
            ∙ ap (λ k. some (k, polls dev (suc (suc n)) m)) (omega arith))

    wait_loop-timeout :
        (w : ℕ) (m : Machine)
        → NeverReady w m
        → wait_loop test w m ≡ some (2 ^ 32 - 1, polls dev (suc w) m)
    unfolding wait_loop polls
    wait_loop-timeout zero m none_yet = rw (tests m, none_yet 0 (omega arith), ◌>>=◌)
    wait_loop-timeout (suc w) m none_yet =
        rw (tests m, none_yet 0 (omega arith), ◌>>=◌)
          (wait_loop-timeout w (poll dev m) (λ i h. none_yet (suc i) (omega arith)))

    wait_result :
        (m : Machine)
        → (b : Bool) × (m' : Machine) × Waited m b m'
          × ((wait_loop test default_wait >>= λ wait. pure (not (wait == 0))) m ≡ some (b, m'))
    wait_result m = by_case (find_ready 1024 m)
      where
        by_case :
            ((n : ℕ) × (n ≤ 1024) × FirstReady n m) ⊎ NeverReady 1024 m
            → (b : Bool) × (m' : Machine) × Waited m b m'
              × ((wait_loop test default_wait >>= λ wait. pure (not (wait == 0))) m ≡ some (b, m'))
        by_case (inr f) = (true, polls dev 1025 m, never f, rw (wait_loop-timeout 1024 m f, ◌>>=◌))
        by_case (inl (n, h, f)) = elim (Bool-cases (n == 1024)) [
          | inl e ↦ (
            false,
            polls dev (suc n) m,
            at_last n (ground arith) f,
            rw (wait_loop-ready n 1024 m f h, ◌>>=◌) (ground arith),
          )
          | inr e ↦ (
            true,
            polls dev (suc n) m,
            in_time n (ground arith) f,
            rw (wait_loop-ready n 1024 m f h, ◌>>=◌) (ground arith),
          )
        ]

-- For every device and machine, `ps2_buffer_wait` returns, and what it reports is one of three
-- cases: `true` if the status first allows a command at one of the polls 0 to 1023, `false` if it
-- does so at poll 1024, and `true` if it never does. The polls are all that happens.
pub ps2_buffer_wait-Waited :
    (dev : Device) (m : Machine)
    → (b : Bool) × (m' : Machine) × Waited dev takes_command m b m'
      × (ps2_buffer_wait dev m ≡ some (b, m'))
unfolding ps2_buffer_wait
ps2_buffer_wait-Waited dev m =
    wait_result dev takes_command (command_ready dev) (λ m'. unfold command_ready in refl) m

-- For every device and machine, `response_wait` returns, and what it reports is one of three cases:
-- `true` if the status first announces a response at one of the polls 0 to 1023, `false` if it does
-- so at poll 1024, and `true` if it never does. The polls are all that happens.
pub response_wait-Waited :
    (dev : Device) (m : Machine)
    → (b : Bool) × (m' : Machine) × Waited dev has_response m b m'
      × (response_wait dev m ≡ some (b, m'))
unfolding response_wait
response_wait-Waited dev m =
    wait_result dev has_response (response_ready dev) (λ m'. unfold response_ready in refl) m

-- For every device and machine, `ps2_buffer_wait` and `response_wait` return, each by one of three
-- cases: with `true` if the status first allows a command, or announces a response, at one of the
-- polls 0 to 1023, with `false` if it does so at poll 1024, and with `true` if it never does. The
-- polls are all that happens.
pub waits-Waited :
    (dev : Device) (m : Machine)
    → ((b : Bool) × (m' : Machine) × Waited dev takes_command m b m'
        × (ps2_buffer_wait dev m ≡ some (b, m')))
      × ((b : Bool) × (m' : Machine) × Waited dev has_response m b m'
          × (response_wait dev m ≡ some (b, m')))
waits-Waited dev m = (ps2_buffer_wait-Waited dev m, response_wait-Waited dev m)
