-- ===== src/Math/Log.antt =====
-- `ilog` against the powers of its base.
use native.Mathlib.Nat.{pow-suc, div-lt_iff_lt-mul, le-div_iff_mul-le}
use drewos.Base.{ℕ, zero, suc, ◌+◌, ◌/◌, ◌^◌, ◌≤◌, ◌<◌, ◌≡◌, refl, ap, ◌∙◌, arith}
use drewos.Base.{leb, Bool-cases, inl, inr, none, some, ◌⊎◌, u32, true, false, leb→le}
use drewos.Base.Order.{pow-one}
use drewos.Math.{ilog_loop, ilog}

-- `n` is the integer logarithm of `x`: the powers `b ^ n` and `b ^ (n + 1)` enclose it, and the
-- logarithm of 0 is 0.
abbrev pub IsLog : ℕ → ℕ → ℕ → Type 0
IsLog b x n = (x < b ^ suc n) × ((b ^ n ≤ x) ⊎ (n ≡ 0))

ilog_loop-more :
    (fuel b x r : ℕ)
    → leb b x ≡ true
    → ilog_loop (suc fuel) b x r ≡ ilog_loop fuel b (x / b) (u32 (r + 1))
unfolding ilog_loop
ilog_loop-more fuel b x r h = rw h

ilog_loop-done : (fuel b x r : ℕ) → leb b x ≡ false → ilog_loop (suc fuel) b x r ≡ some r
unfolding ilog_loop
ilog_loop-done fuel b x r h = rw h

module _ (b : ℕ) (big : 2 ≤ b) where
  IsLog-zero : (x : ℕ) → x < b → IsLog b x 0
  IsLog-zero x h = (rw pow-one h, inr refl)

  IsLog-suc : (x n : ℕ) → b ≤ x → IsLog b (x / b) n → IsLog b x (suc n)
  IsLog-suc x n h (up, low) = (rw pow-suc ((div-lt_iff_lt-mul (omega arith)).0 up), inl (down low))
    where
      down : (b ^ n ≤ x / b) ⊎ (n ≡ 0) → b ^ suc n ≤ x
      down (inl l) = rw pow-suc ((le-div_iff_mul-le (omega arith)).0 l)
      down (inr z) = rw (z, pow-one) h

  half_bound : (fuel x : ℕ) → x < 2 ^ suc fuel → b ≤ x → x / b < 2 ^ fuel
  half_bound fuel x h l = (div-lt_iff_lt-mul (omega arith)).1 (grind (arith, pow-suc 2 fuel))

  -- Every round at least halves `x`, so one round more than its bits is enough.
  ilog_loop_lem :
      (fuel x r : ℕ)
      → x < 2 ^ fuel
      → r + fuel < 2 ^ 32
      → (n : ℕ) × (ilog_loop (suc fuel) b x r ≡ some (r + n)) × (n ≤ fuel) × IsLog b x n
  ilog_loop_lem zero x r hx hr = (
    0,
    ilog_loop-done 0 b x r (ground arith) ∙ ap some (omega arith),
    omega arith,
    IsLog-zero x (omega arith),
  )
  ilog_loop_lem (suc fuel) x r hx hr = elim (Bool-cases (leb b x)) [
    | inl more ↦
        let below : b ≤ x = leb→le b x more in
        let rest =
          ilog_loop_lem fuel (x / b) (u32 (r + 1)) (half_bound fuel x hx below) (omega arith) in
        (
          suc rest.0,
          ilog_loop-more (suc fuel) b x r more ∙ rest.1 ∙ ap some (omega arith),
          omega (arith, rest.2),
          IsLog-suc x rest.0 below rest.3,
        )
    | inr done ↦ (
      0,
      ilog_loop-done (suc fuel) b x r done ∙ ap some (omega arith),
      omega arith,
      IsLog-zero x (ground arith),
    )
  ]

  -- The loop of `ilog` ends on every 32-bit number, and it returns the
  -- integer logarithm, which is at most 32.
  pub ilog_lem : (x : ℕ) → x < 2 ^ 32 → (n : ℕ) × (ilog b x ≡ some n) × (n ≤ 32) × IsLog b x n
  unfolding ilog
  ilog_lem x h =
      let found = ilog_loop_lem 32 x 0 h (omega arith) in
      (found.0, found.1 ∙ ap some (omega arith), found.2, found.3)

-- In the bases 0 and 1 no round makes a number that is at least the base smaller than it.
ilog_loop-small : (b fuel x r : ℕ) → b ≤ 1 → b ≤ x → ilog_loop fuel b x r ≡ none
unfolding ilog_loop
ilog_loop-small b zero x r small h = refl
ilog_loop-small b (suc fuel) x r small h =
    ilog_loop-more fuel b x r (ground arith)
    ∙ ilog_loop-small b fuel (x / b) (u32 (r + 1)) small (stays b small h)
  where
    stays : (b : ℕ) → b ≤ 1 → b ≤ x → b ≤ x / b
    stays zero small h = omega arith
    stays (suc zero) small h = omega arith
    stays (suc (suc b)) small h = absurd (omega arith)

-- The outcome of `ilog`: a logarithm, 0 for a number below the base, or a loop that no number of
-- rounds ends.
pub data Outcome (b x : ℕ) : Type 0 where
  logarithm : (n : ℕ) → 2 ≤ b → ilog b x ≡ some n → n ≤ 32 → IsLog b x n → Outcome b x
  below : b ≤ 1 → x < b → ilog b x ≡ some 0 → Outcome b x
  endless : b ≤ 1 → b ≤ x → ((fuel : ℕ) → ilog_loop fuel b x 0 ≡ none) → Outcome b x

-- For every base and 32-bit number: from base 2 on the loop of `ilog` ends and returns the integer
-- logarithm, which is at most 32. In the bases 0 and 1 it returns 0 for a number below the base, and
-- for all others no number of rounds ends it; in base 0, where C leaves the first division undefined,
-- a quotient by 0 is 0.
pub ilog-Outcome : (b x : ℕ) → x < 2 ^ 32 → Outcome b x
unfolding ilog
ilog-Outcome b x h = elim (Bool-cases (leb 2 b)) [
  | inl e ↦
      let big : 2 ≤ b = leb→le 2 b e in
      let (n, is, small, log) = ilog_lem b big x h in logarithm n big is small log
  | inr e ↦ elim (Bool-cases (leb b x)) [
    | inl more ↦
        endless (ground arith) (leb→le b x more)
          (λ fuel. ilog_loop-small b fuel x 0 (ground arith) (leb→le b x more))
    | inr done ↦ below (ground arith) (ground arith) (ilog_loop-done 32 b x 0 done)
  ]
]
