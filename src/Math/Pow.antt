-- ===== src/Math/Pow.antt =====
-- `ipow` against the power of the numbers.
use mathlib.Core.Path.{◌≡⟨◌⟩◌, ◌∎}
use native.Mathlib.Nat.{pow-succ', mul_assoc, mul-one, pow-suc, pow-zero, mod-eq_of_lt}
use drewos.Base.{ℕ, zero, suc, ◌*◌, ◌/◌, ◌%◌, ◌^◌, ◌<◌, ◌≡◌, ◌≢◌, sym, ap, ◌∙◌, arith}
use drewos.Base.{◌==◌, if◌then◌else◌, Bool-cases, inl, inr, some, u32, ==_iff}
use drewos.Base.Order.{pow-mul_self, mul-mod_left, mul-pow-mod}
use drewos.Math.{ipow_loop, ipow}

-- An odd exponent takes one factor into the result; the square takes half of the rest.
pow_even : (b e : ℕ) → e % 2 ≡ 0 → b ^ e ≡ (b * b) ^ (e / 2)
pow_even b e h = rw pow-mul_self (ap (λ (t : ℕ). b ^ t) (omega arith))

pow_odd : (b e : ℕ) → e % 2 ≡ 1 → b ^ e ≡ b * (b * b) ^ (e / 2)
pow_odd b e h =
    b ^ e
    ≡⟨ ap (λ (t : ℕ). b ^ t) (omega arith) ⟩ b ^ suc (2 * (e / 2))
    ≡⟨ pow-succ' b (2 * (e / 2)) ⟩ b * b ^ (2 * (e / 2))
    ≡⟨ ap (λ (t : ℕ). b * t) (sym (pow-mul_self b (e / 2))) ⟩ b * (b * b) ^ (e / 2) ∎

-- One round keeps `result * base ^ exponent` modulo 2 ^ 32.
abbrev next_result : ℕ → ℕ → ℕ → ℕ
next_result b e r = if e % 2 == 1 then u32 (r * b) else r

round_keeps : (b e r : ℕ) → u32 (next_result b e r * u32 (b * b) ^ (e / 2)) ≡ u32 (r * b ^ e)
round_keeps b e r = elim (Bool-cases (e % 2 == 1)) [
  | inl odd ↦ rw odd (
      u32 (u32 (r * b) * u32 (b * b) ^ (e / 2))
      ≡⟨ mul-pow-mod (2 ^ 32) (u32 (r * b)) (b * b) (e / 2) ⟩ u32 (u32 (r * b) * (b * b) ^ (e / 2))
      ≡⟨ mul-mod_left (2 ^ 32) (r * b) ((b * b) ^ (e / 2)) ⟩ u32 (r * b * (b * b) ^ (e / 2))
      ≡⟨ ap (λ (t : ℕ). u32 t) (mul_assoc r b ((b * b) ^ (e / 2))) ⟩
        u32 (r * (b * (b * b) ^ (e / 2)))
      ≡⟨ ap (λ (t : ℕ). u32 (r * t)) (sym (pow_odd b e ((==_iff _ 1).0 odd))) ⟩ u32 (r * b ^ e) ∎)
  | inr even ↦ rw even (
      u32 (r * u32 (b * b) ^ (e / 2))
      ≡⟨ mul-pow-mod (2 ^ 32) r (b * b) (e / 2) ⟩ u32 (r * (b * b) ^ (e / 2))
      ≡⟨ ap (λ (t : ℕ). u32 (r * t)) (sym (pow_even b e (ground arith))) ⟩ u32 (r * b ^ e) ∎)
]

next_result-lt : (b e r : ℕ) → r < 2 ^ 32 → next_result b e r < 2 ^ 32
next_result-lt b e r h = ground arith

-- The last round leaves the exponent 0, so the result is what the invariant says.
last_round : (b e r : ℕ) → r < 2 ^ 32 → e / 2 ≡ 0 → next_result b e r ≡ u32 (r * b ^ e)
last_round b e r h z =
    next_result b e r
    ≡⟨ sym (mod-eq_of_lt (next_result-lt b e r h)) ⟩ u32 (next_result b e r)
    ≡⟨ ap (λ (t : ℕ). u32 t) (sym (mul-one (next_result b e r))) ⟩ u32 (next_result b e r * 1)
    ≡⟨ ap (λ (t : ℕ). u32 (next_result b e r * t)) (sym (pow-zero (u32 (b * b)))) ⟩
      u32 (next_result b e r * u32 (b * b) ^ 0)
    ≡⟨ ap (λ (t : ℕ). u32 (next_result b e r * u32 (b * b) ^ t)) (sym z) ⟩
      u32 (next_result b e r * u32 (b * b) ^ (e / 2))
    ≡⟨ round_keeps b e r ⟩ u32 (r * b ^ e) ∎

ipow_loop_lem :
    (fuel b e r : ℕ)
    → e < 2 ^ fuel
    → 0 < fuel
    → r < 2 ^ 32
    → ipow_loop fuel b e r ≡ some (u32 (r * b ^ e))
unfolding ipow_loop
ipow_loop_lem zero b e r he hf hr = absurd (omega arith)
ipow_loop_lem (suc fuel) b e r he hf hr = elim (Bool-cases (e / 2 == 0)) [
  | inl done ↦ rw done (ap some (last_round b e r hr ((==_iff _ 0).0 done)))
  | inr more ↦ rw more (
      ipow_loop_lem fuel (u32 (b * b)) (e / 2) (next_result b e r) (omega (arith, pow-suc 2 fuel))
        (fuel_left fuel (ground arith) (omega (arith, pow-suc 2 fuel))) (next_result-lt b e r hr)
      ∙ ap some (round_keeps b e r))
]
  where
    fuel_left : (k : ℕ) → e / 2 ≢ 0 → e / 2 < 2 ^ k → 0 < k
    fuel_left zero p q = absurd (p (omega arith))
    fuel_left (suc k) p q = omega arith

-- For every exponent that a `uint32_t` holds the loop ends, and `ipow` returns the power of the
-- numbers reduced modulo 2 ^ 32.
pub ipow_lem : (b e : ℕ) → e < 2 ^ 32 → ipow b e ≡ some (u32 (b ^ e))
unfolding ipow
ipow_lem b e h = ipow_loop_lem 32 b e 1 h (omega arith) (omega arith) ∙ ap some (omega arith)
