-- ===== src/Base/Order.antt =====
-- Products and powers under a modulus, and products under an order.
use Prim.Native.Nat.{ℕ, zero, suc, ◌+◌, ◌*◌, ◌/◌, ◌%◌, ◌^◌}
use mathlib.Core.Path.{◌≡◌, sym, ap, ◌≡⟨◌⟩◌, ◌∎}
use native.Mathlib.Nat.{pow-suc, div-add-mod, mul-add-mod_self_left, mul_assoc, mul_comm}
use native.Mathlib.Nat.{mul_right_comm, pow-succ', pow-zero}
use native.Mathlib.Omega.{arith}

-- `(b * b) ^ k` is `b` to the double of `k`.
pub pow-mul_self : (b k : ℕ) → (b * b) ^ k ≡ b ^ (2 * k)
pow-mul_self b zero = simp pow-zero
pow-mul_self b (suc k) =
    (b * b) ^ suc k
    ≡⟨ pow-suc (b * b) k ⟩ (b * b) ^ k * (b * b)
    ≡⟨ ap (λ (t : ℕ). t * (b * b)) (pow-mul_self b k) ⟩ b ^ (2 * k) * (b * b)
    ≡⟨ sym (mul_assoc (b ^ (2 * k)) b b) ⟩ b ^ (2 * k) * b * b
    ≡⟨ ap (λ (t : ℕ). t * b) (sym (pow-suc b (2 * k))) ⟩ b ^ suc (2 * k) * b
    ≡⟨ sym (pow-suc b (suc (2 * k))) ⟩ b ^ suc (suc (2 * k))
    ≡⟨ ap (λ (t : ℕ). b ^ t) (omega arith) ⟩ b ^ (2 * suc k) ∎

-- A factor may be reduced first.
pub mul-mod_left : (m a b : ℕ) → a % m * b % m ≡ a * b % m
mul-mod_left m a b =
    a % m * b % m
    ≡⟨ sym (mul-add-mod_self_left m (a / m * b) (a % m * b)) ⟩ (m * (a / m * b) + a % m * b) % m
    ≡⟨ ap (λ (t : ℕ). t % m) (omega (arith, ap (λ (t : ℕ). t * b) (div-add-mod a m))) ⟩ a * b % m ∎

pub mul-mod_right : (m a b : ℕ) → a * (b % m) % m ≡ a * b % m
mul-mod_right m a b = rw (mul_comm a (b % m), mul-mod_left, mul_comm a b)

-- So may the base of a power.
pub mul-pow-mod : (m r b k : ℕ) → r * (b % m) ^ k % m ≡ r * b ^ k % m
mul-pow-mod m r b zero = simp pow-zero
mul-pow-mod m r b (suc k) =
    r * (b % m) ^ suc k % m
    ≡⟨ ap (λ (t : ℕ). r * t % m) (pow-succ' (b % m) k) ⟩ r * (b % m * (b % m) ^ k) % m
    ≡⟨ ap (λ (t : ℕ). t % m) (sym (mul_assoc r (b % m) ((b % m) ^ k))) ⟩
      r * (b % m) * (b % m) ^ k % m
    ≡⟨ mul-pow-mod m (r * (b % m)) b k ⟩ r * (b % m) * b ^ k % m
    ≡⟨ ap (λ (t : ℕ). t % m) (mul_right_comm r (b % m) (b ^ k)) ⟩ r * b ^ k * (b % m) % m
    ≡⟨ mul-mod_right m (r * b ^ k) b ⟩ r * b ^ k * b % m
    ≡⟨ ap (λ (t : ℕ). t % m) (mul_assoc r (b ^ k) b) ⟩ r * (b ^ k * b) % m
    ≡⟨ ap (λ (t : ℕ). r * t % m) (sym (pow-suc b k)) ⟩ r * b ^ suc k % m ∎

pub pow-one : (b : ℕ) → b ^ 1 ≡ b
pow-one b = omega (arith, pow-suc b 0, ap (λ (t : ℕ). t * b) (pow-zero b))
