-- ===== src/Util/Digits.antt =====
-- Numerals: digits, most significant first, and the number that they stand for.
use native.Mathlib.Nat.{pow-suc, pow-zero, mod-lt, div-lt_iff_lt-mul, div-add-mod', one-le-pow}
use native.Mathlib.Nat.{le-div_iff_mul-le}
use drewos.Base.{ℕ, zero, suc, ◌+◌, ◌*◌, ◌/◌, ◌%◌, ◌^◌, ◌≤◌, ◌<◌, ◌≡◌, ◌≢◌, refl, ap, ◌∙◌, arith}
use drewos.Base.{List, [], ◌∷◌, length, ◌⊎◌, inl, inr}

-- The `k` last digits of `x` in base `b`.
abbrev pub digits : ℕ → ℕ → ℕ → List ℕ
digits b zero x = []
digits b (suc j) x = (x / b ^ j) ∷ digits b j (x % b ^ j)

-- The number that digits spell behind `acc`.
abbrev pub value : ℕ → ℕ → List ℕ → ℕ
value b acc [] = acc
value b acc (d ∷ ds) = value b (acc * b + d) ds

abbrev pub AllBelow : ℕ → List ℕ → Type 0
AllBelow b [] = Unit
AllBelow b (d ∷ ds) = (d < b) × AllBelow b ds

-- No zero in front, but for the numeral that is one digit.
abbrev pub NoLeadingZero : List ℕ → Type 0
NoLeadingZero [] = ⊥
NoLeadingZero (d ∷ ds) = (ds ≡ []) ⊎ (d ≢ 0)

-- `ds` is the numeral of `x` in base `b`.
pub record IsNumeral (b x : ℕ) (ds : List ℕ) : Type 0 where
  pub proper : AllBelow b ds
  pub spells : value b 0 ds ≡ x
  pub shortest : NoLeadingZero ds

pub length-digits : (b k x : ℕ) → length (digits b k x) ≡ k
length-digits b zero x = refl
length-digits b (suc j) x = ap suc (length-digits b j (x % b ^ j))

regroup : (b j acc x : ℕ) → (acc * b + x / b ^ j) * b ^ j + x % b ^ j ≡ acc * b ^ suc j + x
regroup b j acc x = omega (arith, ap (λ (t : ℕ). acc * t) (pow-suc b j), div-add-mod' x (b ^ j))

leads : (b : ℕ) → 0 < b → (j x : ℕ) → (b ^ j ≤ x) ⊎ (j ≡ 0) → NoLeadingZero (digits b (suc j) x)
leads b pos zero x lead = inl refl
leads b pos (suc j) x (inr e) = absurd (omega arith)
leads b pos (suc j) x (inl h) = inr (λ z. absurd (omega (arith, at_least)))
  where
    at_least : 1 ≤ x / b ^ suc j
    at_least = (le-div_iff_mul-le (one-le-pow (suc j) b pos)).1 (omega arith)

module _ (b : ℕ) (pos : 0 < b) where
  digits-AllBelow : (k x : ℕ) → x < b ^ k → AllBelow b (digits b k x)
  digits-AllBelow zero x h = tt
  digits-AllBelow (suc j) x h = (
    (div-lt_iff_lt-mul (one-le-pow j b pos)).1 (omega (arith, pow-suc b j)),
    digits-AllBelow j (x % b ^ j) (mod-lt x (one-le-pow j b pos)),
  )

  value-digits : (k acc x : ℕ) → x < b ^ k → value b acc (digits b k x) ≡ acc * b ^ k + x
  value-digits zero acc x h = omega (arith, pow-zero b, ap (λ (t : ℕ). acc * t) (pow-zero b))
  value-digits (suc j) acc x h =
      value-digits j (acc * b + x / b ^ j) (x % b ^ j) (mod-lt x (one-le-pow j b pos))
      ∙ regroup b j acc x

  pub digits-IsNumeral :
      (j x : ℕ) → x < b ^ suc j → (b ^ j ≤ x) ⊎ (j ≡ 0) → IsNumeral b x (digits b (suc j) x)
  digits-IsNumeral j x h lead = record {
    proper = digits-AllBelow (suc j) x h;
    spells = value-digits (suc j) 0 x h ∙ omega arith;
    shortest = leads b pos j x lead;
  }
