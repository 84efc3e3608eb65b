-- ===== src/Print/Debug/Plain.antt =====
-- Texts that stand for themselves as a format.
use mathlib.Core.Option
use drewos.Base.{ℕ, ◌^◌, ◌<◌, ◌≡◌, ◌≢◌, refl, ap, ◌∙◌, arith, some, if_holds}
use drewos.Base.{Bool, true, ltb, ◌&&◌, List, [], ◌∷◌, ◌++◌, map}
use drewos.Math.{is_negative, abs}
use drewos.Util.{digit_code}
use drewos.Util.Digits.{AllBelow}
use drewos.Util.Itoa.{sign, number_text, numeral, numeral-IsNumeral, abs-lt}
use drewos.Print.Format.{render}

pub record PlainCode (c : ℕ) : Type 0 where
  pub not_nul : c ≢ 0
  pub not_percent : c ≢ b'%'
  pub byte : c < 256

-- A text that a format may hold: no NUL, no `%`, and bytes only.
abbrev IsPlain : List ℕ → Type 0
IsPlain [] = Unit
IsPlain (c ∷ t) = PlainCode c × IsPlain t

IsPlain-append : (a b : List ℕ) → IsPlain a → IsPlain b → IsPlain (a ++ b)
IsPlain-append [] b p q = q
IsPlain-append (c ∷ a) b p q = (p.0, IsPlain-append a b p.1 q)

pub IsPlain-AllBelow : (t : List ℕ) → IsPlain t → AllBelow 256 t
IsPlain-AllBelow [] p = tt
IsPlain-AllBelow (c ∷ t) p = (p.0.byte, IsPlain-AllBelow t p.1)

abbrev are_bytes : List ℕ → Bool
are_bytes [] = true
are_bytes (c ∷ t) = ltb c 256 && are_bytes t

pub are_bytes-AllBelow : (t : List ℕ) → are_bytes t ≡ true → AllBelow 256 t
are_bytes-AllBelow [] h = tt
are_bytes-AllBelow (c ∷ t) h = (ground arith, are_bytes-AllBelow t (ground arith))

pub AllBelow-append : (a b : List ℕ) → AllBelow 256 a → AllBelow 256 b → AllBelow 256 (a ++ b)
AllBelow-append [] b p q = q
AllBelow-append (c ∷ a) b p q = (p.0, AllBelow-append a b p.1 q)

-- A character that is no conversion stands for itself.
render-code :
    (c d : ℕ) (msg : List ℕ)
    → PlainCode c
    → render (c ∷ d ∷ msg) [] ≡ Option.map (λ t. c ∷ t) (render (d ∷ msg) [])
unfolding render
render-code c d msg p = ground (arith, p.not_nul, p.not_percent)

-- A buffer with a plain text in front of a NUL is a format that stands for this text.
pub render-IsPlain : (t rest : List ℕ) → IsPlain t → render (t ++ 0 ∷ rest) [] ≡ some t
render-IsPlain [] [] p = unfold render in refl
render-IsPlain [] (d ∷ rest) p = unfold render in refl
render-IsPlain (c ∷ []) rest p =
    render-code c 0 rest p.0 ∙ ap (Option.map (λ u. c ∷ u)) (render-IsPlain [] rest tt)
render-IsPlain (c ∷ d ∷ t) rest p =
    render-code c d (t ++ 0 ∷ rest) p.0
    ∙ ap (Option.map (λ u. c ∷ u)) (render-IsPlain (d ∷ t) rest p.1)

digits-IsPlain : (ds : List ℕ) → AllBelow 10 ds → IsPlain (map digit_code ds)
digits-IsPlain [] h = tt
digits-IsPlain (d ∷ ds) h = (
  record {
    not_nul = ground (arith, h.0);
    not_percent = ground (arith, h.0);
    byte = ground (arith, h.0);
  },
  digits-IsPlain ds h.1,
)

sign-IsPlain : (x : ℕ) → IsPlain (sign x)
sign-IsPlain x =
    if_holds IsPlain (is_negative x)
      (record { not_nul = omega arith; not_percent = omega arith; byte = omega arith }, tt) tt

pub number_text-IsPlain : (x : ℕ) → x < 2 ^ 32 → IsPlain (number_text 10 x)
number_text-IsPlain x h =
    IsPlain-append (sign x ++ []) (map digit_code (numeral 10 (abs x)))
      (IsPlain-append (sign x) [] (sign-IsPlain x) tt)
      (digits-IsPlain (numeral 10 (abs x))
        (numeral-IsNumeral 10 (abs x) (omega arith) (abs-lt x h)).proper)
