-- ===== src/Print/Text.antt =====
-- Typing a text character by character, and texts with no NUL.
use drewos.Base.{ℕ, ◌^◌, ◌<◌, ◌≤◌, ◌≡◌, ◌≢◌, refl, arith}
use drewos.Base.{List, [], ◌∷◌, ◌++◌, map, ◌==◌, Bool-cases, if_holds, inl, inr}
use drewos.Math.{is_negative, abs}
use drewos.Util.{get_prefix, digit_code}
use drewos.Util.Digits.{AllBelow}
use drewos.Util.Itoa.{sign, number_text, numeral, numeral-IsNumeral}
use drewos.Util.Strlen.{until_nul}
use drewos.Screen.{Screen, write_char}
use drewos.Screen.Palette.{Colour}
use drewos.Print.{write_string}

-- The screen after all characters of a text.
abbrev pub type_text : Colour → Colour → List ℕ → Screen → Screen
type_text fg bg [] s = s
type_text fg bg (c ∷ text) s = type_text fg bg text (write_char c fg bg s)

pub type_text-append :
    (fg bg : Colour) (a b : List ℕ) (s : Screen)
    → type_text fg bg (a ++ b) s ≡ type_text fg bg b (type_text fg bg a s)
type_text-append fg bg [] b s = refl
type_text-append fg bg (c ∷ a) b s = type_text-append fg bg a b (write_char c fg bg s)

-- The loop over a string types what stands in front of its NUL.
pub write_string-until_nul :
    (fg bg : Colour) (text : List ℕ) (s : Screen)
    → write_string fg bg text s ≡ type_text fg bg (until_nul text) s
unfolding write_string
write_string-until_nul fg bg [] s = refl
write_string-until_nul fg bg (c ∷ text) s = elim (Bool-cases (c == 0)) [
  | inl nul ↦ rw nul
  | inr more ↦ rw more (write_string-until_nul fg bg text (write_char c fg bg s))
]

abbrev pub NoNul : List ℕ → Type 0
NoNul [] = Unit
NoNul (c ∷ text) = (c ≢ 0) × NoNul text

NoNul-append : (a b : List ℕ) → NoNul a → NoNul b → NoNul (a ++ b)
NoNul-append [] b p q = q
NoNul-append (c ∷ a) b p q = (p.0, NoNul-append a b p.1 q)

pub until_nul-append : (a b : List ℕ) → NoNul a → until_nul (a ++ 0 ∷ b) ≡ a
until_nul-append [] b p = refl
until_nul-append (c ∷ a) b p = ground (arith, until_nul-append a b p.1)

digits-NoNul : (base : ℕ) (ds : List ℕ) → base ≤ 16 → AllBelow base ds → NoNul (map digit_code ds)
digits-NoNul base [] h p = tt
digits-NoNul base (d ∷ ds) h p = (ground arith, digits-NoNul base ds h p.1)

sign-NoNul : (x : ℕ) → NoNul (sign x)
sign-NoNul x = if_holds NoNul (is_negative x) (omega arith, tt) tt

abbrev HasNoNul : ℕ × List ℕ → Type 0
HasNoNul p = NoNul p.1

prefix-NoNul : (base : ℕ) → NoNul (get_prefix base).1
prefix-NoNul base =
    if_holds HasNoNul (base == 2) (omega arith) (
      if_holds HasNoNul (base == 8) (omega arith) (if_holds HasNoNul (base == 16) (omega arith) tt))

-- The text of a number in base 10 or 16 has no NUL inside.
pub number_text-NoNul :
    (base x : ℕ) → 2 ≤ base → base ≤ 16 → abs x < 2 ^ 32 → NoNul (number_text base x)
number_text-NoNul base x big small hx =
    NoNul-append (sign x ++ (get_prefix base).1) (map digit_code (numeral base (abs x)))
      (NoNul-append (sign x) (get_prefix base).1 (sign-NoNul x) (prefix-NoNul base))
      (digits-NoNul base (numeral base (abs x)) small
        (numeral-IsNumeral base (abs x) big hx).proper)
