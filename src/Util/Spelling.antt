-- ===== src/Util/Spelling.antt =====
-- The text that `_itoa` prints, apart from the code.
use mathlib.Core.Path.{subst}
use drewos.Base.{
  ℕ, ◌+◌, ◌-◌, ◌%◌, ◌^◌, ◌≤◌, ◌<◌, ◌≡◌, refl, ap, ◌∙◌, arith, List, [], ◌∷◌, ◌++◌, map, length,
  some,
}
use drewos.Base.{codes, ltb, leb, ◌==◌, if◌then◌else◌}
use drewos.Math.{abs}
use drewos.Util.{get_prefix, digit_code, itoa_base}
use drewos.Util.Digits.{AllBelow, IsNumeral}
use drewos.Util.Itoa.{numeral_text, numeral, abs-lt, printed, numeral-IsNumeral, itoa_base_lem}

-- The text that a number stands for, apart from the code.
abbrev pub minus_sign : ℕ → List ℕ
minus_sign x = if leb 2147483648 x then codes "-" else []

abbrev pub prefix_text : ℕ → List ℕ
prefix_text base =
    if base == 16
    then codes "0x"
    else if base == 8
    then codes "0a"
    else if base == 2
    then codes "0b"
    else []

-- The digits are 0 to 9, and from 10 on `a` and the characters behind it, modulo 256.
abbrev pub character : ℕ → ℕ
character d = if ltb d 10 then 48 + d else (97 + (d - 10)) % 256

abbrev pub absolute : ℕ → ℕ
absolute x = if leb 2147483648 x then 4294967296 - x else x

abbrev pub spelling : ℕ → ℕ → List ℕ → List ℕ
spelling x base ds = (minus_sign x ++ prefix_text base) ++ map character ds

digit_code-character : (d : ℕ) → d < 256 → digit_code d ≡ character d
digit_code-character d h = ground arith

digits-characters :
    (base : ℕ) (ds : List ℕ) → base ≤ 256 → AllBelow base ds → map digit_code ds ≡ map character ds
digits-characters base [] h below = refl
digits-characters base (d ∷ ds) h below =
    rw (digit_code-character d (omega (arith, below.0)), digits-characters base ds h below.1) refl

get_prefix-text : (base : ℕ) → (get_prefix base).1 ≡ prefix_text base
get_prefix-text base = ground arith

abs-absolute : (x : ℕ) → x < 2 ^ 32 → abs x ≡ absolute x
abs-absolute x h = ground arith

numeral_text-spelling :
    (x base : ℕ) (ds : List ℕ)
    → base ≤ 256
    → AllBelow base ds
    → numeral_text x base ds ≡ spelling x base ds
numeral_text-spelling x base ds h below =
    rw (get_prefix-text base, digits-characters base ds h below) refl

-- For every 32-bit number, base from 2 to 255 and buffer of at least the size given, `_itoa` returns.
-- There is a numeral of the absolute value (digits below the base that spell it, with no zero in
-- front) whose text is a minus sign for a number from 2 ^ 31 on, then `0x` for base 16, `0a` for base
-- 8, `0b` for base 2 and nothing for others, then the digits, which are the characters 0 to 9 and
-- from 10 on those from `a` on. If that text fits the size together with a NUL, the call returns 0
-- and has written the text and the NUL over the front of the buffer and changed nothing behind;
-- otherwise it returns the length of the text and has left the buffer alone.
pub itoa_base-IsNumeral :
    (x base : ℕ) (buf : List ℕ) (bufsize : ℕ)
    → x < 2 ^ 32
    → 2 ≤ base
    → base < 2 ^ 8
    → bufsize ≤ length buf
    → (ds : List ℕ) × IsNumeral base (absolute x) ds
      × (itoa_base x base buf bufsize ≡ some (printed (spelling x base ds) buf bufsize))
itoa_base-IsNumeral x base buf bufsize hx big byte fits =
    let is = numeral-IsNumeral base (abs x) big (abs-lt x hx) in
    (
      numeral base (abs x),
      subst (λ a. IsNumeral base a (numeral base (abs x))) (abs-absolute x hx) is,
      itoa_base_lem x base buf bufsize hx big fits
          ∙ ap (λ t. some (printed t buf bufsize))
              (numeral_text-spelling x base (numeral base (abs x)) (omega arith) is.proper),
    )
