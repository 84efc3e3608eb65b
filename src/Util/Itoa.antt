-- ===== src/Util/Itoa.antt =====
-- What `_itoa` prints, for every number and base, and when it refuses.
use mathlib.Core.Option
use native.Mathlib.Nat.{mod-eq_of_lt, pow-zero, pow-le-pow_left, pow-le-pow_right}
use drewos.Base.{ℕ, suc, ◌+◌, ◌-◌, ◌^◌, ◌≤◌, ◌<◌, ◌≡◌, refl, ap, sym, ◌∙◌, arith, inl, inr}
use drewos.Base.{List, [], ◌∷◌, ◌++◌, map, length, length-append, set, some, u32}
use drewos.Base.{leb, if◌then◌else◌, Bool-cases}
use drewos.Math.{is_negative, abs, ilog, ipow}
use drewos.Math.Log.{IsLog, ilog_lem}
use drewos.Math.Pow.{ipow_lem}
use drewos.Util.{
  get_prefix, digit_code, sign_len, out_size, put_sign, put_prefix, put_digits, fill, itoa_base,
}
use drewos.Util.Digits.{digits, length-digits, IsNumeral, digits-IsNumeral}
use drewos.Util.Buffer.{written, set-written, put_prefix-written, put_digits-written}

abbrev pub sign : ℕ → List ℕ
sign x = if is_negative x then b'-' ∷ [] else []

-- The characters that stand for a number whose digits are given.
abbrev pub numeral_text : ℕ → ℕ → List ℕ → List ℕ
numeral_text x base ds = (sign x ++ (get_prefix base).1) ++ map digit_code ds

length-prefix : (base : ℕ) → length (get_prefix base).1 ≡ (get_prefix base).0
length-prefix base = ground arith

length-sign : (x : ℕ) → length (sign x) ≡ sign_len x
length-sign x = ground arith

length-map : (ds : List ℕ) → length (map digit_code ds) ≡ length ds
length-map [] = refl
length-map (d ∷ ds) = ap suc (length-map ds)

length-text :
    (x base : ℕ) (ds : List ℕ)
    → length (numeral_text x base ds) ≡ sign_len x + (get_prefix base).0 + length ds
length-text x base ds = omega (
  arith,
  length-append (sign x ++ (get_prefix base).1) (map digit_code ds),
  length-append (sign x) (get_prefix base).1,
  length-prefix base,
  length-sign x,
  length-map ds,
)

put_sign-written : (x : ℕ) (buf : List ℕ) → 0 < length buf → put_sign x buf ≡ written (sign x) buf
put_sign-written x [] h = absurd (omega arith)
put_sign-written x (c ∷ buf) h = elim (Bool-cases (is_negative x)) [ inl e ↦ rw e | inr e ↦ rw e ]

-- The body behind the early return writes the text, and a NUL behind it.
fill-written :
    (x base j : ℕ) (buf : List ℕ)
    → 0 < base
    → let text = numeral_text x base (digits base (suc j) (abs x)) in
      length text < length buf
      → fill x base (length text) (base ^ j) buf ≡ written (text ++ (0 ∷ [])) buf
unfolding fill
fill-written x base j buf pos fits =
    ap
      (λ b.
        set (put_digits (length text - offset) base offset (abs x) (base ^ j) b) (length text) 0)
      prefixed
    ∙ ap
        (λ k. set (put_digits k base offset (abs x) (base ^ j) (written front buf)) (length text) 0)
        {x = length text - offset} {y = suc j}
        (omega (arith, length-text x base ds, length-digits base (suc j) (abs x)))
    ∙ ap (λ b. set b (length text) 0)
        (put_digits-written buf base pos (suc j) (abs x) (base ^ j) front offset
          (λ j' e. ap (λ t. base ^ t) (omega arith)) (sym length-front)
          (omega (arith, length-front, length-text x base ds, length-digits base (suc j) (abs x))))
    ∙ set-written text buf 0 fits
  where
    ds : List ℕ
    ds = digits base (suc j) (abs x)

    text : List ℕ
    text = numeral_text x base ds

    front : List ℕ
    front = sign x ++ (get_prefix base).1

    offset : ℕ
    offset = sign_len x + (get_prefix base).0

    length-front : length front ≡ offset
    length-front =
        omega (arith, length-append (sign x) (get_prefix base).1, length-prefix base, length-sign x)

    prefixed : put_prefix (get_prefix base).1 (sign_len x) (put_sign x buf) ≡ written front buf
    prefixed =
        ap (put_prefix (get_prefix base).1 (sign_len x)) (put_sign-written x buf (omega arith))
        ∙ put_prefix-written buf (get_prefix base).1 (sign x) (sign_len x) (sym (length-sign x)) (
            omega (
              arith,
              length-front,
              length-append (sign x) (get_prefix base).1,
              length-text x base ds,
            ))

-- The power in front of the first digit fits 32 bits.
power_fits : (base x n : ℕ) → x < 2 ^ 32 → IsLog base x n → base ^ n < 2 ^ 32
power_fits base x n h (up, inl low) = omega arith
power_fits base x n h (up, inr z) = rw (z, pow-zero) (omega arith)

pub abs-lt : (x : ℕ) → x < 2 ^ 32 → abs x < 2 ^ 32
abs-lt x h = ground arith

sign_len-le : (x : ℕ) → sign_len x ≤ 1
sign_len-le x = ground arith

get_prefix-le : (base : ℕ) → (get_prefix base).0 ≤ 2
get_prefix-le base = ground arith

-- The return value and the buffer, when the digits are known.
abbrev pub printed : List ℕ → List ℕ → ℕ → ℕ × List ℕ
printed text buf bufsize =
    if leb bufsize (length text) then (length text, buf) else (0, written (text ++ (0 ∷ [])) buf)

out_size-text :
    (x base n : ℕ)
    → n ≤ 32
    → out_size x base (u32 (1 + n)) ≡ length (numeral_text x base (digits base (suc n) (abs x)))
unfolding out_size
out_size-text x base n h = omega (
  arith,
  length-text x base (digits base (suc n) (abs x)),
  length-digits base (suc n) (abs x),
  get_prefix-le base,
  out_size_sum,
)
  where
    out_size_sum : out_size x base (u32 (1 + n)) ≡ suc n + (get_prefix base).0 + sign_len x
    out_size_sum = ground (arith, get_prefix-le base)

itoa_base-run :
    (x base n : ℕ) (buf : List ℕ) (bufsize : ℕ)
    → x < 2 ^ 32
    → 0 < base
    → n ≤ 32
    → bufsize ≤ length buf
    → ilog base (abs x) ≡ some n
    → IsLog base (abs x) n
    → itoa_base x base buf bufsize
      ≡ some (printed (numeral_text x base (digits base (suc n) (abs x))) buf bufsize)
unfolding itoa_base
itoa_base-run x base n buf bufsize hx pos hn fits log_is log =
    rw (log_is, out_size-text x base n hn)
      elim (Bool-cases (leb bufsize size)) [
        | inl short ↦ rw short
        | inr enough ↦
            rw (enough, magnitude)
              (ap (λ b. some (0, b)) (fill-written x base n buf pos (ground arith)))
      ]
  where
    size : ℕ
    size = length (numeral_text x base (digits base (suc n) (abs x)))

    magnitude : ipow base (u32 (1 + n) - 1) ≡ some (base ^ n)
    magnitude =
        ap (ipow base) (omega arith)
        ∙ ipow_lem base n (omega arith)
        ∙ ap some (mod-eq_of_lt (power_fits base (abs x) n (abs-lt x hx) log))

-- The digits of the numeral of `x`: one more than its logarithm.
abbrev pub numeral : ℕ → ℕ → List ℕ
numeral base x = digits base (suc (Option.get_or (ilog base x) 0)) x

-- The minus sign, prefix and numeral that stand for the bit pattern `x`.
abbrev pub number_text : ℕ → ℕ → List ℕ
number_text base x = numeral_text x base (numeral base (abs x))

-- For every 32-bit number and base from 2, `numeral` has the digits of the number: each is below the
-- base, together they spell it, and no zero stands in front.
pub numeral-IsNumeral : (base x : ℕ) → 2 ≤ base → x < 2 ^ 32 → IsNumeral base x (numeral base x)
numeral-IsNumeral base x big hx =
    let (n, log_is, hn, log) = ilog_lem base big x hx in
    rw log_is (digits-IsNumeral base (omega arith) n x log.0 log.1)

-- `_itoa` returns, and prints the number's text where it fits.
pub itoa_base_lem :
    (x base : ℕ) (buf : List ℕ) (bufsize : ℕ)
    → x < 2 ^ 32
    → 2 ≤ base
    → bufsize ≤ length buf
    → itoa_base x base buf bufsize ≡ some (printed (number_text base x) buf bufsize)
itoa_base_lem x base buf bufsize hx big fits =
    let (n, log_is, hn, log) = ilog_lem base big (abs x) (abs-lt x hx) in
    rw log_is (itoa_base-run x base n buf bufsize hx (omega arith) hn fits log_is log)

few_digits : (base x n : ℕ) → 10 ≤ base → x < 2 ^ 32 → IsLog base x n → n ≤ 9
few_digits base x n big hx (up, inr z) = omega arith
few_digits base x n big hx (up, inl low) = elim (Bool-cases (leb n 9)) [
  | inl h ↦ ground arith
  | inr h ↦
      let many : 10 ≤ n = ground arith in
      let grows : 10 ^ 10 ≤ 10 ^ n = pow-le-pow_right (omega arith) many in
      absurd (omega (arith, grows, pow-le-pow_left big n))
]

-- From base 10 on, sign, prefix and digits of a 32-bit number are at most 13 characters.
pub length-number_text : (base x : ℕ) → 10 ≤ base → x < 2 ^ 32 → length (number_text base x) ≤ 13
length-number_text base x big hx =
    let (n, log_is, hn, log) = ilog_lem base (omega arith) (abs x) (abs-lt x hx) in
    rw log_is (
      omega (
        arith,
        length-text x base (digits base (suc n) (abs x)),
        length-digits base (suc n) (abs x),
        get_prefix-le base,
        sign_len-le x,
        few_digits base (abs x) n big (abs-lt x hx) log,
      ))
