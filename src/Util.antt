-- ===== src/Util.antt =====
-- src/kernel/util.c: `get_prefix`, `_itoa`, `itoa`, `itoh` and `strlen`; `copy_memory` is in Memory.
-- A `char *` is the list of the characters up to its NUL, a buffer is the list of its bytes.
pub mod Digits
pub mod Buffer
pub mod Itoa
pub mod Spelling
pub mod Strlen
use drewos.Base.{ℕ, zero, suc, ◌+◌, ◌-◌, ◌/◌, ◌%◌, ◌^◌, Bool, true, false, ◌||◌, Option, none, some}
use drewos.Base.{List, [], ◌∷◌, ltb, leb, ◌==◌, if◌then◌else◌, u8, u32, set, codes}
use drewos.Math.{ilog, ipow, is_negative, negate, abs}

infixl 5 ◌>>=◌
abbrev ◌>>=◌ : {A B : Type 0} → Option A → (A → Option B) → Option B
none >>= f = none
some a >>= f = f a

abbrev hex_pfx : List ℕ
hex_pfx = codes "0x"

abbrev bin_pfx : List ℕ
bin_pfx = codes "0b"

abbrev oct_pfx : List ℕ
oct_pfx = codes "0a"

abbrev pfx_default : List ℕ
pfx_default = []

-- What `get_prefix` returns, and what it stores through `pfx`.
abbrev pub get_prefix : ℕ → ℕ × List ℕ
get_prefix base =
    if base == 2
    then (2, bin_pfx)
    else if base == 8
    then (2, oct_pfx)
    else if base == 16
    then (2, hex_pfx)
    else (0, pfx_default)

-- `digit + digit_offset` as a character; `digit` is an `int32_t`.
abbrev pub digit_code : ℕ → ℕ
digit_code digit =
    if is_negative digit || ltb digit 10 then u8 (digit + b'0') else u8 (digit + (b'a' - 10))

-- The loop that copies the prefix to `buf[offset++]`.
unfoldable pub put_prefix : List ℕ → ℕ → List ℕ → List ℕ
put_prefix [] offset buf = buf
put_prefix (c ∷ pfx) offset buf = put_prefix pfx (offset + 1) (set buf offset c)

-- The digit loop, with `out_size - offset` rounds left. `x / magnitude` and `x % magnitude` mix an
-- `int32_t` with a `uint32_t`, so they are unsigned, on the bit pattern of `x`.
unfoldable pub put_digits : ℕ → ℕ → ℕ → ℕ → ℕ → List ℕ → List ℕ
put_digits zero base offset x magnitude buf = buf
put_digits (suc left) base offset x magnitude buf =
    put_digits left base (offset + 1) (x % magnitude) (magnitude / base)
      (set buf offset (digit_code (x / magnitude)))

-- `offset` after the sign, which is one character for a negative number.
abbrev pub sign_len : ℕ → ℕ
sign_len x = if is_negative x then 1 else 0

abbrev pub put_sign : ℕ → List ℕ → List ℕ
put_sign x buf = if is_negative x then set buf 0 b'-' else buf

-- The part of `_itoa` behind its early return: sign, prefix, digits, NUL. The number that goes on
-- to the digits is `x`, or `-x` behind a sign.
unfoldable pub fill : ℕ → ℕ → ℕ → ℕ → List ℕ → List ℕ
unfolding put_prefix put_digits
fill x base size magnitude buf =
    let (pfx_len, pfx) = get_prefix base in
    let offset : ℕ = sign_len x + pfx_len in
    let prefixed = put_prefix pfx (sign_len x) (put_sign x buf) in
    let digits = put_digits (size - offset) base offset (abs x) magnitude prefixed in
    set digits size 0

-- `out_size`: the digits, the prefix, and one more for a negative number.
unfoldable pub out_size : ℕ → ℕ → ℕ → ℕ
out_size x base ndigit =
    let size = u32 (ndigit + (get_prefix base).0) in if is_negative x then u32 (size + 1) else size

-- The return value, and the buffer afterwards. `none` is a loop that does not end.
unfoldable pub itoa_base : ℕ → ℕ → List ℕ → ℕ → Option (ℕ × List ℕ)
unfolding fill out_size
itoa_base x base buf bufsize = do
  logarithm ← ilog base (abs x)
  let ndigit = u32 (1 + logarithm)
  let size = out_size x base ndigit
  if leb bufsize size
      then some (size, buf)
      else do magnitude ← ipow base (ndigit - 1); some (0, fill x base size magnitude buf)

unfoldable pub itoa : ℕ → List ℕ → ℕ → Option (ℕ × List ℕ)
unfolding itoa_base
itoa x buf bufsize = itoa_base x 10 buf bufsize

unfoldable pub itoh : ℕ → List ℕ → ℕ → Option (ℕ × List ℕ)
unfolding itoa_base
itoh x buf bufsize = itoa_base x 16 buf bufsize

-- `maxlen - len` rounds are left.
pub count_chars : List ℕ → ℕ → ℕ → ℕ
count_chars [] left len = len
count_chars (c ∷ s) zero len = len
count_chars (c ∷ s) (suc left) len = if c == 0 then len else count_chars s left (len + 1)

-- `none` is the null pointer.
pub strlen : Option (List ℕ) → ℕ → ℕ
unfolding count_chars
strlen none maxlen = 0
strlen (some s) maxlen = count_chars s maxlen 0
