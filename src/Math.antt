-- ===== src/Math.antt =====
-- src/kernel/dmath.c: the integer functions. `log` works on doubles and is not modelled.
pub mod Log
pub mod Pow
use drewos.Base.{ℕ, zero, suc, ◌+◌, ◌-◌, ◌*◌, ◌/◌, ◌%◌, ◌^◌, Bool, Option, none, some}
use drewos.Base.{ltb, leb, ◌==◌, if◌then◌else◌, u32}

-- The `while (1)` of `ipow` on fuel: `none` is a loop that has not ended. `exponent & 1` and
-- `exponent >>= 1` on an unsigned number are the remainder and the quotient by 2.
unfoldable pub ipow_loop : ℕ → ℕ → ℕ → ℕ → Option ℕ
ipow_loop zero base exponent result = none
ipow_loop (suc fuel) base exponent result =
    let result' : ℕ = if exponent % 2 == 1 then u32 (result * base) else result in
    let exponent' : ℕ = exponent / 2 in
    let rest = ipow_loop fuel (u32 (base * base)) exponent' result' in
    if exponent' == 0 then some result' else rest

-- A `uint32_t` has 32 bits, and each round drops one.
unfoldable pub ipow : ℕ → ℕ → Option ℕ
unfolding ipow_loop
ipow base exponent = ipow_loop 32 base exponent 1

-- The `for` of `ilog` on fuel.
unfoldable pub ilog_loop : ℕ → ℕ → ℕ → ℕ → Option ℕ
ilog_loop zero base x result = none
ilog_loop (suc fuel) base x result =
    let rest = ilog_loop fuel base (x / base) (u32 (result + 1)) in
    if leb base x then rest else some result

unfoldable pub ilog : ℕ → ℕ → Option ℕ
unfolding ilog_loop
ilog base x = ilog_loop 33 base x 0

-- An `int32_t` is its bit pattern, below 2 ^ 32; the negative ones start at 2 ^ 31.
abbrev pub is_negative : ℕ → Bool
is_negative x = leb (2 ^ 31) x

-- `-x` on the bit pattern.
abbrev pub negate : ℕ → ℕ
negate x = u32 (2 ^ 32 - x)

abbrev pub abs : ℕ → ℕ
abs x = if is_negative x then negate x else x
