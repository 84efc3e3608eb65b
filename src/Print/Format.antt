-- ===== src/Print/Format.antt =====
-- What a format and its arguments stand for.
use mathlib.Core.Option
use drewos.Base.{ℕ, ◌^◌, ◌<◌, Option, none, some}
use drewos.Base.{List, [], ◌∷◌, ◌++◌, ◌==◌, if◌then◌else◌, u8}
use drewos.Util.Itoa.{number_text}
use drewos.Util.Strlen.{until_nul}
use drewos.Print.{Arg, int, str, next_int, next_str, ◌>>=◌}

-- The text of one conversion and the arguments that are left: a literal `%`, a character, a string,
-- a decimal or a hexadecimal number; any other specifier stands for nothing.
unfoldable pub expand : ℕ → List Arg → Option (List ℕ × List Arg)
expand c args =
    if c == b'%'
    then some (b'%' ∷ [], args)
    else if c == b'c'
    then Option.map (λ r. (u8 r.0 ∷ [], r.1)) (next_int args)
    else if c == b's'
    then Option.map (λ r. (until_nul r.0, r.1)) (next_str args)
    else if c == b'd'
    then Option.map (λ r. (number_text 10 r.0, r.1)) (next_int args)
    else if c == b'x'
    then Option.map (λ r. (number_text 16 r.0, r.1)) (next_int args)
    else some ([], args)

-- `none` is a format that ends in the middle of a conversion, or that wants an argument which is
-- not there.
unfoldable pub render : List ℕ → List Arg → Option (List ℕ)
render [] args = some []
render (c ∷ []) args = if c == 0 then some [] else if c == b'%' then none else some (c ∷ [])
render (c ∷ d ∷ msg) args =
    let converted = expand d args >>= λ r. Option.map (λ t. r.0 ++ t) (render msg r.1) in
    let plain = Option.map (λ t. c ∷ t) (render (d ∷ msg) args) in
    if c == 0 then some [] else if c == b'%' then converted else plain

-- Every word among the arguments is a bit pattern of 32 bits.
abbrev pub AreWords : List Arg → Type 0
AreWords [] = Unit
AreWords (int n ∷ args) = (n < 2 ^ 32) × AreWords args
AreWords (str t ∷ args) = AreWords args
