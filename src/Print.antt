-- ===== src/Print.antt =====
-- src/driver/vga.c, formatted printing: `_cprint`, `cprint`, `_cprintln`, `cprintln`, `print` and
-- `println`. A format is the list of its characters up to the NUL. `none` is undefined behaviour: a
-- read behind the end of the format, or a `va_arg` with no argument of its type.
pub mod Format
pub mod Convert
pub mod Render
pub mod Text
pub mod Frame
pub mod Debug
pub mod Terminal
use drewos.Base.{
  ℕ, Option, none, some, List, [], ◌∷◌, ◌==◌, if◌then◌else◌, true, false, u8, replicate,
}
use drewos.Util.{itoa, itoh}
use drewos.Screen.{Screen, write_char}
use drewos.Screen.Palette.{Colour, white, black}

-- An argument behind the format: a word, as its bit pattern, or a string.
pub data Arg : Type 0 where
  int : ℕ → Arg
  str : List ℕ → Arg

infixl 5 ◌>>=◌
abbrev pub ◌>>=◌ : {A B : Type 0} → Option A → (A → Option B) → Option B
none >>= f = none
some a >>= f = f a

-- `va_arg` at the type `int` or `int32_t`, and at `char *`.
abbrev pub next_int : List Arg → Option (ℕ × List Arg)
next_int (int n ∷ args) = some (n, args)
next_int _ = none

abbrev pub next_str : List Arg → Option (List ℕ × List Arg)
next_str (str s ∷ args) = some (s, args)
next_str _ = none

-- `char buf[bufsize]` with `bufsize` 32. Its first contents are unspecified in C; `itoa` overwrites
-- what is read.
abbrev pub number_buffer : List ℕ
number_buffer = replicate 32 0

module _ (fg bg : Colour) where
  -- The loops that write the characters up to the NUL.
  pub write_string : List ℕ → Screen → Screen
  write_string [] s = s
  write_string (c ∷ text) s = if c == 0 then s else write_string text (write_char c fg bg s)

  -- The cases `c` and `s` of the `switch`.
  convert_char : List Arg → Screen → Option (List Arg × Screen)
  convert_char args s = do (n, rest) ← next_int args; some (rest, write_char (u8 n) fg bg s)

  convert_string : List Arg → Screen → Option (List Arg × Screen)
  convert_string args s = do (text, rest) ← next_str args; some (rest, write_string text s)

  -- The cases `d` and `x`, with `itoa` and `itoh`.
  convert_number :
      (ℕ → List ℕ → ℕ → Option (ℕ × List ℕ)) → List Arg → Screen → Option (List Arg × Screen)
  convert_number to_text args s = do
    (n, rest) ← next_int args
    (ret, buf) ← to_text n number_buffer 32
    some (rest, write_string buf s)

  -- The `switch` on the character behind `%`. Any other character is passed over.
  pub convert : ℕ → List Arg → Screen → Option (List Arg × Screen)
  convert c args s =
      if c == b'%'
      then some (args, write_char b'%' fg bg s)
      else if c == b'c'
      then convert_char args s
      else if c == b's'
      then convert_string args s
      else if c == b'd'
      then convert_number itoa args s
      else if c == b'x'
      then convert_number itoh args s
      else some (args, s)

  -- The `while` of `_cprint`. A `%` at the end takes the NUL for its specifier, and the loop reads on
  -- behind it.
  pub print_format : List ℕ → List Arg → Screen → Option Screen
  print_format [] args s = some s
  print_format (c ∷ []) args s =
      if c == 0 then some s else if c == b'%' then none else some (write_char c fg bg s)
  print_format (c ∷ d ∷ msg) args s =
      let converted = convert d args s >>= λ r. print_format msg r.0 r.1 in
      let plain = print_format (d ∷ msg) args (write_char c fg bg s) in
      if c == 0 then some s else if c == b'%' then converted else plain

  -- `_cprint`, to which `cprint` adds the `va_list` alone. The format `none` is the null pointer.
  unfoldable pub cprint : Option (List ℕ) → List Arg → Screen → Option Screen
  cprint none args s = some s
  cprint (some msg) args s = print_format msg args s

  -- `_cprintln`, and `cprintln` likewise.
  unfoldable pub cprintln : Option (List ℕ) → List Arg → Screen → Option Screen
  cprintln msg args s = do s' ← cprint msg args s; some (write_char b'\n' fg bg s')

unfoldable pub println : Option (List ℕ) → List Arg → Screen → Option Screen
println = cprintln white black

unfoldable pub print : Option (List ℕ) → List Arg → Screen → Option Screen
print = cprint white black
