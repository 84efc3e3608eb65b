-- ===== src/Print/Convert.antt =====
-- Each conversion of `_cprint` against what it expands to.
use mathlib.Core.List.{append_assoc}
use mathlib.Core.Option
use drewos.Base.{ℕ, ◌^◌, ◌<◌, ◌≤◌, ◌≡◌, ◌∙◌, refl, ap, arith, Option, none, some}
use drewos.Base.{
  List, [], ◌∷◌, ◌++◌, ◌==◌, if◌then◌else◌, if_holds, u8, Bool, true, false, length, drop,
}
use drewos.Util.{itoa, itoh}
use drewos.Util.Buffer.{written}
use drewos.Util.Itoa.{number_text, length-number_text, abs-lt, printed, itoa_base_lem}
use drewos.Util.Strlen.{until_nul}
use drewos.Screen.{Screen}
use drewos.Screen.Palette.{Colour}
use drewos.Print.{Arg, int, str, next_int, next_str, convert, convert_number, convert_char}
use drewos.Print.{convert_string, write_string, number_buffer}
use drewos.Print.Text.{type_text, write_string-until_nul, until_nul-append}
use drewos.Print.Text.{number_text-NoNul}
use drewos.Print.Format.{expand, AreWords}

pub map_if {ℓ κ} :
    {A : Type ℓ} {B : Type κ} (f : A → B) (b : Bool) {p q : Option B} (x y : Option A)
    → p ≡ Option.map f x
    → q ≡ Option.map f y
    → (if b then p else q) ≡ Option.map f (if b then x else y)
map_if f true x y e k = e
map_if f false x y e k = k

pub map-map {ℓ κ μ} :
    {A : Type ℓ} {B : Type κ} {C : Type μ} (f : B → C) (g : A → B) (o : Option A)
    → Option.map (λ a. f (g a)) o ≡ Option.map f (Option.map g o)
map-map f g none = refl
map-map f g (some a) = refl

abbrev Printer : Type 0
Printer = ℕ → List ℕ → ℕ → Option (ℕ × List ℕ)

-- `to_text` prints in base `base`.
abbrev PrintsIn : Printer → ℕ → Type 0
PrintsIn to_text base =
    (x : ℕ) (buf : List ℕ) (bufsize : ℕ)
    → x < 2 ^ 32
    → bufsize ≤ length buf
    → to_text x buf bufsize ≡ some (printed (number_text base x) buf bufsize)

itoa-PrintsIn : PrintsIn itoa 10
unfolding itoa
itoa-PrintsIn x buf bufsize hx fits = itoa_base_lem x 10 buf bufsize hx (omega arith) fits

itoh-PrintsIn : PrintsIn itoh 16
unfolding itoh
itoh-PrintsIn x buf bufsize hx fits = itoa_base_lem x 16 buf bufsize hx (omega arith) fits

-- The 32 bytes of the buffer are enough for every number.
printed-number_buffer :
    (base x : ℕ)
    → 10 ≤ base
    → x < 2 ^ 32
    → printed (number_text base x) number_buffer 32
      ≡ (0, written (number_text base x ++ 0 ∷ []) number_buffer)
printed-number_buffer base x big hx = ground (arith, length-number_text base x big hx)

module _ (fg bg : Colour) where
  convert_number_lem :
      (to_text : Printer) (base n : ℕ) (args : List Arg) (s : Screen)
      → PrintsIn to_text base
      → 10 ≤ base
      → base ≤ 16
      → n < 2 ^ 32
      → convert_number fg bg to_text (int n ∷ args) s
        ≡ some (args, type_text fg bg (number_text base n) s)
  unfolding convert_number
  convert_number_lem to_text base n args s prints big small hn =
      rw (prints n number_buffer 32 hn (omega arith), printed-number_buffer base n big hn)
        (ap (λ t. some (args, t)) typed)
    where
      rest : List ℕ
      rest = drop (length (number_text base n ++ 0 ∷ [])) number_buffer

      typed :
          write_string fg bg (written (number_text base n ++ 0 ∷ []) number_buffer) s
          ≡ type_text fg bg (number_text base n) s
      typed =
          write_string-until_nul fg bg (written (number_text base n ++ 0 ∷ []) number_buffer) s
          ∙ ap (λ t. type_text fg bg t s)
              (ap until_nul (append_assoc (number_text base n) (0 ∷ []) rest)
                ∙ until_nul-append (number_text base n) rest
                    (number_text-NoNul base n (omega arith) small (abs-lt n hn)))

  abbrev pub typed_of : List ℕ × List Arg → Screen → List Arg × Screen
  typed_of r s = (r.1, type_text fg bg r.0 s)

  convert_char_lem :
      (args : List Arg) (s : Screen)
      → convert_char fg bg args s
        ≡ Option.map (λ r. typed_of r s) (Option.map (λ r. (u8 r.0 ∷ [], r.1)) (next_int args))
  unfolding convert_char
  convert_char_lem [] s = refl
  convert_char_lem (int n ∷ args) s = refl
  convert_char_lem (str t ∷ args) s = refl

  convert_string_lem :
      (args : List Arg) (s : Screen)
      → convert_string fg bg args s
        ≡ Option.map (λ r. typed_of r s) (Option.map (λ r. (until_nul r.0, r.1)) (next_str args))
  unfolding convert_string
  convert_string_lem [] s = refl
  convert_string_lem (int n ∷ args) s = refl
  convert_string_lem (str t ∷ args) s = ap (λ u. some (args, u)) (write_string-until_nul fg bg t s)

  convert_number-expand :
      (to_text : Printer) (base : ℕ) (args : List Arg) (s : Screen)
      → PrintsIn to_text base
      → 10 ≤ base
      → base ≤ 16
      → AreWords args
      → convert_number fg bg to_text args s
        ≡ Option.map
            (λ r. typed_of r s)
            (Option.map (λ r. (number_text base r.0, r.1)) (next_int args))
  convert_number-expand to_text base [] s prints big small w = unfold convert_number in refl
  convert_number-expand to_text base (int n ∷ args) s prints big small w =
      convert_number_lem to_text base n args s prints big small w.0
  convert_number-expand to_text base (str t ∷ args) s prints big small w =
      unfold convert_number in refl

  pub convert-expand :
      (c : ℕ) (args : List Arg) (s : Screen)
      → AreWords args
      → convert fg bg c args s ≡ Option.map (λ r. typed_of r s) (expand c args)
  unfolding convert expand
  convert-expand c args s w = map_if _ (c == b'%') _ _ refl (
      map_if _ (c == b'c') _ _ (convert_char_lem args s) (
        map_if _ (c == b's') _ _ (convert_string_lem args s) (
          map_if _ (c == b'd') _ _
            (convert_number-expand itoa 10 args s itoa-PrintsIn (omega arith) (omega arith) w)
            (map_if _ (c == b'x') _ _
              (convert_number-expand itoh 16 args s itoh-PrintsIn (omega arith) (omega arith) w)
              refl))))

-- What a conversion leaves of the arguments are words.
abbrev pub Leaves : Option (List ℕ × List Arg) → Type 0
Leaves none = Unit
Leaves (some r) = AreWords r.1

next_int-Leaves :
    (f : ℕ → List ℕ) (args : List Arg)
    → AreWords args
    → Leaves (Option.map (λ r. (f r.0, r.1)) (next_int args))
next_int-Leaves f [] w = tt
next_int-Leaves f (int n ∷ args) w = w.1
next_int-Leaves f (str t ∷ args) w = tt

next_str-Leaves :
    (f : List ℕ → List ℕ) (args : List Arg)
    → AreWords args
    → Leaves (Option.map (λ r. (f r.0, r.1)) (next_str args))
next_str-Leaves f [] w = tt
next_str-Leaves f (int n ∷ args) w = tt
next_str-Leaves f (str t ∷ args) w = w

pub expand-Leaves : (c : ℕ) (args : List Arg) → AreWords args → Leaves (expand c args)
unfolding expand
expand-Leaves c args w = if_holds Leaves (c == b'%') w (
    if_holds Leaves (c == b'c') (next_int-Leaves (λ n. u8 n ∷ []) args w) (
      if_holds Leaves (c == b's') (next_str-Leaves until_nul args w) (
        if_holds Leaves (c == b'd') (next_int-Leaves (number_text 10) args w)
          (if_holds Leaves (c == b'x') (next_int-Leaves (number_text 16) args w) w))))
