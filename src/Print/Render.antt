-- ===== src/Print/Render.antt =====
-- `_cprint` against the text that its format and arguments stand for.
use mathlib.Core.Option
use mathlib.Core.Path.{fun_ext}
use drewos.Base.{ℕ, ◌≡◌, ◌∙◌, refl, ap, Option, none, some}
use drewos.Base.{List, [], ◌∷◌, ◌++◌, ◌==◌, sym}
use drewos.Screen.{Screen, write_char}
use drewos.Screen.Palette.{Colour, white, black}
use drewos.Print.{Arg, ◌>>=◌}
use drewos.Print.{print_format, cprint}
use drewos.Print.{cprintln, println}
use drewos.Print.Text.{type_text, type_text-append}
use drewos.Print.Format.{expand, render, AreWords}
use drewos.Print.Convert.{map_if, map-map, Leaves, expand-Leaves, typed_of, convert-expand}

module _ (fg bg : Colour) where
  abbrev Renders : List ℕ → Type 0
  Renders msg =
      (args : List Arg) (s : Screen)
      → AreWords args
      → print_format fg bg msg args s ≡ Option.map (λ t. type_text fg bg t s) (render msg args)

  -- The step behind a conversion, given what it expands to.
  behind_conversion :
      (msg : List ℕ) (s : Screen) (o : Option (List ℕ × List Arg))
      → Leaves o
      → Renders msg
      → (Option.map (λ r. typed_of fg bg r s) o >>= λ r. print_format fg bg msg r.0 r.1)
        ≡ Option.map
            (λ t. type_text fg bg t s)
            (o >>= λ r. Option.map (λ t. r.0 ++ t) (render msg r.1))
  behind_conversion msg s none w ih = refl
  behind_conversion msg s (some (text, rest)) w ih =
      ih rest (type_text fg bg text s) w
      ∙ ap (λ f. Option.map f (render msg rest))
          (fun_ext (λ t. sym (type_text-append fg bg text t s)))
      ∙ map-map (λ t. type_text fg bg t s) (λ t. text ++ t) (render msg rest)

  print_format-render : (msg : List ℕ) → Renders msg
  unfolding print_format render
  print_format-render [] args s w = refl
  print_format-render (c ∷ []) args s w =
      map_if _ (c == 0) _ _ refl (map_if _ (c == b'%') _ _ refl refl)
  print_format-render (c ∷ d ∷ msg) args s w = map_if _ (c == 0) _ _ refl (
      map_if _ (c == b'%') _ _
        (ap (λ o. o >>= λ r. print_format fg bg msg r.0 r.1) (convert-expand fg bg d args s w)
          ∙ behind_conversion msg s (expand d args) (expand-Leaves d args w)
              (print_format-render msg))
        (print_format-render (d ∷ msg) args (write_char c fg bg s) w
          ∙ map-map (λ t. type_text fg bg t s) (λ t. c ∷ t) (render (d ∷ msg) args)))

  -- For words as arguments, `_cprint` types the text that the format and the arguments stand for, in
  -- the two colours, and it is undefined exactly where they stand for no text.
  pub cprint-render :
      (msg : List ℕ) (args : List Arg) (s : Screen)
      → AreWords args
      → cprint fg bg (some msg) args s ≡ Option.map (λ t. type_text fg bg t s) (render msg args)
  unfolding cprint
  cprint-render msg args s w = print_format-render msg args s w

-- A format and arguments that stand for a text are printed, with a line feed behind.
pub cprintln-returns :
    (fg bg : Colour) (msg : List ℕ) (args : List Arg) (s : Screen) (t : List ℕ)
    → AreWords args
    → render msg args ≡ some t
    → cprintln fg bg (some msg) args s ≡ some (write_char b'\n' fg bg (type_text fg bg t s))
unfolding cprintln
cprintln-returns fg bg msg args s t w e =
    ap (λ o. o >>= λ u. some (write_char b'\n' fg bg u))
      (cprint-render fg bg msg args s w ∙ ap (Option.map (λ u. type_text fg bg u s)) e)

-- Others make `println` undefined.
pub println-none :
    (msg : List ℕ) (args : List Arg) (s : Screen)
    → AreWords args
    → render msg args ≡ none
    → println (some msg) args s ≡ none
unfolding println cprintln
println-none msg args s w e =
    ap (λ o. o >>= λ u. some (write_char b'\n' white black u))
      (cprint-render white black msg args s w ∙ ap (Option.map (λ u. type_text white black u s)) e)
