-- ===== src/Print/Debug/Shown.antt =====
-- The text that `print_offset` and `print_coords` put on the terminal.
use mathlib.Core.List.{append_assoc}
use mathlib.Core.Option
use drewos.Base.{ℕ, ◌^◌, ◌≤◌, ◌<◌, ◌≡◌, refl, ap, sym, ◌∙◌, arith, some}
use drewos.Base.{List, [], ◌∷◌, ◌++◌, length, length-append, drop, codes}
use drewos.Util.{itoa}
use drewos.Util.Buffer.{written, length-written}
use drewos.Util.Digits.{AllBelow}
use drewos.Util.Itoa.{number_text, length-number_text, itoa_base_lem}
use drewos.Screen.{Screen, get_offset}
use drewos.Screen.Palette.{Colour, white, black, cyan}
use drewos.Screen.Grid.{Grid}
use drewos.Screen.Write.{Shows}
use drewos.Print.{◌>>=◌, cprint}
use drewos.Print.Format.{render}
use drewos.Print.Render.{cprint-render}
use drewos.Print.Text.{type_text, type_text-append}
use drewos.Print.Terminal.{typed_text, type_text-Shows}
use drewos.Print.Debug.{bufsize, print_number, print_offset, print_coords}
use drewos.Print.Debug.Plain.{
  IsPlain-AllBelow, are_bytes-AllBelow, AllBelow-append, render-IsPlain, number_text-IsPlain,
}

-- The buffer behind `itoa`.
abbrev filled : ℕ → List ℕ → List ℕ
filled n buf = written (number_text 10 n ++ 0 ∷ []) buf

length-filled :
    (n : ℕ) (buf : List ℕ) → n < 2 ^ 32 → 16 ≤ length buf → length (filled n buf) ≡ length buf
length-filled n buf h fits = length-written (number_text 10 n ++ 0 ∷ []) buf (
    omega
      (arith, length-append (number_text 10 n) (0 ∷ []), length-number_text 10 n (omega arith) h))

itoa-filled :
    (n : ℕ) (buf : List ℕ)
    → n < 2 ^ 32
    → 16 ≤ length buf
    → itoa n buf bufsize ≡ some (0, filled n buf)
unfolding itoa
itoa-filled n buf h fits =
    itoa_base_lem n 10 buf 16 h (omega arith) fits
    ∙ ground (arith, length-number_text 10 n (omega arith) h)

module _ (fg bg : Colour) where
  -- A literal without conversions.
  cprint-literal :
      (t : List ℕ) (s : Screen)
      → render t [] ≡ some t
      → cprint fg bg (some t) [] s ≡ some (type_text fg bg t s)
  cprint-literal t s e =
      cprint-render fg bg t [] s tt ∙ ap (Option.map (λ u. type_text fg bg u s)) e

  print_number_lem :
      (n : ℕ) (buf : List ℕ) (s : Screen)
      → n < 2 ^ 32
      → 16 ≤ length buf
      → print_number fg bg n buf s ≡ some (filled n buf, type_text fg bg (number_text 10 n) s)
  print_number_lem n buf s h fits =
      let rest = drop (length (number_text 10 n ++ 0 ∷ [])) buf in
      let itself : render (filled n buf) [] ≡ some (number_text 10 n) =
        ap (λ b. render b []) (append_assoc (number_text 10 n) (0 ∷ []) rest)
        ∙ render-IsPlain (number_text 10 n) rest (number_text-IsPlain n h) in
      let shown : cprint fg bg (some (filled n buf)) [] s
          ≡ some (type_text fg bg (number_text 10 n) s) =
        cprint-render fg bg (filled n buf) [] s tt
        ∙ ap (Option.map (λ u. type_text fg bg u s)) itself in
      rw (itoa-filled n buf h fits, ◌>>=◌, shown, ◌>>=◌) refl

-- What `print_offset` prints.
abbrev pub offset_text : ℕ → List ℕ
offset_text offset = codes " (offset = " ++ (number_text 10 offset ++ codes ")")

-- What `print_coords` prints.
abbrev pub coords_text : ℕ → ℕ → ℕ → List ℕ
coords_text x y offset =
    codes " ("
    ++ (number_text 10 x
        ++ (codes ", "
            ++ (number_text 10 y ++ (codes ", " ++ (number_text 10 offset ++ codes ")")))))

print_offset_lem :
    (buf : List ℕ) (s : Screen)
    → 16 ≤ length buf
    → print_offset buf s ≡ some (type_text white black (offset_text (get_offset s.x s.y)) s)
unfolding print_offset
print_offset_lem buf s fits =
    let offset = get_offset s.x s.y in
    let s1 = type_text white black (codes " (offset = ") s in
    let s2 = type_text white black (number_text 10 offset) s1 in
    rw
      (
        cprint-literal white black (codes " (offset = ") s (unfold render in refl),
        ◌>>=◌,
        print_number_lem white black offset buf s1 (omega arith) fits,
        ◌>>=◌,
        cprint-literal white black (codes ")") s2 (unfold render in refl),
      )
      (ap some (sym (type_text-append white black (number_text 10 offset) (codes ")") s1)))

print_coords_lem :
    (buf : List ℕ) (s : Screen)
    → 16 ≤ length buf
    → s.x < 2 ^ 8
    → s.y < 2 ^ 8
    → print_coords buf s ≡ some (type_text cyan black (coords_text s.x s.y (get_offset s.x s.y)) s)
unfolding print_coords
print_coords_lem buf s fits hx hy =
    let offset = get_offset s.x s.y in
    let s1 = type_text cyan black (codes " (") s in
    let s2 = type_text cyan black (number_text 10 s.x) s1 in
    let s3 = type_text cyan black (codes ", ") s2 in
    let s4 = type_text cyan black (number_text 10 s.y) s3 in
    let s5 = type_text cyan black (codes ", ") s4 in
    let s6 = type_text cyan black (number_text 10 offset) s5 in
    let buf1 = filled s.x buf in
    let buf2 = filled s.y buf1 in
    let fits1 : 16 ≤ length buf1 = omega (arith, length-filled s.x buf (omega arith) fits) in
    let fits2 : 16 ≤ length buf2 = omega (arith, length-filled s.y buf1 (omega arith) fits1) in
    let last = number_text 10 offset ++ codes ")" in
    let behind_x = codes ", " ++ (number_text 10 s.y ++ (codes ", " ++ last)) in
    rw
      (
        cprint-literal cyan black (codes " (") s (unfold render in refl),
        ◌>>=◌,
        print_number_lem cyan black s.x buf s1 (omega arith) fits,
        ◌>>=◌,
        cprint-literal cyan black (codes ", ") s2 (unfold render in refl),
        ◌>>=◌,
        print_number_lem cyan black s.y buf1 s3 (omega arith) fits1,
        ◌>>=◌,
        cprint-literal cyan black (codes ", ") s4 (unfold render in refl),
        ◌>>=◌,
        print_number_lem cyan black offset buf2 s5 (omega arith) fits2,
        ◌>>=◌,
        cprint-literal cyan black (codes ")") s6 (unfold render in refl),
      )
      (ap some (
        sym (
          type_text-append cyan black (number_text 10 s.x) behind_x s1
          ∙ type_text-append cyan black (number_text 10 s.y) (codes ", " ++ last) s3
          ∙ type_text-append cyan black (number_text 10 offset) (codes ")") s5)))

-- Both debugging outputs, with any buffer of 16 bytes: on every screen that shows a terminal, with a
-- row below 256, `print_offset` and `print_coords` return, and the screen then shows the terminal
-- behind the text ` (offset = o)` in white and ` (x, y, o)` in cyan, where x, y and the offset o are those of
-- the screen before, in base 10.
pub print_coords-Shows :
    (buf : List ℕ) {s : Screen} {g : Grid}
    → 16 ≤ length buf
    → s.y < 2 ^ 8
    → Shows s g
    → let offset = get_offset s.x s.y in
      let offset_shown = type_text white black (offset_text offset) s in
      let coords_shown = type_text cyan black (coords_text s.x s.y offset) s in
      (print_offset buf s ≡ some offset_shown)
      × Shows offset_shown (typed_text white black (offset_text offset) g)
      × (print_coords buf s ≡ some coords_shown)
      × Shows coords_shown (typed_text cyan black (coords_text s.x s.y offset) g)
print_coords-Shows buf {s} {g} fits hy shows =
    let offset = get_offset s.x s.y in
    let number : (n : ℕ) (rest : List ℕ)
        → n < 2 ^ 32
        → AllBelow 256 rest
        → AllBelow 256 (number_text 10 n ++ rest) =
      λ n rest h r.
        AllBelow-append (number_text 10 n) rest
          (IsPlain-AllBelow (number_text 10 n) (number_text-IsPlain n h)) r in
    let last = number offset (codes ")") (omega arith) (omega arith, tt) in
    let comma : (rest : List ℕ) → AllBelow 256 rest → AllBelow 256 (codes ", " ++ rest) =
      λ rest r. AllBelow-append (codes ", ") rest (are_bytes-AllBelow (codes ", ") refl) r in
    (
      print_offset_lem buf s fits,
      type_text-Shows white black (offset_text offset) s g
          (AllBelow-append (codes " (offset = ") _ (are_bytes-AllBelow (codes " (offset = ") refl)
            last)
          shows,
      print_coords_lem buf s fits (omega (arith, shows.on_line)) hy,
      type_text-Shows cyan black (coords_text s.x s.y offset) s g
          (AllBelow-append (codes " (") _ (are_bytes-AllBelow (codes " (") refl) (
            number s.x _ (omega (arith, shows.on_line))
              (comma _ (number s.y _ (omega arith) (comma _ last)))))
          shows,
    )
