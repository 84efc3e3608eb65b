-- ===== src/Print/Terminal.antt =====
-- Formatted printing on the terminal of Screen/Grid.
use mathlib.Core.Option
use drewos.Base.{ℕ, ◌≡◌, ◌∙◌, ap, List, [], ◌∷◌, some}
use drewos.Util.Digits.{AllBelow}
use drewos.Screen.{Screen, attribute, write_char}
use drewos.Screen.Palette.{Colour}
use drewos.Screen.Grid.{Grid, typed}
use drewos.Screen.Write.{Shows, write_char-Shows}
use drewos.Print.{Arg, cprint}
use drewos.Print.Text.{type_text}
use drewos.Print.Format.{AreWords, render}
use drewos.Print.Render.{cprint-render}

module _ (fg bg : Colour) where
  -- The terminal behind all characters of a text.
  abbrev pub typed_text : List ℕ → Grid → Grid
  typed_text [] g = g
  typed_text (c ∷ t) g = typed_text t (typed c (c, attribute fg bg) g)

  pub type_text-Shows :
      (t : List ℕ) (s : Screen) (g : Grid)
      → AllBelow 256 t
      → Shows s g
      → Shows (type_text fg bg t s) (typed_text t g)
  type_text-Shows [] s g small h = h
  type_text-Shows (c ∷ t) s g small h =
      type_text-Shows t (write_char c fg bg s) (typed c (c, attribute fg bg) g) small.1
        (write_char-Shows c fg bg small.0 h)

  -- Where a format and words as arguments stand for a text of bytes, `_cprint` returns from every
  -- screen that shows a terminal, and the screen then shows what the terminal makes of the text,
  -- character by character, in the two colours.
  pub cprint-Shows :
      (msg : List ℕ) (args : List Arg) {t : List ℕ} {s : Screen} {g : Grid}
      → AreWords args
      → render msg args ≡ some t
      → AllBelow 256 t
      → Shows s g
      → (s' : Screen) × (cprint fg bg (some msg) args s ≡ some s') × Shows s' (typed_text t g)
  cprint-Shows msg args {t} {s} {g} w e small h = (
    type_text fg bg t s,
    cprint-render fg bg msg args s w ∙ ap (Option.map (λ u. type_text fg bg u s)) e,
    type_text-Shows t s g small h,
  )
