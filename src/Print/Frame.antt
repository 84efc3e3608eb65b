-- ===== src/Print/Frame.antt =====
-- Typing leaves the memory outside of the video buffer alone.
use drewos.Base.{ℕ, List, [], ◌∷◌}
use drewos.Screen.{Screen, write_char}
use drewos.Screen.Palette.{Colour}
use drewos.Screen.Frame.{KeepsMemory, KeepsMemory-refl, KeepsMemory-trans, write_char-KeepsMemory}
use drewos.Print.Text.{type_text}

pub type_text-KeepsMemory :
    (fg bg : Colour) (t : List ℕ) (s : Screen) → KeepsMemory s (type_text fg bg t s)
type_text-KeepsMemory fg bg [] s = KeepsMemory-refl s
type_text-KeepsMemory fg bg (c ∷ t) s =
    KeepsMemory-trans (write_char-KeepsMemory c fg bg s)
      (type_text-KeepsMemory fg bg t (write_char c fg bg s))
