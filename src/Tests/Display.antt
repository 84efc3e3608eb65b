-- ===== src/Tests/Display.antt =====
-- src/driver/vga.c at fixed inputs.
use mathlib.Core.Option
use drewos.Base.{ℕ, ◌<◌, ◌≡◌, refl, arith, some, List, [], ◌∷◌, codes, replicate}
use drewos.Screen.{Screen, write_char, attribute, ncol}
use drewos.Screen.Palette.{white, black, green, cyan}
use drewos.Screen.Grid.{Grid, typed}
use drewos.Screen.Write.{Shows, write_char-Shows, write_char-outside}
use drewos.Print.{Arg, int, str, cprint}
use drewos.Print.Text.{type_text}
use drewos.Print.Format.{render, expand}
use drewos.Print.Render.{cprint-render}
use drewos.Print.Debug.{print_offset, print_coords}
use drewos.Print.Debug.Shown.{offset_text, coords_text, print_coords-Shows}
use drewos.Print.Terminal.{typed_text, cprint-Shows}

-- The last cell of the screen is the next.
abbrev at_end : Screen
at_end = record { mem = λ p. 0; x = 79; y = 24 }

abbrev grid_at_end : Grid
grid_at_end = record { cells = λ r c. (0, 0); row = 24; col = 79 }

at_end-Shows : Shows at_end grid_at_end
at_end-Shows = record { row = refl; col = refl; on_line = omega arith; cells = λ r c h k. refl }

abbrev format : List ℕ
format = codes "%s = %d (%x)%c%%"

abbrev arguments : List Arg
arguments = str (codes "isr") ∷ int 42 ∷ int 42 ∷ int b'!' ∷ []

write_char-Shows_example :
    Shows
      (write_char b'A' green black at_end)
      (typed b'A' (b'A', attribute green black) grid_at_end)
write_char-Shows_example = write_char-Shows b'A' green black (omega arith) at_end-Shows

write_char-outside_example :
    ((write_char b'A' green black at_end).mem 0x1000 ≡ 0)
    × ((write_char b'A' green black at_end).x < ncol)
write_char-outside_example = write_char-outside b'A' green black at_end 0x1000 (omega arith) refl

cprint-render_example :
    cprint white black (some format) arguments at_end
    ≡ Option.map (λ t. type_text white black t at_end) (render format arguments)
cprint-render_example =
    cprint-render white black format arguments at_end
      (omega arith, (omega arith, (omega arith, tt)))

abbrev short_format : List ℕ
short_format = codes "%s = %c%%"

short_text : render short_format (str (codes "isr") ∷ int b'!' ∷ []) ≡ some (codes "isr = !%")
unfolding render expand
short_text = refl

cprint-Shows_example :
    (s' : Screen) × (cprint white black
        (some short_format)
        (str (codes "isr") ∷ int b'!' ∷ [])
        at_end
      ≡ some s')
    × Shows s' (typed_text white black (codes "isr = !%") grid_at_end)
cprint-Shows_example =
    cprint-Shows white black short_format (str (codes "isr") ∷ int b'!' ∷ []) (omega arith, tt)
      short_text (omega arith) at_end-Shows

-- Whatever is in the buffer.
abbrev number_space : List ℕ
number_space = replicate 16 b'z'

print_coords-Shows_example :
    (print_offset number_space at_end ≡ some (type_text white black (offset_text 3998) at_end))
    × Shows
        (type_text white black (offset_text 3998) at_end)
        (typed_text white black (offset_text 3998) grid_at_end)
    × (print_coords number_space at_end
        ≡ some (type_text cyan black (coords_text 79 24 3998) at_end))
    × Shows
        (type_text cyan black (coords_text 79 24 3998) at_end)
        (typed_text cyan black (coords_text 79 24 3998) grid_at_end)
print_coords-Shows_example =
    print_coords-Shows number_space (omega arith) (omega arith) at_end-Shows
