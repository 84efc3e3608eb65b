-- ===== src/Kernel/Banner.antt =====
-- The parts of `main` that only print, and the machine behind the setup of the interrupts.
use drewos.Base.{ℕ, refl, List, [], ◌∷◌, codes}
use drewos.Screen.{clrscr}
use drewos.Screen.Palette.{Colour, green, black}
use drewos.Print.Format.{render, expand}
use drewos.Machine.{Platform, Machine}
use drewos.Machine.Quiet.{
  SameVariables, Quietly, Quietly-pure, Quietly-bind, Quietly-write_byte, Quietly-cprint,
}
use drewos.Machine.Quiet.{Quietly-cprintln, Quietly-println, Anything, IsText}
use drewos.Machine.Ends.{Ends, Ends-run, Ends-quiet}
use drewos.Cursor.{disable_cursor}
use drewos.Kernel.{colours, print_colours, announce, show_banner}

disable_cursor-Quietly : Quietly Anything disable_cursor
unfolding disable_cursor
disable_cursor-Quietly =
    Quietly-bind (Quietly-write_byte 0x3d4 0x0a) λ _ _. Quietly-write_byte 0x3d5 0x20

print_colours-Quietly : (bgs : List Colour) → Quietly Anything (print_colours bgs)
unfolding print_colours
print_colours-Quietly [] = Quietly-pure tt tt
print_colours-Quietly (bg ∷ rest) =
    Quietly-bind (Quietly-cprint bg bg (codes "     ") [] tt (unfold render expand in tt))
      λ _ _. print_colours-Quietly rest

-- The machine behind the clearing of the screen.
abbrev pub cleared : Machine → Machine
cleared m = record m { screen = clrscr m.screen }

module _ (platform : Platform) where
  pub announce-Quietly :
      (msg : List ℕ) → IsText (render msg []) → Quietly Anything (announce platform msg)
  announce-Quietly msg h = Quietly-println msg [] tt h

  pub show_banner-quiet :
      (m : Machine) → Ends (show_banner platform) m (λ _ n. Unit × SameVariables (cleared m) n)
  unfolding show_banner
  show_banner-quiet m =
      Ends-run
        (Ends-quiet (cleared m) (
          Quietly-bind disable_cursor-Quietly λ _ _.
            Quietly-bind
              (announce-Quietly (codes "Kernel has been loaded successfully.")
                (unfold render expand in tt))
              λ _ _.
                Quietly-bind
                  (Quietly-cprintln green black (codes "Welcome to drewOS!") [] tt
                    (unfold render expand in tt))
                  λ _ _. Quietly-bind (announce-Quietly [] (unfold render expand in tt)) λ _ _.
                    Quietly-bind (print_colours-Quietly colours)
                      λ _ _. announce-Quietly (codes "\n") (unfold render expand in tt)))
        refl
