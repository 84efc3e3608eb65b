-- ===== src/Kernel.antt =====
-- src/kernel/kernel.c: `main`.
pub mod Banner
pub mod Ready
pub mod Boot
pub mod PowerOn
use drewos.Base.{ℕ, Bool, true, false, List, [], ◌∷◌, some, codes}
use drewos.Screen.{Screen, clrscr}
use drewos.Screen.Palette.{
  Colour, black, blue, green, cyan, red, purple, brown, gray, dark_gray, light_blue, light_green,
  light_cyan, light_red, light_purple, yellow, white,
}
use drewos.Print.{cprint, cprintln}
use drewos.Machine.{Platform, Machine, K, pure, ◌>>=◌, ◌>>◌, on_screen}
use drewos.Cursor.{disable_cursor}
use drewos.Pic.{pic_init}
use drewos.Idt.{idt_init}
use drewos.Acpi.Fadt.{ps2_controller_exists}
use drewos.Acpi.Startup.{acpi_init}
use drewos.Ps2.{say}
use drewos.Ps2.Init.{ps2_init}

-- The values of `i % 16` as colours, for the `i` of the loop.
abbrev pub colours : List Colour
colours =
    black ∷ blue ∷ green ∷ cyan ∷ red ∷ purple ∷ brown ∷ gray ∷ dark_gray ∷ light_blue ∷ light_green
    ∷ light_cyan ∷ light_red ∷ light_purple ∷ yellow ∷ white ∷ []

-- The loop over the background colours.
unfoldable pub print_colours : List Colour → K (Unit {0})
print_colours [] = pure tt
print_colours (bg ∷ rest) = do
  on_screen (cprint bg bg (some (codes "     ")) [])
  print_colours rest

module _ (platform : Platform) where
  abbrev pub announce : List ℕ → K (Unit {0})
  announce msg = say platform.dev msg []

  -- The screen that `main` begins with.
  unfoldable pub show_banner : K (Unit {0})
  show_banner = do
    on_screen (λ s. some (clrscr s))
    disable_cursor
    announce (codes "Kernel has been loaded successfully.")
    on_screen (cprintln green black (some (codes "Welcome to drewOS!")) [])
    announce []
    print_colours colours
    announce (codes "\n")

  -- `fuel` bounds the reads of `acpi_enable`; `patience` and `rounds` are those of `ps2_init`.
  unfoldable pub start_ps2 : ℕ → ℕ → K (Unit {0})
  start_ps2 patience rounds = do
    exists ← ps2_controller_exists platform.dev
    elim exists [
      | true ↦ ps2_init platform patience rounds
      | false ↦ announce (codes "ps2 controller does not exist")
    ]

  unfoldable pub main : ℕ → ℕ → ℕ → K (Unit {0})
  main fuel patience rounds = do
    show_banner
    pic_init platform.dev
    idt_init platform
    announce (codes "Interrupts successfully initialised.")
    acpi_init platform.dev fuel
    announce (codes "ACPI successfully initialised.")
    start_ps2 patience rounds
    announce (codes "\nThank you for using DrewOS!")
