-- ===== src/Screen/Palette.antt =====
-- `colour_t` of src/driver/vga.h.
use Prim.Native.Nat.{ℕ}

pub data Colour : Type 0 where
  black blue green cyan red purple brown gray : Colour
  dark_gray light_blue light_green light_cyan light_red light_purple yellow white : Colour

-- The number of each constant of the enumeration.
abbrev pub colour_code : Colour → ℕ
colour_code black = 0
colour_code blue = 1
colour_code green = 2
colour_code cyan = 3
colour_code red = 4
colour_code purple = 5
colour_code brown = 6
colour_code gray = 7
colour_code dark_gray = 8
colour_code light_blue = 9
colour_code light_green = 10
colour_code light_cyan = 11
colour_code light_red = 12
colour_code light_purple = 13
colour_code yellow = 14
colour_code white = 15
