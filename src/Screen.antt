-- ===== src/Screen.antt =====
-- src/driver/vga.c, the text screen: its coordinates, scrolling and `write_char`.
pub mod Palette
pub mod Clear
pub mod Scroll
pub mod Grid
pub mod Write
pub mod Frame
use drewos.Base.{ℕ, zero, suc, ◌+◌, ◌-◌, ◌*◌, ◌/◌, ◌%◌, ◌^◌}
use drewos.Base.{ltb, ◌==◌, if◌then◌else◌, u8, u16}
use drewos.Memory.{Memory, store, copy_memory}
use drewos.Screen.Palette.{Colour, colour_code}

abbrev pub ncol : ℕ
ncol = 80

abbrev pub nrow : ℕ
nrow = 25

abbrev pub video_memory : ℕ
video_memory = 0xb8000

-- The memory, of which the video buffer is a part, and the coordinates `x` and `y`.
pub record Screen : Type 0 where
  pub mem : Memory
  pub x : ℕ
  pub y : ℕ

abbrev pub get_offset : ℕ → ℕ → ℕ
get_offset x y = u16 (2 * (x + y * ncol))

abbrev pub get_address : ℕ → ℕ → ℕ
get_address x y = get_offset x y + video_memory

-- `n` rounds of writing an empty cell, a space and the attribute 0, from `p` on.
pub clear_cells : ℕ → ℕ → Memory → Memory
clear_cells zero p mem = mem
clear_cells (suc n) p mem = clear_cells n (p + 2) (store (p + 1) 0 (store p b' ' mem))

-- `i += 2` up to `NROW * NCOL * 2` takes 2000 rounds.
unfoldable pub clrscr : Screen → Screen
clrscr s = record { mem = clear_cells (nrow * ncol) video_memory s.mem; x = 0; y = 0 }

-- The loop of `handle_scrolling` from row `i` on, with `n` rounds left.
pub move_rows : ℕ → ℕ → Memory → Memory
move_rows zero i mem = mem
move_rows (suc n) i mem =
    move_rows n (i + 1) (copy_memory (get_address 0 i) (get_address 0 (i - 1)) (ncol * 2) mem)

-- All rows but the first move up, and the last is emptied.
pub scroll_up : Memory → Memory
scroll_up mem = clear_cells ncol (get_address 0 (nrow - 1)) (move_rows (nrow - 1) 1 mem)

pub handle_scrolling : Screen → Screen
handle_scrolling s =
    if ltb s.y nrow then s else record { mem = scroll_up s.mem; x = 0; y = nrow - 1 }

-- The byte `(bg << 4) + fg`.
abbrev pub attribute : Colour → Colour → ℕ
attribute fg bg = u8 (colour_code bg * 2 ^ 4 + colour_code fg)

-- `write_char` behind its first call of `handle_scrolling`: the cell, then the coordinates of the
-- next cell.
pub put_cell : ℕ → Colour → Colour → Screen → Screen
put_cell c fg bg s =
    let buf : ℕ = get_address s.x s.y in
    let offset : ℕ = u16 ((buf + 2 - video_memory) / 2) in
    record {
      mem = store (buf + 1) (attribute fg bg) (store buf (u8 c) s.mem);
      x = u8 (offset % ncol);
      y = u8 (offset / ncol);
    }

unfoldable pub write_char : ℕ → Colour → Colour → Screen → Screen
write_char c fg bg s =
    if c == b'\n'
    then record s { y = u8 (s.y + 1); x = 0 }
    else if c == b'\r'
    then record s { x = 0 }
    else handle_scrolling (put_cell c fg bg (handle_scrolling s))
