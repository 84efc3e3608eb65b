-- ===== src/Screen/Write.antt =====
-- `write_char` against the terminal of Grid, and the memory that it leaves alone.
use drewos.Base.{ℕ, ◌+◌, ◌*◌, ◌<◌, ◌≡◌, refl, arith}
use drewos.Base.{◌==◌, Bool-cases, inl, inr, false}
use drewos.Memory.{Memory}
use drewos.Memory.Copy.{within}
use drewos.Screen.{
  Screen, ncol, nrow, video_memory, scroll_up, handle_scrolling, attribute, put_cell, write_char,
}
use drewos.Screen.Palette.{Colour}
use drewos.Screen.Scroll.{scroll_up_lem}
use drewos.Screen.Grid.{Cells, Grid, put_next, scroll, bring_back, typed}

-- The cell that the video buffer holds in a row and a column.
abbrev pub cell_at : Memory → Cells
cell_at mem r c = (mem (video_memory + 160 * r + 2 * c), mem (video_memory + 160 * r + 2 * c + 1))

-- The screen shows the grid: the same place, and the same cell in each of the 25 rows and 80
-- columns.
pub record Shows (s : Screen) (g : Grid) : Type 0 where
  pub row : s.y ≡ g.row
  pub col : s.x ≡ g.col
  pub on_line : s.x < ncol
  pub cells : (r c : ℕ) → r < nrow → c < ncol → cell_at s.mem r c ≡ g.cells r c

scroll_up-cell :
    (mem : Memory) (r c : ℕ)
    → r < nrow
    → c < ncol
    → cell_at (scroll_up mem) r c ≡ scroll (cell_at mem) r c
scroll_up-cell mem r c hr hc = ground (
  arith,
  scroll_up_lem mem (video_memory + 160 * r + 2 * c),
  scroll_up_lem mem (video_memory + 160 * r + 2 * c + 1),
)

handle_scrolling-Shows :
    {s : Screen} {g : Grid} → Shows s g → Shows (handle_scrolling s) (bring_back g)
unfolding handle_scrolling
handle_scrolling-Shows {s} {g} h = record {
  row = ground arith;
  col = ground arith;
  on_line = ground arith;
  cells = λ r c hr hc. ground (arith, scroll_up-cell s.mem r c, h.cells r c, h.cells (r + 1) c);
}

handle_scrolling-row : (s : Screen) → (handle_scrolling s).y < nrow
unfolding handle_scrolling
handle_scrolling-row s = ground arith

put_cell-Shows :
    {s : Screen} {g : Grid} (c : ℕ) (fg bg : Colour)
    → Shows s g
    → s.y < nrow
    → c < 256
    → Shows (put_cell c fg bg s) (put_next (c, attribute fg bg) g)
unfolding put_cell
put_cell-Shows {s} {g} c fg bg h on small = record {
  row = ground arith;
  col = ground arith;
  on_line = ground arith;
  cells = λ r k hr hk. ground (arith, h.cells r k hr hk);
}

-- Whatever terminal a screen shows, with its place on some line, it shows after `write_char` what
-- the terminal makes of the character: a line feed and a carriage return move the place, any other
-- character is put in its cell with its colours after a place below the screen is brought back by a
-- scroll, and the place moves on, with a scroll behind the last cell.
pub write_char-Shows :
    {s : Screen} {g : Grid} (c : ℕ) (fg bg : Colour)
    → c < 256
    → Shows s g
    → Shows (write_char c fg bg s) (typed c (c, attribute fg bg) g)
unfolding write_char
write_char-Shows {s} {g} c fg bg small h = elim (Bool-cases (c == b'\n')) [
  | inl nl ↦
      rw nl (record { row = ground arith; col = refl; on_line = omega arith; cells = h.cells })
  | inr n ↦ elim (Bool-cases (c == b'\r')) [
    | inl cr ↦
        rw (n, cr) (record { row = h.row; col = refl; on_line = omega arith; cells = h.cells })
    | inr r ↦
        rw (n, r)
          (handle_scrolling-Shows
            (put_cell-Shows c fg bg (handle_scrolling-Shows h) (handle_scrolling-row s) small))
  ]
]

module _ (q : ℕ) (outside : within video_memory 4000 q ≡ false) where
  handle_scrolling-outside : (s : Screen) → (handle_scrolling s).mem q ≡ s.mem q
  unfolding handle_scrolling
  handle_scrolling-outside s = ground (arith, scroll_up_lem s.mem q)

  put_cell-outside :
      (c : ℕ) (fg bg : Colour) (s : Screen)
      → s.x < ncol
      → s.y < nrow
      → (put_cell c fg bg s).mem q ≡ s.mem q
  unfolding put_cell
  put_cell-outside c fg bg s hx hy = ground arith

handle_scrolling-col : (s : Screen) → s.x < ncol → (handle_scrolling s).x < ncol
unfolding handle_scrolling
handle_scrolling-col s h = ground arith

put_cell-col : (c : ℕ) (fg bg : Colour) (s : Screen) → (put_cell c fg bg s).x < ncol
unfolding put_cell
put_cell-col c fg bg s = omega arith

-- From any column of the screen and any row, `write_char` changes no byte outside the 4000 bytes of
-- the video buffer, and leaves the column on the screen.
pub write_char-outside :
    (c : ℕ) (fg bg : Colour) (s : Screen) (q : ℕ)
    → s.x < ncol
    → within video_memory 4000 q ≡ false
    → ((write_char c fg bg s).mem q ≡ s.mem q) × ((write_char c fg bg s).x < ncol)
unfolding write_char
write_char-outside c fg bg s q hx out = ground (
  arith,
  handle_scrolling-outside q out (put_cell c fg bg (handle_scrolling s)),
  handle_scrolling-outside q out s,
  put_cell-outside q out c fg bg (handle_scrolling s) (handle_scrolling-col s hx)
      (handle_scrolling-row s),
  handle_scrolling-col (put_cell c fg bg (handle_scrolling s))
      (put_cell-col c fg bg (handle_scrolling s)),
)
