-- ===== src/Screen/Grid.antt =====
-- A terminal as a reader thinks of it: 25 rows of 80 cells and the place of the next character. It
-- knows nothing of addresses and bytes. The screen is held against it in Write.
use drewos.Base.{ℕ, ◌+◌, ◌-◌, ◌%◌, ◌^◌, ltb, ◌==◌, ◌&&◌, if◌then◌else◌}
use drewos.Screen.{nrow, ncol}

-- A character and its attribute: the background colour times 16, plus the foreground colour.
abbrev pub Cell : Type 0
Cell = ℕ × ℕ

abbrev pub empty_cell : Cell
empty_cell = (b' ', 0)

-- The cell in a row and a column.
abbrev pub Cells : Type 0
Cells = ℕ → ℕ → Cell

pub record Grid : Type 0 where
  pub cells : Cells
  pub row : ℕ
  pub col : ℕ

abbrev pub put : Cells → ℕ → ℕ → Cell → Cells
put cells row col cell r c = if r == row && c == col then cell else cells r c

-- Every row becomes the row below it, and the last one is empty.
abbrev pub scroll : Cells → Cells
scroll cells r c = if ltb (r + 1) nrow then cells (r + 1) c else empty_cell

-- A place below the last row is brought back to the start of the last row, by one scroll.
abbrev pub bring_back : Grid → Grid
bring_back g =
    if ltb g.row nrow then g else record { cells = scroll g.cells; row = nrow - 1; col = 0 }

-- The next place: to the right, or the start of the next row.
abbrev pub put_next : Cell → Grid → Grid
put_next cell g =
    let cells = put g.cells g.row g.col cell in
    if ltb (g.col + 1) ncol
    then record { cells = cells; row = g.row; col = g.col + 1 }
    else record { cells = cells; row = g.row + 1; col = 0 }

-- A line feed only moves the place, and the row number counts modulo 256.
abbrev pub typed : ℕ → Cell → Grid → Grid
typed c cell g =
    if c == b'\n'
    then record g { row = (g.row + 1) % 2 ^ 8; col = 0 }
    else if c == b'\r'
    then record g { col = 0 }
    else bring_back (put_next cell (bring_back g))
