-- ===== src/Screen/Scroll.antt =====
-- What scrolling does to each byte.
use drewos.Base.{ℕ, zero, suc, ◌+◌, ◌-◌, ◌*◌, ◌≤◌, ◌≡◌, ◌∙◌, arith}
use drewos.Base.{if◌then◌else◌}
use drewos.Memory.{Memory, copy_memory}
use drewos.Memory.Copy.{within, copy_memory_down}
use drewos.Screen.{video_memory, get_address, move_rows, scroll_up}
use drewos.Screen.Clear.{blank, clear_cells_lem}

get_address-row : (i : ℕ) → i ≤ 25 → get_address 0 i ≡ video_memory + 160 * i
get_address-row i h = omega arith

-- One round copies row `i` over the row above.
move_row :
    (i : ℕ) (mem : Memory) (q : ℕ)
    → 1 ≤ i
    → i ≤ 25
    → copy_memory (get_address 0 i) (get_address 0 (i - 1)) 160 mem q
      ≡ (if within (video_memory + 160 * (i - 1)) 160 q then mem (q + 160) else mem q)
move_row i mem q h k =
    copy_memory_down 160 (get_address 0 i) (get_address 0 (i - 1)) mem q (omega arith)
    ∙ ground (arith, get_address-row i, get_address-row (i - 1))

move_rows_lem :
    (n i : ℕ) (mem : Memory) (q : ℕ)
    → 1 ≤ i
    → i + n ≤ 25
    → move_rows n i mem q
      ≡ (if within (video_memory + 160 * (i - 1)) (160 * n) q then mem (q + 160) else mem q)
unfolding move_rows
move_rows_lem zero i mem q h k = ground arith
move_rows_lem (suc n) i mem q h k =
    move_rows_lem n (i + 1) moved q (omega arith) (omega arith)
    ∙ ground (arith, move_row i mem q, move_row i mem (q + 160))
  where
    moved : Memory
    moved = copy_memory (get_address 0 i) (get_address 0 (i - 1)) 160 mem

-- The bytes of the first 24 rows are those of the row below, the last row is empty, and no other
-- byte changes.
abbrev pub scrolled : Memory → Memory
scrolled mem q =
    if within video_memory 3840 q
    then mem (q + 160)
    else if within (video_memory + 3840) 160 q
    then blank (q - (video_memory + 3840))
    else mem q

pub scroll_up_lem : (mem : Memory) (q : ℕ) → scroll_up mem q ≡ scrolled mem q
unfolding scroll_up
scroll_up_lem mem q =
    clear_cells_lem 80 (get_address 0 24) (move_rows 24 1 mem) q
    ∙ ground (arith, move_rows_lem 24 1 mem q)
