-- ===== src/Screen/Clear.antt =====
-- What the loops that empty cells do to each byte.
use Prim.Native.Nat.{ℕ}
use drewos.Base.{zero, suc, ◌+◌, ◌-◌, ◌*◌, ◌%◌, ◌≡◌, refl, ◌∙◌, arith, if◌then◌else◌, ◌==◌}
use drewos.Memory.{Memory, store}
use drewos.Memory.Copy.{within}
use drewos.Screen.{Screen, clear_cells, clrscr, video_memory}

-- The byte of an empty cell that lies `d` bytes behind the start of a cell.
abbrev pub blank : ℕ → ℕ
blank d = if d % 2 == 0 then b' ' else 0

pub clear_cells_lem :
    (n p : ℕ) (mem : Memory) (q : ℕ)
    → clear_cells n p mem q ≡ (if within p (2 * n) q then blank (q - p) else mem q)
unfolding clear_cells
clear_cells_lem zero p mem q = ground arith
clear_cells_lem (suc n) p mem q =
    clear_cells_lem n (p + 2) (store (p + 1) 0 (store p b' ' mem)) q ∙ ground arith

-- `clrscr` makes each of the 4000 bytes of the video buffer a space or an attribute 0 by turns,
-- changes no other byte, and goes back to the first cell.
pub clrscr_lem :
    (s : Screen) (q : ℕ)
    → ((clrscr s).mem q
        ≡ (if within video_memory 4000 q then blank (q - video_memory) else s.mem q))
      × ((clrscr s).x ≡ 0)
      × ((clrscr s).y ≡ 0)
unfolding clrscr
clrscr_lem s q = (clear_cells_lem 2000 video_memory s.mem q, refl, refl)
