-- ===== src/Memory.antt =====
-- The flat physical memory, and `copy_memory` of src/kernel/util.c. An address is a number, a byte
-- is stored as a number below 256. Nothing maps or protects memory here: paging is off.
pub mod Copy
use drewos.Base.{ℕ, zero, suc, ◌+◌, ◌*◌, ◌==◌, if◌then◌else◌}

abbrev pub Memory : Type 0
Memory = ℕ → ℕ

abbrev pub store : ℕ → ℕ → Memory → Memory
store p v mem q = if p == q then v else mem q

-- `src != end` holds for `n` rounds, which copy from the front.
pub copy_memory : ℕ → ℕ → ℕ → Memory → Memory
copy_memory src dst zero mem = mem
copy_memory src dst (suc n) mem = copy_memory (src + 1) (dst + 1) n (store dst (mem src) mem)
