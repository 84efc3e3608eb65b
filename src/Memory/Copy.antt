-- ===== src/Memory/Copy.antt =====
-- What `copy_memory` does to each byte.
use drewos.Base.{ℕ, zero, suc, ◌+◌, ◌-◌, ◌≤◌, ◌≡◌, arith, ltb, leb, ◌&&◌, ◌∙◌, Bool, ◌⊎◌, inl, inr}
use drewos.Base.{if◌then◌else◌}
use drewos.Memory.{Memory, store, copy_memory}

-- Whether `p` is one of the `n` addresses from `start` on.
abbrev pub within : ℕ → ℕ → ℕ → Bool
within start n p = leb start p && ltb p (start + n)

-- A copy to a lower place moves each byte: the destination reads what the source read before, and
-- no other byte changes, also where the two overlap.
pub copy_memory_down :
    (n src dst : ℕ) (mem : Memory) (p : ℕ)
    → dst ≤ src
    → copy_memory src dst n mem p ≡ (if within dst n p then mem (src + (p - dst)) else mem p)
unfolding copy_memory
copy_memory_down zero src dst mem p h = ground arith
copy_memory_down (suc n) src dst mem p h =
    copy_memory_down n (src + 1) (dst + 1) (store dst (mem src) mem) p (omega arith) ∙ ground arith

-- Where the destination does not begin inside of the source, each byte of it reads what the source
-- read before, and no other byte changes. A destination that begins behind the start of the source and
-- inside of it is excluded: there the loop reads bytes that it has already written.
pub copy_memory_lem :
    (n src dst : ℕ) (mem : Memory) (p : ℕ)
    → (dst ≤ src) ⊎ (src + n ≤ dst)
    → copy_memory src dst n mem p ≡ (if within dst n p then mem (src + (p - dst)) else mem p)
unfolding copy_memory
copy_memory_lem n src dst mem p (inl h) = copy_memory_down n src dst mem p h
copy_memory_lem zero src dst mem p (inr h) = ground arith
copy_memory_lem (suc n) src dst mem p (inr h) =
    copy_memory_lem n (src + 1) (dst + 1) (store dst (mem src) mem) p (inr (omega arith))
    ∙ ground arith
