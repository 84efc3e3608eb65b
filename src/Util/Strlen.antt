-- ===== src/Util/Strlen.antt =====
-- `strlen` against the characters in front of the NUL.
use Prim.Native.Nat.{min}
use drewos.Base.{ℕ, zero, suc, ◌+◌, ◌≡◌, refl, arith, none, some}
use drewos.Base.{List, [], ◌∷◌, length, ◌==◌, if◌then◌else◌}
use drewos.Util.{count_chars, strlen}

-- The characters up to the first NUL, or all of them.
abbrev pub until_nul : List ℕ → List ℕ
until_nul [] = []
until_nul (c ∷ s) = if c == 0 then [] else c ∷ until_nul s

count_chars_lem :
    (s : List ℕ) (left len : ℕ) → count_chars s left len ≡ len + min left (length (until_nul s))
unfolding count_chars
count_chars_lem [] left len = omega arith
count_chars_lem (c ∷ s) zero len = omega arith
count_chars_lem (c ∷ s) (suc left) len = ground (arith, count_chars_lem s left (len + 1))

-- `strlen` counts the characters up to the first NUL, and stops at the limit; the null pointer has
-- length 0.
strlen_lem :
    (s : List ℕ) (maxlen : ℕ)
    → (strlen (some s) maxlen ≡ min maxlen (length (until_nul s))) × (strlen none maxlen ≡ 0)
unfolding strlen
strlen_lem s maxlen = (omega (arith, count_chars_lem s maxlen 0), refl)
