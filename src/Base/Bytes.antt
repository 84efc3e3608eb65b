-- ===== src/Base/Bytes.antt =====
-- Bytes and their bits: every value of a small range by evaluation.
use Prim.Native.Nat.{ℕ, zero, suc, ◌<◌}
use mathlib.Core.Path.{◌≡◌}
use mathlib.Core.Bool.{Bool, true, ◌&&◌}
use native.Mathlib.Omega.{arith}

-- The test holds of all numbers below the second argument.
unfoldable pub passes_below : (ℕ → Bool) → ℕ → Bool
passes_below test zero = true
passes_below test (suc bound) = passes_below test bound && test bound

pub passes_below_at :
    (test : ℕ → Bool) (bound : ℕ) {k : ℕ}
    → k < bound
    → passes_below test bound ≡ true
    → test k ≡ true
unfolding passes_below
passes_below_at test zero h passed = absurd (omega arith)
passes_below_at test (suc bound) {k = k} h passed =
    ground (arith, passes_below_at test bound {k = k})
