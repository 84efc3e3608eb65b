-- ===== src/Tests/Kernel.antt =====
-- src/kernel/dmath.c and src/kernel/util.c at fixed inputs.
use drewos.Base.{ℕ, ◌^◌, ◌≡◌, refl, arith, inl, some, List, [], ◌∷◌, replicate, codes, ◌++◌}
use drewos.Math.{ilog, ilog_loop, ipow, ipow_loop}
use drewos.Math.Pow.{ipow_lem}
use drewos.Math.Log.{Outcome, ilog-Outcome}
use drewos.Util.{itoa, itoa_base, fill, put_prefix, put_digits, out_size}
use drewos.Util.Digits.{IsNumeral}
use drewos.Util.Itoa.{printed}
use drewos.Util.Spelling.{spelling, absolute, itoa_base-IsNumeral}
use drewos.Memory.{copy_memory}
use drewos.Memory.Copy.{copy_memory_lem}

-- -2 ^ 31 as a bit pattern; its text is the longest in base 10.
abbrev least : ℕ
least = 2 ^ 31

abbrev buffer : List ℕ
buffer = replicate 12 7

ipow_lem_example : ipow 10 9 ≡ some 1000000000
ipow_lem_example = ipow_lem 10 9 (omega arith)

ilog-Outcome_example : Outcome 10 4321
ilog-Outcome_example = ilog-Outcome 10 4321 (omega arith)

itoa_base-IsNumeral_example :
    (ds : List ℕ) × IsNumeral 10 (absolute least) ds
    × (itoa_base least 10 buffer 12 ≡ some (printed (spelling least 10 ds) buffer 12))
itoa_base-IsNumeral_example =
    itoa_base-IsNumeral least 10 buffer 12 (omega arith) (omega arith) (omega arith) (omega arith)

itoa-least : itoa least buffer 12 ≡ some (0, codes "-2147483648" ++ 0 ∷ [])
unfolding itoa itoa_base ilog ilog_loop ipow ipow_loop put_prefix put_digits fill out_size
itoa-least = refl

-- An overlapping copy, one byte down.
copy_memory_lem_example : copy_memory 11 10 4 (λ p. p) 12 ≡ 13
copy_memory_lem_example = copy_memory_lem 4 11 10 (λ p. p) 12 (inl (omega arith))
