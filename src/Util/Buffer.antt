-- ===== src/Util/Buffer.antt =====
-- A buffer that is filled from its front.
use mathlib.Core.List.{append-nil, append_assoc}
use native.Mathlib.Nat.{pow-suc, mul-div_cancel}
use drewos.Base.{ℕ, zero, suc, ◌+◌, ◌/◌, ◌%◌, ◌^◌, ◌≤◌, ◌<◌, ◌≡◌, refl, ap, sym, ◌∙◌, arith}
use drewos.Base.{List, [], ◌∷◌, ◌++◌, map, length, set, drop, length-append}
use drewos.Util.{put_prefix, put_digits, digit_code}
use drewos.Util.Digits.{digits}

-- `buf` with `text` over its first bytes.
abbrev pub written : List ℕ → List ℕ → List ℕ
written text buf = text ++ drop (length text) buf

pub length-written :
    (text buf : List ℕ) → length text ≤ length buf → length (written text buf) ≡ length buf
length-written [] buf h = refl
length-written (y ∷ text) [] h = absurd (omega arith)
length-written (y ∷ text) (b ∷ buf) h = ap suc (length-written text buf (omega arith))

pub set-written :
    (text buf : List ℕ) (c : ℕ)
    → length text < length buf
    → set (written text buf) (length text) c ≡ written (text ++ (c ∷ [])) buf
set-written text [] c h = absurd (omega arith)
set-written [] (b ∷ buf) c h = refl
set-written (y ∷ text) (b ∷ buf) c h = ap (λ r. y ∷ r) (set-written text buf c (omega arith))

module _ (buf : List ℕ) where
  pub put_prefix-written :
      (pfx text : List ℕ) (offset : ℕ)
      → offset ≡ length text
      → length text + length pfx ≤ length buf
      → put_prefix pfx offset (written text buf) ≡ written (text ++ pfx) buf
  unfolding put_prefix
  put_prefix-written [] text offset e h = rw append-nil
  put_prefix-written (c ∷ pfx) text offset e h =
      rw (e, set-written text buf c (omega arith))
        (put_prefix-written pfx (text ++ (c ∷ [])) (length text + 1)
            (sym (length-append text (c ∷ []))) (omega (arith, length-append text (c ∷ [])))
          ∙ ap (λ t. written t buf) (append_assoc text (c ∷ []) pfx))

  -- With the power of the base before the first digit as its magnitude, the loop writes the digits.
  pub put_digits-written :
      (b : ℕ)
      → 0 < b
      → (k x magnitude : ℕ) (text : List ℕ) (offset : ℕ) → ((j : ℕ) → k ≡ suc j → magnitude ≡ b ^ j)
      → offset ≡ length text
      → length text + k ≤ length buf
      → put_digits k b offset x magnitude (written text buf)
        ≡ written (text ++ map digit_code (digits b k x)) buf
  unfolding put_digits
  put_digits-written b pos zero x magnitude text offset m e h = rw append-nil
  put_digits-written b pos (suc j) x magnitude text offset m e h =
      rw (e, m j refl, set-written text buf (digit_code (x / b ^ j)) (omega arith))
        (put_digits-written b pos j (x % b ^ j) (b ^ j / b) (text ++ (digit_code (x / b ^ j) ∷ []))
            (length text + 1) (λ j' e'. rw (e', pow-suc) (mul-div_cancel (b ^ j') pos))
            (sym (length-append text (digit_code (x / b ^ j) ∷ [])))
            (omega (arith, length-append text (digit_code (x / b ^ j) ∷ [])))
          ∙ ap (λ t. written t buf)
              (append_assoc text (digit_code (x / b ^ j) ∷ [])
                (map digit_code (digits b j (x % b ^ j)))))
