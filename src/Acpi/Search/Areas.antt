-- ===== src/Acpi/Search/Areas.antt =====
-- Where `locate_sdp` finds the root pointer.
use drewos.Base.{
  ℕ, zero, suc, ◌+◌, ◌*◌, ◌<◌, ◌≤◌, ◌≡◌, refl, sym, ◌∙◌, arith, Bool, true, false, ◌==◌, Bool-cases,
  inl, inr, some, ltb, ltb→lt,
}
use mathlib.Core.Path.{subst}
use drewos.Memory.{Memory}
use drewos.Acpi.Search.{validate_rsdp, sdp_search, locate_sdp, ebda_start}
use drewos.Acpi.Search.Root.{IsRsdp, validate_rsdp-IsRsdp, false-true}

absurd_bool : {b : Bool} → b ≡ false → b ≡ true → ⊥
absurd_bool e h = false-true (sym e ∙ h)

module _ (mem : Memory) where
  -- The places from `i` on, 16 bytes apart.
  abbrev pub place : ℕ → ℕ → ℕ
  place i k = i + 16 * k

  -- No place in front of place `n` is a root pointer.
  abbrev pub NoneBefore : ℕ → ℕ → Type 0
  NoneBefore i n = (k : ℕ) → k < n → IsRsdp mem (place i k) → ⊥

  -- The first root pointer among the places below the end, if there is one.
  pub data Searched (i end_address : ℕ) (p : ℕ) : Type 0 where
    hit :
        (k : ℕ)
        → p ≡ place i k
        → p < end_address
        → IsRsdp mem p
        → NoneBefore i k
        → Searched i end_address p
    miss : (n : ℕ) → p ≡ 0 → end_address ≤ place i n → NoneBefore i n → Searched i end_address p

  NoneBefore-suc : {i n : ℕ} → (IsRsdp mem i → ⊥) → NoneBefore (i + 16) n → NoneBefore i (suc n)
  NoneBefore-suc {i} first rest zero h r = first (subst (IsRsdp mem) (omega arith) r)
  NoneBefore-suc {i} first rest (suc k) h r =
      rest k (omega arith) (subst (IsRsdp mem) (omega arith) r)

  Searched-suc :
      {i end_address p : ℕ}
      → (IsRsdp mem i → ⊥)
      → Searched (i + 16) end_address p
      → Searched i end_address p
  Searched-suc first (hit k e h r before) =
      hit (suc k) (omega arith) h r (NoneBefore-suc first before)
  Searched-suc first (miss n e h before) =
      miss (suc n) e (omega arith) (NoneBefore-suc first before)

  -- With a round for each place and one more, the search comes to its end.
  sdp_search-Searched :
      (n i end_address : ℕ)
      → end_address ≤ place i n
      → (p : ℕ) × (sdp_search mem (suc n) i end_address ≡ some p) × Searched i end_address p
  unfolding sdp_search
  sdp_search-Searched zero i end_address enough =
      let e : ltb i end_address ≡ false = ground arith in
      (0, rw e refl, miss 0 refl (omega arith) (λ k h _. omega arith))
  sdp_search-Searched (suc n) i end_address enough = elim (Bool-cases (ltb i end_address)) [
    | inr e ↦ (0, rw e refl, miss 0 refl (ground arith) (λ k h _. omega arith))
    | inl e ↦ elim (Bool-cases (validate_rsdp mem i)) [
      | inl v ↦ (
        i,
        rw (e, v) refl,
        hit 0 (omega arith) (ltb→lt i end_address e) ((validate_rsdp-IsRsdp mem i).0 v)
            (λ k h _. omega arith),
      )
      | inr v ↦
          let (p, found, s) = sdp_search-Searched n (i + 16) end_address (omega arith) in
          (p, rw (e, v) found, Searched-suc (refused v) s)
    ]
  ]
    where
      refused : validate_rsdp mem i ≡ false → IsRsdp mem i → ⊥
      refused v r = absurd_bool v ((validate_rsdp-IsRsdp mem i).1 r)

  -- The root pointer of the machine: the first one in the first 1024 bytes of the EBDA, or, if there
  -- is none, the first one in the BIOS area; the null pointer stands for none at all.
  pub data Located (p : ℕ) : Type 0 where
    in_ebda :
        (k : ℕ)
        → k < 64
        → p ≡ place (ebda_start mem) k
        → IsRsdp mem p
        → NoneBefore (ebda_start mem) k
        → Located p
    in_bios :
        (k : ℕ)
        → k < 8192
        → p ≡ place 0xe0000 k
        → IsRsdp mem p
        → NoneBefore (ebda_start mem) 64
        → NoneBefore 0xe0000 k
        → Located p
    nowhere : p ≡ 0 → NoneBefore (ebda_start mem) 64 → NoneBefore 0xe0000 8192 → Located p

  before_end : (i n k : ℕ) → k ≤ n → NoneBefore i n → NoneBefore i k
  before_end i n k h none_yet j hj r = none_yet j (omega arith) r

  Searched-bios : {p : ℕ} → NoneBefore (ebda_start mem) 64 → Searched 0xe0000 0xfffff p → Located p
  Searched-bios ebda (hit k e h r before) = in_bios k (omega arith) e r ebda before
  Searched-bios ebda (miss n e h before) =
      nowhere e ebda (before_end 0xe0000 n 8192 (omega arith) before)

  -- Whatever is in memory, `locate_sdp` comes to its end, if the BIOS has left a segment of the EBDA
  -- that is not 0. It returns the first root pointer at one of the 64 places of the EBDA, or the
  -- first one at one of the 8192 places of the BIOS area if the EBDA has none, or the null pointer
  -- if no place has any.
  pub locate_sdp-Located : 0 < ebda_start mem → (p : ℕ) × (locate_sdp mem ≡ some p) × Located p
  unfolding locate_sdp
  locate_sdp-Located pos =
      by_ebda (sdp_search-Searched 64 (ebda_start mem) (ebda_start mem + 1024) (omega arith))
        (sdp_search-Searched 8192 0xe0000 0xfffff (omega arith))
    where
      by_ebda :
          (p : ℕ) × (sdp_search mem 65 (ebda_start mem) (ebda_start mem + 1024) ≡ some p)
            × Searched (ebda_start mem) (ebda_start mem + 1024) p
          → (p : ℕ) × (sdp_search mem 8193 0xe0000 0xfffff ≡ some p) × Searched 0xe0000 0xfffff p
          → (p : ℕ) × (locate_sdp mem ≡ some p) × Located p
      by_ebda (p, e, hit k place_is h r before) bios =
          let nonzero : (p == 0) ≡ false = ground arith in
          (p, rw (e, locate_sdp, nonzero) refl, in_ebda k (omega arith) place_is r before)
      by_ebda (p, e, miss n zero_is h before) (q, e', s) = (
        q,
        rw (e, locate_sdp, zero_is) e',
        Searched-bios (before_end (ebda_start mem) n 64 (omega arith) before) s,
      )
