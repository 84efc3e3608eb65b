-- ===== src/Acpi/Lookup.antt =====
-- What `get_sdt` finds.
use drewos.Base.{ℕ, zero, suc, ◌+◌, ◌%◌, ◌^◌, ◌<◌, ◌≤◌, ◌≡◌, refl, ap, ◌∙◌, arith, inl, inr}
use drewos.Base.{
  ◌≢◌, ◌*◌, ◌/◌, Bool, if◌then◌else◌, true, false, ◌==◌, ==_iff, Bool-cases, List, [], ◌∷◌, u8, u32,
}
use mathlib.Core.Path.{subst}
use drewos.Memory.{Memory}
use drewos.Acpi.{
  read32, Roots, header_length, add_bytes, validate_checksum, match_chars, validate_signature,
}
use drewos.Acpi.{get_num_tables, get_table, matches, find_table, get_sdt}

-- The sum of the `n` bytes from offset `i` on.
abbrev pub sum_bytes : Memory → ℕ → ℕ → ℕ → ℕ
sum_bytes mem header i zero = 0
sum_bytes mem header i (suc n) = u8 (mem (u32 (header + i))) + sum_bytes mem header (i + 1) n

-- The characters stand in memory from offset `i` on.
abbrev pub StandsAt : Memory → ℕ → ℕ → List ℕ → Type 0
StandsAt mem header i [] = Unit
StandsAt mem header i (c ∷ s) = (u8 (mem (u32 (header + i))) ≡ c) × StandsAt mem header (i + 1) s

-- A table with its bytes in balance and the signature in front.
pub record IsTable (mem : Memory) (signature : List ℕ) (header : ℕ) : Type 0 where
  pub balanced : sum_bytes mem header 0 (header_length mem header) % 2 ^ 8 ≡ 0
  pub signed : StandsAt mem header 0 signature

module _ (mem : Memory) (header : ℕ) where
  pub add_bytes-sum_bytes :
      (n i checksum : ℕ)
      → checksum < 2 ^ 8
      → add_bytes mem header n i checksum ≡ (checksum + sum_bytes mem header i n) % 2 ^ 8
  unfolding add_bytes
  add_bytes-sum_bytes zero i checksum h = omega arith
  add_bytes-sum_bytes (suc n) i checksum h =
      let byte : ℕ = u8 (mem (u32 (header + i))) in
      omega (arith, add_bytes-sum_bytes n (i + 1) (u8 (checksum + byte)) (omega arith))

  validate_checksum-eq :
      validate_checksum mem header
      ≡ (sum_bytes mem header 0 (header_length mem header) % 2 ^ 8 == 0)
  unfolding validate_checksum
  validate_checksum-eq =
      ap (λ (t : ℕ). t == 0)
        (add_bytes-sum_bytes (header_length mem header) 0 0 (omega arith) ∙ omega arith)

  match_chars-StandsAt :
      (s : List ℕ) (i : ℕ)
      → ((match_chars mem header s i ≡ true) → StandsAt mem header i s)
        × (StandsAt mem header i s → match_chars mem header s i ≡ true)
  unfolding match_chars
  match_chars-StandsAt [] i = (λ _. tt, λ _. refl)
  match_chars-StandsAt (c ∷ s) i =
      let (sound, complete) = match_chars-StandsAt s (i + 1) in
      elim (Bool-cases (u8 (mem (u32 (header + i))) == c)) [
        | inl e ↦ (λ h. ((==_iff _ _).0 e, sound (ground arith)), λ h. rw e (complete h.1))
        | inr e ↦ (λ h. absurd (ground arith), λ h. absurd (ground (arith, h.0)))
      ]

module _ (mem : Memory) (signature : List ℕ) (entry : ℕ → ℕ) where
  -- Entry `i` leads to a table that is in balance and has the signature.
  abbrev pub Listed : ℕ → Type 0
  Listed i = IsTable mem signature (entry i)

  -- Among the entries from `i` to `n`, the first that leads to such a table is taken; if there is
  -- none, the result is the null pointer.
  pub data Found (i n : ℕ) : ℕ → Type 0 where
    first :
        (k : ℕ)
        → i ≤ k
        → k < n
        → Listed k
        → ((j : ℕ) → i ≤ j → j < k → Listed j → ⊥)
        → Found i n (entry k)
    missing : ((j : ℕ) → i ≤ j → j < n → Listed j → ⊥) → Found i n 0

  Found-suc : {i n v : ℕ} → (Listed i → ⊥) → Found (i + 1) n v → Found i n v
  Found-suc {i} not_here (first k le lt listed before) =
      first k (omega arith) lt listed λ j hi hj t. elim (Bool-cases (i == j)) [
        | inl e ↦ not_here (subst Listed (ground arith) t)
        | inr e ↦ before j (ground arith) hj t
      ]
  Found-suc {i} not_here (missing before) = missing λ j hi hj t. elim (Bool-cases (i == j)) [
    | inl e ↦ not_here (subst Listed (ground arith) t)
    | inr e ↦ before j (ground arith) hj t
  ]

-- Where the root table lists its tables, behind its header of 36 bytes: in the RSDT each entry has 4
-- bytes. In the XSDT each has 8, of which the low half is the address, but the bytes are counted by
-- 4: as many entries again are looked at behind the table. Without a root there are none.
pub data Lists (mem : Memory) (roots : Roots) : ℕ → (ℕ → ℕ) → Type 0 where
  by_rsdt :
      roots.rsdt ≢ 0
      → Lists mem roots
          ((read32 mem (roots.rsdt + 4) + 4294967260) % 2 ^ 32 / 4)
          (λ i. read32 mem (roots.rsdt + 36 + 4 * i))
  by_xsdt :
      roots.rsdt ≡ 0
      → roots.xsdt ≢ 0
      → Lists mem roots
          ((read32 mem (roots.xsdt + 4) + 4294967260) % 2 ^ 32 / 4)
          (λ i. read32 mem (roots.xsdt + 36 + 8 * i))
  nowhere : roots.rsdt ≡ 0 → roots.xsdt ≡ 0 → Lists mem roots 0 (λ i. 0)

module _ (mem : Memory) (roots : Roots) where
  abbrev place_at : Bool → Bool → ℕ → ℕ
  place_at no_rsdt no_xsdt i =
      if no_rsdt
      then (if no_xsdt then 0 else read32 mem (roots.xsdt + 36 + 8 * i))
      else read32 mem (roots.rsdt + 36 + 4 * i)

  Lists-code :
      {n : ℕ} {entry : ℕ → ℕ}
      → Lists mem roots n entry
      → (get_num_tables mem roots ≡ n) × (get_table mem roots ≡ entry)
  unfolding get_num_tables get_table
  Lists-code (by_rsdt h) =
      let e : (roots.rsdt == 0) ≡ false = ground arith in
      (rw e refl, ap (λ b. place_at b (roots.xsdt == 0)) e)
  Lists-code (by_xsdt z h) =
      let e : (roots.rsdt == 0) ≡ true = ground arith in
      let e' : (roots.xsdt == 0) ≡ false = ground arith in
      (rw (e, e') refl, ap (λ b. place_at b (roots.xsdt == 0)) e ∙ ap (place_at true) e')
  Lists-code (nowhere z h) =
      let e : (roots.rsdt == 0) ≡ true = ground arith in
      let e' : (roots.xsdt == 0) ≡ true = ground arith in
      (rw (e, e') refl, ap (λ b. place_at b (roots.xsdt == 0)) e ∙ ap (place_at true) e')

module _ (mem : Memory) (roots : Roots) (signature : List ℕ) where
  matches-Listed :
      (i : ℕ)
      → ((matches mem roots signature i ≡ true) → Listed mem signature (get_table mem roots) i)
        × (Listed mem signature (get_table mem roots) i → matches mem roots signature i ≡ true)
  unfolding matches validate_signature
  matches-Listed i =
      let header : ℕ = get_table mem roots i in
      let sum = validate_checksum-eq mem header in
      let (sound, complete) = match_chars-StandsAt mem header signature 0 in
      (
        λ h. record { balanced = ground (arith, h, sum); signed = sound (ground (arith, h)) },
        λ t. ground (arith, t.balanced, sum, complete t.signed),
      )

  find_table-Found :
      (n i : ℕ)
      → Found mem signature (get_table mem roots) i (i + n) (find_table mem roots signature n i)
  unfolding find_table
  find_table-Found zero i = missing λ j hi hj t. absurd (omega arith)
  find_table-Found (suc n) i = elim (Bool-cases (matches mem roots signature i)) [
    | inl e ↦ rw e (
        first i (omega arith) (omega arith) ((matches-Listed i).0 e)
          λ j hi hj t. absurd (omega arith))
    | inr e ↦ rw e (
        Found-suc mem signature (get_table mem roots)
          (λ t. absurd (ground (arith, (matches-Listed i).1 t)))
          (subst
            (λ k.
              Found mem signature (get_table mem roots) (i + 1) k
                (find_table mem roots signature n (i + 1)))
            (omega arith) (find_table-Found n (i + 1))))
  ]

  -- Whatever is in memory, and wherever the root table lists its tables: `get_sdt` returns the first
  -- of the addresses listed at which the bytes sum up to 0 modulo 256 over the length in the header
  -- and which begins with the signature, and the null pointer if there is none. In an RSDT the
  -- addresses are its entries of 4 bytes behind the header; in an XSDT, which is used if there is no
  -- RSDT, they are the low halves of its entries of 8 bytes and of as many again behind its end.
  pub get_sdt-Found :
      {n : ℕ} {entry : ℕ → ℕ}
      → Lists mem roots n entry
      → Found mem signature entry 0 n (get_sdt mem roots signature)
  unfolding get_sdt
  get_sdt-Found {n} {entry} lists =
      let (count, places) = Lists-code mem roots lists in
      subst
        (λ f.
          Found mem signature f 0 n (find_table mem roots signature (get_num_tables mem roots) 0))
        places
        (subst
          (λ k.
            Found mem signature (get_table mem roots) 0 k
              (find_table mem roots signature (get_num_tables mem roots) 0))
          (omega (arith, count)) (find_table-Found (get_num_tables mem roots) 0))
