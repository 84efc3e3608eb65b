-- ===== src/Acpi/Search/Root.antt =====
-- What `validate_rsdp` accepts.
use drewos.Base.{
  ℕ, ◌+◌, ◌*◌, ◌%◌, ◌^◌, ◌<◌, ◌≡◌, refl, sym, ◌∙◌, arith, true, false, ◌==◌, ==_iff, Bool-cases,
  inl, inr, codes,
}
use drewos.Memory.{Memory}
use drewos.Acpi.{add_bytes}
use drewos.Acpi.Lookup.{sum_bytes, StandsAt, add_bytes-sum_bytes}
use drewos.Acpi.Search.{read64, little_endian, rsdp_signature, validate_rsdp, byte_at}

-- The signature stands at the address, and the bytes of the structure are in balance.
pub record IsRsdp (mem : Memory) (p : ℕ) : Type 0 where
  pub signed : StandsAt mem p 0 (codes "RSD PTR ")
  pub balanced : sum_bytes mem p 0 20 % 2 ^ 8 ≡ 0

signature_lem :
    (b0 b1 b2 b3 b4 b5 b6 b7 : ℕ)
    → b0 < 256
    → b1 < 256
    → b2 < 256
    → b3 < 256
    → b4 < 256
    → b5 < 256
    → b6 < 256
    → b7 < 256
    → b0
        + b1 * 2 ^ 8
        + b2 * 2 ^ 16
        + b3 * 2 ^ 24
        + b4 * 2 ^ 32
        + b5 * 2 ^ 40
        + b6 * 2 ^ 48
        + b7 * 2 ^ 56
      ≡ little_endian rsdp_signature
    → (b0 ≡ b'R')
      × (b1 ≡ b'S')
      × (b2 ≡ b'D')
      × (b3 ≡ b' ')
      × (b4 ≡ b'P')
      × (b5 ≡ b'T')
      × (b6 ≡ b'R')
      × (b7 ≡ b' ')
signature_lem b0 b1 b2 b3 b4 b5 b6 b7 h0 h1 h2 h3 h4 h5 h6 h7 e = (
  omega arith,
  omega arith,
  omega arith,
  omega arith,
  omega arith,
  omega arith,
  omega arith,
  omega arith,
)

pub false-true : false ≡ true → ⊥
false-true h = cc

module _ (mem : Memory) (p : ℕ) where
  signature-StandsAt :
      ((read64 mem p ≡ little_endian rsdp_signature) → StandsAt mem p 0 (codes "RSD PTR "))
      × (StandsAt mem p 0 (codes "RSD PTR ") → read64 mem p ≡ little_endian rsdp_signature)
  signature-StandsAt = (
    λ e.
        let (e0, e1, e2, e3, e4, e5, e6, e7) =
          signature_lem (byte_at mem p 0) (byte_at mem p 1) (byte_at mem p 2) (byte_at mem p 3)
            (byte_at mem p 4) (byte_at mem p 5) (byte_at mem p 6) (byte_at mem p 7) (omega arith)
            (omega arith) (omega arith) (omega arith) (omega arith) (omega arith) (omega arith)
            (omega arith) e in
        (e0, (e1, (e2, (e3, (e4, (e5, (e6, (e7, tt)))))))),
    λ (e0, (e1, (e2, (e3, (e4, (e5, (e6, (e7, u)))))))).
        omega (arith, e0, e1, e2, e3, e4, e5, e6, e7),
  )

  -- `validate_rsdp` accepts an address exactly if the eight characters of the signature stand there
  -- and the twenty bytes of the structure sum up to 0 modulo 256.
  pub validate_rsdp-IsRsdp :
      ((validate_rsdp mem p ≡ true) → IsRsdp mem p) × (IsRsdp mem p → validate_rsdp mem p ≡ true)
  unfolding validate_rsdp
  validate_rsdp-IsRsdp =
      let (to, from) = signature-StandsAt in
      let sum = add_bytes-sum_bytes mem p 20 0 0 (omega arith) in
      let total : ((add_bytes mem p 20 0 0 == 0) ≡ true) → sum_bytes mem p 0 20 % 2 ^ 8 ≡ 0 =
        λ h. omega (arith, (==_iff _ _).0 h, sum) in
      let zero_sum : sum_bytes mem p 0 20 % 2 ^ 8 ≡ 0 → (add_bytes mem p 20 0 0 == 0) ≡ true =
        λ h. (==_iff _ _).1 (omega (arith, h, sum)) in
      elim (Bool-cases (read64 mem p == little_endian rsdp_signature)) [
        | inl e ↦ (
          λ h. record { signed = to ((==_iff _ _).0 e); balanced = total (sum_test e h) },
          λ r. rw e (zero_sum r.balanced),
        )
        | inr e ↦ (
          λ h. absurd (no_signature e h),
          λ r. absurd (no_signature' e ((==_iff _ _).1 (from r.signed))),
        )
      ]
    where
      sum_test :
          (read64 mem p == little_endian rsdp_signature) ≡ true
          → validate_rsdp mem p ≡ true
          → (add_bytes mem p 20 0 0 == 0) ≡ true
      sum_test e h = sym (rw e refl) ∙ h

      no_signature :
          (read64 mem p == little_endian rsdp_signature) ≡ false → validate_rsdp mem p ≡ true → ⊥
      no_signature e h = false-true (sym (rw e refl) ∙ h)

      no_signature' :
          (read64 mem p == little_endian rsdp_signature) ≡ false
          → (read64 mem p == little_endian rsdp_signature) ≡ true
          → ⊥
      no_signature' e h = false-true (sym e ∙ h)
