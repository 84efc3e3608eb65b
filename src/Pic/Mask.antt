-- ===== src/Pic/Mask.antt =====
-- The interrupt masks, bit by bit.
use drewos.Base.{ℕ, ◌-◌, ◌/◌, ◌%◌, ◌^◌, ◌<◌, ◌≡◌, ◌∙◌, refl, ap, arith, bit_and, bit_or}
use drewos.Base.{Bool, true, ◌==◌, ==_iff, ltb, if◌then◌else◌, u8, u16, ◌∷◌}
use drewos.Base.Bytes.{passes_below, passes_below_at}
use drewos.Machine.{Device, Machine, K, Returns, read8, write8}
use drewos.Pic.{mask_port, chip_line, irq_set_mask, irq_clear_mask}

abbrev pub bit : ℕ → ℕ → ℕ
bit k v = v / 2 ^ k % 2

-- The changes of one bit, at every byte, every bit and every bit that is looked at.
abbrev set_bit_test : ℕ → ℕ → ℕ → Bool
set_bit_test v k j = bit j (u8 (bit_or v (2 ^ k))) == (if j == k then 1 else bit j v)

abbrev clear_bit_test : ℕ → ℕ → ℕ → Bool
clear_bit_test v k j = bit j (u8 (bit_and v (255 - u8 (2 ^ k)))) == (if j == k then 0 else bit j v)

abbrev on_bytes : (ℕ → ℕ → ℕ → Bool) → Bool
on_bytes test = passes_below (λ v. passes_below (λ k. passes_below (test v k) 8) 8) 256

set_bit_table : on_bytes set_bit_test ≡ true
unfolding passes_below
set_bit_table = refl

clear_bit_table : on_bytes clear_bit_test ≡ true
unfolding passes_below
clear_bit_table = refl

module _ (v k j : ℕ) (hv : v < 256) (hk : k < 8) (hj : j < 8) where
  on_bytes_at : (test : ℕ → ℕ → ℕ → Bool) → on_bytes test ≡ true → test v k j ≡ true
  on_bytes_at test passed = passes_below_at (test v k) 8 hj (
      passes_below_at (λ k'. passes_below (test v k') 8) 8 hk
        (passes_below_at (λ v'. passes_below (λ k'. passes_below (test v' k') 8) 8) 256 hv passed))

  pub set_bit : bit j (u8 (bit_or v (2 ^ k))) ≡ (if j == k then 1 else bit j v)
  set_bit = (==_iff _ _).0 (on_bytes_at set_bit_test set_bit_table)

  pub clear_bit : bit j (u8 (bit_and v (255 - u8 (2 ^ k)))) ≡ (if j == k then 0 else bit j v)
  clear_bit = (==_iff _ _).0 (on_bytes_at clear_bit_test clear_bit_table)

-- The controller in charge of a line answers with its mask at this port.
abbrev pub port_of : ℕ → ℕ
port_of irq = if ltb irq 8 then 0x21 else 0xa1

same_port : (irq : ℕ) → u16 (mask_port irq) ≡ port_of irq
same_port irq = ground arith

same_line : (irq : ℕ) → irq < 16 → chip_line irq ≡ irq % 8
same_line irq h = ground arith

twice_u8 : (v : ℕ) → u8 (u8 v) ≡ u8 v
twice_u8 v = omega arith

-- `irq_set_mask` on a line below 16 returns, and its accesses are: read the mask of the controller
-- in charge, and write back a byte which has the bit of the line set and every other bit as it was.
irq_set_mask_lem :
    (dev : Device) (irq j : ℕ) (m : Machine)
    → irq < 16
    → j < 8
    → let old : ℕ = u8 (dev m.trace (port_of irq)) in
      Returns (irq_set_mask dev irq m) λ _ m'.
        (new : ℕ) × (m'.trace ≡ write8 (port_of irq) new ∷ read8 (port_of irq) old ∷ m.trace)
        × (bit j new ≡ (if j == irq % 8 then 1 else bit j old))
unfolding irq_set_mask
irq_set_mask_lem dev irq j m h hj =
    let old : ℕ = u8 (dev m.trace (port_of irq)) in
    rw (same_port irq, same_line irq h)
      (
        u8 (u8 (bit_or old (2 ^ (irq % 8)))),
        refl,
        ap (λ (t : ℕ). bit j t) (twice_u8 (bit_or old (2 ^ (irq % 8))))
            ∙ set_bit old (irq % 8) j (omega arith) (omega arith) hj,
      )

-- `irq_clear_mask` on a line below 16 returns, and its accesses are: read the mask of the
-- controller in charge, and write back a byte which has the bit of the line cleared and every other
-- bit as it was.
irq_clear_mask_lem :
    (dev : Device) (irq j : ℕ) (m : Machine)
    → irq < 16
    → j < 8
    → let old : ℕ = u8 (dev m.trace (port_of irq)) in
      Returns (irq_clear_mask dev irq m) λ _ m'.
        (new : ℕ) × (m'.trace ≡ write8 (port_of irq) new ∷ read8 (port_of irq) old ∷ m.trace)
        × (bit j new ≡ (if j == irq % 8 then 0 else bit j old))
unfolding irq_clear_mask
irq_clear_mask_lem dev irq j m h hj =
    let old : ℕ = u8 (dev m.trace (port_of irq)) in
    rw (same_port irq, same_line irq h)
      (
        u8 (u8 (bit_and old (255 - u8 (2 ^ (irq % 8))))),
        refl,
        ap (λ (t : ℕ). bit j t) (twice_u8 (bit_and old (255 - u8 (2 ^ (irq % 8)))))
            ∙ clear_bit old (irq % 8) j (omega arith) (omega arith) hj,
      )

-- What a function that changes a mask does, in the bit `j`: its accesses are to read the mask of
-- the controller in charge of the line and to write back a byte whose bit of the line is `value`,
-- and whose other bits are as before.
abbrev pub Masks : Device → ℕ → ℕ → ℕ → Machine → K (Unit {0}) → Type 0
Masks dev value irq j m change =
    let old : ℕ = u8 (dev m.trace (port_of irq)) in
    Returns (change m) λ _ m'.
      (new : ℕ) × (m'.trace ≡ write8 (port_of irq) new ∷ read8 (port_of irq) old ∷ m.trace)
      × (bit j new ≡ (if j == irq % 8 then value else bit j old))

-- On every line below 16, `irq_set_mask` and `irq_clear_mask` return. Each reads the mask of the
-- controller in charge, at its port, and writes back a byte which has the bit of the line set, or
-- cleared, and each other bit as it was.
pub irq_masks_lem :
    (dev : Device) (irq j : ℕ) (m : Machine)
    → irq < 16
    → j < 8
    → Masks dev 1 irq j m (irq_set_mask dev irq) × Masks dev 0 irq j m (irq_clear_mask dev irq)
irq_masks_lem dev irq j m h hj =
    (irq_set_mask_lem dev irq j m h hj, irq_clear_mask_lem dev irq j m h hj)
