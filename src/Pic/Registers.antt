-- ===== src/Pic/Registers.antt =====
-- The two registers that `pic_get_irq_reg` puts together.
use drewos.Base.{
  ℕ, ◌*◌, ◌+◌, ◌/◌, ◌%◌, ◌^◌, ◌<◌, ◌≡◌, refl, arith, true, ◌==◌, ==_iff, bit_or, u8, ◌∷◌,
}
use drewos.Base.Bytes.{passes_below, passes_below_at}
use drewos.Machine.{Device, Machine, Trace, Returns, read8, write8}
use drewos.Pic.{pic_get_irq_reg}

joined_table :
    passes_below (λ s. passes_below (λ m. bit_or (s * 2 ^ 8) m == s * 2 ^ 8 + m) 256) 256 ≡ true
unfolding passes_below
joined_table = refl

joined : (s m : ℕ) → s < 256 → m < 256 → bit_or (s * 2 ^ 8) m ≡ s * 2 ^ 8 + m
joined s m hs hm = (==_iff _ _).0 (
    passes_below_at (λ m'. bit_or (s * 2 ^ 8) m' == s * 2 ^ 8 + m') 256 hm
      (passes_below_at (λ s'. passes_below (λ m'. bit_or (s' * 2 ^ 8) m' == s' * 2 ^ 8 + m') 256)
        256 hs joined_table))

-- `pic_get_irq_reg` writes its command to the master and then the slave, and reads the slave and then
-- the master. The high byte of the result is what the slave answers, the low byte what the master
-- answers.
pic_get_irq_reg_lem :
    (dev : Device) (ocw3 : ℕ) (m : Machine)
    → let asked : Trace = write8 0xa0 (u8 ocw3) ∷ write8 0x20 (u8 ocw3) ∷ m.trace in
      let slave : ℕ = u8 (dev asked 0xa0) in
      let master : ℕ = u8 (dev (read8 0xa0 slave ∷ asked) 0x20) in
      Returns (pic_get_irq_reg dev ocw3 m) λ v m'.
        (v / 2 ^ 8 ≡ slave)
        × (v % 2 ^ 8 ≡ master)
        × (m'.trace ≡ read8 0x20 master ∷ read8 0xa0 slave ∷ asked)
unfolding pic_get_irq_reg
pic_get_irq_reg_lem dev ocw3 m =
    let asked : Trace = write8 0xa0 (u8 ocw3) ∷ write8 0x20 (u8 ocw3) ∷ m.trace in
    let slave : ℕ = u8 (dev asked 0xa0) in
    let master : ℕ = u8 (dev (read8 0xa0 slave ∷ asked) 0x20) in
    let sum = joined slave master (omega arith) (omega arith) in
    rw sum (omega arith, omega arith, refl)
