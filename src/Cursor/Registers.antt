-- ===== src/Cursor/Registers.antt =====
-- The cursor on a CRT controller.
use drewos.Base.{ℕ, ◌*◌, ◌%◌, ◌^◌, ◌<◌, ◌≡◌, refl, arith, [], ◌∷◌, ◌==◌, if◌then◌else◌, u8}
use drewos.Base.{bit_or, true, ==_iff}
use drewos.Base.Bytes.{passes_below, passes_below_at}
use drewos.Machine.{
  Device, Machine, Trace, Event, Returns, read8, write8, read16, write16, load_idt,
  enable_interrupts,
}
use drewos.Cursor.{get_cursor, set_cursor, enable_cursor, disable_cursor}

-- The register selected, and what the registers hold.
pub record Crt : Type 0 where
  pub index : ℕ
  pub register : ℕ → ℕ

abbrev pub step : Event → Crt → Crt
step (write8 p v) c =
    if p == 0x3d4
    then record c { index = v }
    else if p == 0x3d5
    then record c { register = λ i. if i == c.index then v else c.register i }
    else c
step (read8 p v) c = c
step (read16 p v) c = c
step (write16 p v) c = c
step (load_idt a b) c = c
step enable_interrupts c = c

-- The registers behind a trace, from some start.
abbrev pub after : Crt → Trace → Crt
after start [] = start
after start (e ∷ t) = step e (after start t)

-- The data port answers with the register that is selected.
abbrev pub IsCrt : Device → Crt → Type 0
IsCrt dev start = (t : Trace) → dev t 0x3d5 ≡ (after start t).register ((after start t).index)

shape_test : (v : ℕ) → v < 32 → (u8 (u8 (bit_or v 0)) == v) ≡ true
unfolding passes_below
shape_test v h = passes_below_at (λ v. u8 (u8 (bit_or v 0)) == v) 32 h refl

shape_alone : (v : ℕ) → v < 32 → u8 (u8 (bit_or v 0)) ≡ v
shape_alone v h = (==_iff _ _).0 (shape_test v h)

module _ (dev : Device) (start : Crt) (crt : IsCrt dev start) where
  -- On a CRT controller, the cursor that `set_cursor` sets to a 16-bit number of characters is the one
  -- that `get_cursor` reports, as twice that number modulo 2 ^ 16. Both return.
  pub set_cursor-get_cursor :
      (offset : ℕ) (m : Machine)
      → offset < 2 ^ 16
      → Returns
          (set_cursor offset m)
          λ _ m'. Returns (get_cursor dev m') λ v _. v ≡ 2 * offset % 2 ^ 16
  unfolding set_cursor get_cursor
  set_cursor-get_cursor offset m h = rw (crt, crt) (omega arith)

  -- On a CRT controller, `enable_cursor` behind `disable_cursor` leaves exactly the shape in the first
  -- register of the shape, for a first line below 32, so that the cursor is visible again, and the two
  -- registers of the position are as they were.
  disable_cursor-enable_cursor :
      (first last : ℕ) (m : Machine)
      → first < 32
      → Returns (disable_cursor m) λ _ m'. Returns (enable_cursor dev first last m') λ _ m''.
        ((after start m''.trace).register 0x0a ≡ first)
        × ((after start m''.trace).register 0x0e ≡ (after start m.trace).register 0x0e)
        × ((after start m''.trace).register 0x0f ≡ (after start m.trace).register 0x0f)
  unfolding disable_cursor enable_cursor
  disable_cursor-enable_cursor first last m h = rw crt (shape_alone first h, refl, refl)
