-- ===== src/Pic/Chip.antt =====
-- The initialisation protocol of an 8259, and what `pic_remap` makes of the two chips.
use drewos.Base.{
  arith, ℕ, suc, ◌/◌, ◌%◌, ◌^◌, ◌≡◌, refl, Bool, true, false, [], ◌∷◌, ◌==◌, if◌then◌else◌, u8,
}
use drewos.Machine.{Event, Trace, Device, Machine, Returns, read8, write8}
use drewos.Pic.{pic_remap}

-- How far the initialisation of a chip is: idle, or what it waits for next.
pub data Stage : Type 0 where
  ready wants_icw2 wants_icw3 wants_icw4 : Stage

pub record Chip : Type 0 where
  pub stage : Stage
  pub is_single : Bool
  pub has_icw4 : Bool
  pub vector_base : ℕ
  pub wiring : ℕ
  pub mode : ℕ
  pub mask : ℕ

-- A command with bit 4 is ICW1, whatever the stage. It clears the mask; bit 1 says that there is no
-- ICW3 to come, and bit 0 that there is an ICW4: without one the mode is 0, the one of the 8085.
abbrev command_word : ℕ → Chip → Chip
command_word v chip =
    if v / 2 ^ 4 % 2 == 1
    then record {
      stage = wants_icw2;
      is_single = v / 2 % 2 == 1;
      has_icw4 = v % 2 == 1;
      vector_base = chip.vector_base;
      wiring = chip.wiring;
      mode = if v % 2 == 1 then chip.mode else 0;
      mask = 0;
    }
    else chip

-- What comes behind the wiring, and behind the vector base.
abbrev behind_icw3 : Chip → Stage
behind_icw3 chip = if chip.has_icw4 then wants_icw4 else ready

abbrev behind_icw2 : Chip → Stage
behind_icw2 chip = if chip.is_single then behind_icw3 chip else wants_icw3

-- The data words behind ICW1 are the vector base, the wiring and the mode; others are masks.
abbrev data_word : Stage → ℕ → Chip → Chip
data_word ready v chip = record chip { mask = v }
data_word wants_icw2 v chip = record chip { stage = behind_icw2 chip; vector_base = v }
data_word wants_icw3 v chip = record chip { stage = behind_icw3 chip; wiring = v }
data_word wants_icw4 v chip = record chip { stage = ready; mode = v }

-- The chip at a command port and the data port behind it.
abbrev pub hears : ℕ → Event → Chip → Chip
hears port (write8 p v) chip =
    if p == port
    then command_word v chip
    else if p == suc port
    then data_word chip.stage v chip
    else chip
hears port _ chip = chip

-- What a chip has become when the accesses were made, the latest of which is the first.
abbrev pub after_trace : ℕ → Chip → Trace → Chip
after_trace port chip [] = chip
after_trace port chip (e ∷ t) = hears port e (after_trace port chip t)

-- The mask that each chip answers with when `pic_remap` begins.
abbrev pub master_mask : Device → Trace → ℕ
master_mask dev t = u8 (dev t 0x21)

abbrev pub slave_mask : Device → Trace → ℕ
slave_mask dev t = u8 (dev (read8 0x21 (master_mask dev t) ∷ t) 0xa1)

abbrev pub initialised : ℕ → ℕ → ℕ → Chip
initialised offset wiring mask = record {
  stage = ready;
  is_single = false;
  has_icw4 = true;
  vector_base = u8 offset;
  wiring = wiring;
  mode = 1;
  mask = mask;
}

-- `pic_remap` returns. Read by the protocol, its accesses take the two chips, in whatever state they
-- were, to a finished initialisation: the vector bases are the low bytes of the two offsets, the
-- master knows of a slave on line 2, the slave of its identity 2, both are in 8086 mode, and each
-- has the mask that it answered with at the beginning. The offsets are remembered, and the screen
-- and the variables of the other drivers are as before.
pub pic_remap_lem :
    (dev : Device) (offset1 offset2 : ℕ) (m : Machine) (master slave : Chip)
    → Returns (pic_remap dev offset1 offset2 m) λ _ m'.
      (after_trace 0x20 master m'.trace ≡ initialised offset1 4 (master_mask dev m.trace))
      × (after_trace 0xa0 slave m'.trace ≡ initialised offset2 2 (slave_mask dev m.trace))
      × (m'.pic ≡ record { offset0 = u8 offset1; offset1 = u8 offset2 })
      × (m'.screen ≡ m.screen)
      × (m'.interrupts ≡ m.interrupts)
      × (m'.ps2 ≡ m.ps2)
      × (m'.keyboard ≡ m.keyboard)
      × (m'.acpi ≡ m.acpi)
unfolding pic_remap
pic_remap_lem dev offset1 offset2 m master slave =
    (ground arith, ground arith, refl, refl, refl, refl, refl, refl)
