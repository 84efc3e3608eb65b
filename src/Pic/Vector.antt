-- ===== src/Pic/Vector.antt =====
-- The vectors of the interrupt lines.
use drewos.Base.{ℕ, ◌+◌, ◌<◌, ◌≡◌, arith, some}
use drewos.Machine.{Device, Machine, Returns}
use drewos.Pic.{pic_remap, pic_init, pic_get_vector}

-- After `pic_init`, `pic_get_vector` maps the 16 lines in order to the vectors from 0x20 on, and
-- changes nothing.
pic_get_vector-init :
    (dev : Device) (irq : ℕ) (m : Machine)
    → irq < 16
    → Returns (pic_init dev m) λ _ m'. pic_get_vector irq m' ≡ some (0x20 + irq, m')
unfolding pic_init pic_remap pic_get_vector
pic_get_vector-init dev irq m h = ground arith
