-- ===== src/Pic.antt =====
-- src/kernel/pic.c, the two 8259 interrupt controllers.
pub mod Chip
pub mod Mask
pub mod Registers
pub mod Vector
use drewos.Base.{
  ℕ, ◌+◌, ◌-◌, ◌*◌, ◌%◌, ◌^◌, bit_and, bit_or, some, ltb, leb, if◌then◌else◌, u8, u16,
}
use drewos.Machine.{Device, Machine, K, pure, ◌>>=◌, ◌>>◌, read_byte, write_byte, io_wait}

abbrev pub pic_master_command : ℕ
pic_master_command = 0x20

abbrev pub pic_master_data : ℕ
pic_master_data = 0x21

abbrev pub pic_slave_command : ℕ
pic_slave_command = 0xa0

abbrev pub pic_slave_data : ℕ
pic_slave_data = 0xa1

abbrev pub pic_eoi : ℕ
pic_eoi = 0x20

abbrev pub icw1_icw4 : ℕ
icw1_icw4 = 0x01

abbrev pub icw1_init : ℕ
icw1_init = 0x10

abbrev pub icw4_8086 : ℕ
icw4_8086 = 0x01

abbrev pub pic_read_irr : ℕ
pic_read_irr = 0x0a

abbrev pub pic_read_isr : ℕ
pic_read_isr = 0x0b

unfoldable pic_send_eoi : ℕ → K (Unit {0})
pic_send_eoi irq = do
  if leb 8 irq then write_byte pic_slave_command pic_eoi else pure tt
  write_byte pic_master_command pic_eoi

abbrev set_offsets : ℕ → ℕ → K (Unit {0})
set_offsets offset1 offset2 m =
    pure tt (record m { pic = record { offset0 = u8 offset1; offset1 = u8 offset2 } })

-- The two arguments are an `int` each.
unfoldable pub pic_remap : Device → ℕ → ℕ → K (Unit {0})
pic_remap dev offset1 offset2 = do
  set_offsets offset1 offset2
  mask_master ← read_byte dev pic_master_data
  mask_slave ← read_byte dev pic_slave_data
  write_byte pic_master_command (bit_or icw1_init icw1_icw4)
  io_wait
  write_byte pic_slave_command (bit_or icw1_init icw1_icw4)
  io_wait
  write_byte pic_master_data offset1
  io_wait
  write_byte pic_slave_data offset2
  io_wait
  write_byte pic_master_data 4
  io_wait
  write_byte pic_slave_data 2
  io_wait
  write_byte pic_master_data icw4_8086
  io_wait
  write_byte pic_slave_data icw4_8086
  io_wait
  write_byte pic_master_data mask_master
  write_byte pic_slave_data mask_slave

unfoldable pub pic_init : Device → K (Unit {0})
pic_init dev = pic_remap dev 0x20 0x28

unfoldable pic_disable : K (Unit {0})
pic_disable = do write_byte pic_master_data 0xff; write_byte pic_slave_data 0xff

unfoldable pub pic_get_vector : ℕ → K ℕ
pic_get_vector irq m =
    some (if ltb irq 8 then u8 (m.pic.offset0 + irq) else u8 (m.pic.offset1 + (irq - 8)), m)

abbrev mask_port : ℕ → ℕ
mask_port irq_line = if ltb irq_line 8 then pic_master_data else pic_slave_data

-- `irq_line` behind `irq_line -= 8` on the second controller.
abbrev chip_line : ℕ → ℕ
chip_line irq_line = if ltb irq_line 8 then irq_line else irq_line - 8

unfoldable pub irq_set_mask : Device → ℕ → K (Unit {0})
irq_set_mask dev irq_line = do
  old ← read_byte dev (mask_port irq_line)
  write_byte (mask_port irq_line) (u8 (bit_or old (2 ^ chip_line irq_line)))

-- Only the low byte of `~(1 << irq_line)` meets the byte that is read.
unfoldable pub irq_clear_mask : Device → ℕ → K (Unit {0})
irq_clear_mask dev irq_line = do
  old ← read_byte dev (mask_port irq_line)
  write_byte (mask_port irq_line) (u8 (bit_and old (255 - u8 (2 ^ chip_line irq_line))))

-- `slave_irq << 8 | master_irq`.
unfoldable pub pic_get_irq_reg : Device → ℕ → K ℕ
pic_get_irq_reg dev ocw3 = do
  write_byte pic_master_command ocw3
  write_byte pic_slave_command ocw3
  slave_irq ← read_byte dev pic_slave_command
  master_irq ← read_byte dev pic_master_command
  pure (u16 (bit_or (slave_irq * 2 ^ 8) master_irq))

unfoldable pub pic_get_irr : Device → K ℕ
pic_get_irr dev = pic_get_irq_reg dev pic_read_irr

unfoldable pub pic_get_isr : Device → K ℕ
pic_get_isr dev = pic_get_irq_reg dev pic_read_isr
