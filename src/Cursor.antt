-- ===== src/Cursor.antt =====
-- src/driver/vga.c, the cursor: the registers 10, 11, 14 and 15 of the CRT controller, which a write
-- to the control port selects and the data port holds.
pub mod Registers
use drewos.Base.{ℕ, ◌+◌, ◌*◌, ◌/◌, ◌%◌, ◌^◌, bit_and, bit_or, u8, u16}
use drewos.Machine.{Device, K, pure, ◌>>=◌, ◌>>◌, read_byte, write_byte}
use drewos.Screen.{ncol, nrow, get_offset}

abbrev pub reg_ctrl : ℕ
reg_ctrl = 0x3d4

abbrev pub reg_data : ℕ
reg_data = 0x3d5

unfoldable pub get_cursor : Device → K ℕ
get_cursor dev = do
  write_byte reg_ctrl 0x0e
  high ← read_byte dev reg_data
  write_byte reg_ctrl 0x0f
  low ← read_byte dev reg_data
  pure (u16 (u16 (high * 2 ^ 8 + low) * 2))

-- `offset` is a `uint16_t`.
unfoldable pub set_cursor : ℕ → K (Unit {0})
set_cursor offset = do
  write_byte reg_ctrl 0x0f
  write_byte reg_data (u8 (u16 offset))
  write_byte reg_ctrl 0x0e
  write_byte reg_data (u8 (u16 offset / 2 ^ 8))

unfoldable pub set_cursor_screen : ℕ → ℕ → K (Unit {0})
unfolding set_cursor
set_cursor_screen x y = set_cursor (get_offset x y % (ncol * nrow * 2))

unfoldable pub enable_cursor : Device → ℕ → ℕ → K (Unit {0})
enable_cursor dev start end_line = do
  write_byte reg_ctrl 0x0a
  old_start ← read_byte dev reg_data
  write_byte reg_data (u8 (bit_or start (bit_and old_start 0xc0)))
  write_byte reg_ctrl 0x0b
  old_end ← read_byte dev reg_data
  write_byte reg_data (u8 (bit_or end_line (bit_and old_end 0xe0)))

unfoldable pub disable_cursor : K (Unit {0})
disable_cursor = do write_byte reg_ctrl 0x0a; write_byte reg_data 0x20
