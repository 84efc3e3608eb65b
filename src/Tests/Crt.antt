-- ===== src/Tests/Crt.antt =====
-- The cursor of src/driver/vga.c on a CRT controller whose registers begin at 0.
use drewos.Base.{◌*◌, ◌%◌, ◌^◌, ◌≡◌, refl, arith}
use drewos.Machine.{Device, Returns}
use drewos.Cursor.{get_cursor, set_cursor}
use drewos.Cursor.Registers.{Crt, after, set_cursor-get_cursor}
use drewos.Cursor.Registers.{}
use drewos.Tests.Data.{machine}

abbrev zeros : Crt
zeros = record { index = 0; register = λ i. 0 }

abbrev crt : Device
crt t p = (after zeros t).register ((after zeros t).index)

set_cursor-get_cursor_example :
    Returns
      (set_cursor 1999 machine)
      λ _ m'. Returns (get_cursor crt m') λ v _. v ≡ 2 * 1999 % 2 ^ 16
set_cursor-get_cursor_example =
    set_cursor-get_cursor crt zeros (λ t. refl) 1999 machine (omega arith)
