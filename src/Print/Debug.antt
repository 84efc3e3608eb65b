-- ===== src/Print/Debug.antt =====
-- src/driver/vga.c, `print_offset` and `print_coords`, which print the place of the cursor. A buffer is
-- the format of a call without arguments, up to its NUL.
pub mod Plain
pub mod Shown
use drewos.Base.{ℕ, Option, some, List, [], ◌==◌, if◌then◌else◌, codes}
use drewos.Util.{itoa}
use drewos.Screen.{Screen, get_offset}
use drewos.Screen.Palette.{Colour, white, black, cyan}
use drewos.Print.{◌>>=◌, cprint}

-- `BUFSIZE`.
abbrev pub bufsize : ℕ
bufsize = 16

-- A number through the buffer, which the next number finds as it is left.
abbrev pub print_number : Colour → Colour → ℕ → List ℕ → Screen → Option (List ℕ × Screen)
print_number fg bg n buf s = do
  (res, buf') ← itoa n buf bufsize
  s' ← if res == 0 then cprint fg bg (some buf') [] s else some s
  some (buf', s')

-- What is in the buffer at first does not matter.
pub print_offset : List ℕ → Screen → Option Screen
print_offset buf s = do
  let offset = get_offset s.x s.y
  s1 ← cprint white black (some (codes " (offset = ")) [] s
  (buf', s2) ← print_number white black offset buf s1
  cprint white black (some (codes ")")) [] s2

pub print_coords : List ℕ → Screen → Option Screen
print_coords buf s = do
  let offset = get_offset s.x s.y
  s1 ← cprint cyan black (some (codes " (")) [] s
  (buf1, s2) ← print_number cyan black s.x buf s1
  s3 ← cprint cyan black (some (codes ", ")) [] s2
  (buf2, s4) ← print_number cyan black s.y buf1 s3
  s5 ← cprint cyan black (some (codes ", ")) [] s4
  (buf3, s6) ← print_number cyan black offset buf2 s5
  cprint cyan black (some (codes ")")) [] s6
