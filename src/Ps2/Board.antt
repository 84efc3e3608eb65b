-- ===== src/Ps2/Board.antt =====
-- An 8042 controller with a PS/2 keyboard that nobody types on, or with nothing at its first port, and
-- with a mouse that nobody moves, or with no second port, as the data sheets have them: what they
-- make of the accesses to the ports 0x60 and 0x64. This is hardware, of which src/driver/ps2.c is
-- the driver.
pub mod World
pub mod Talks
pub mod Transfers
pub mod Configuration
pub mod Detection
pub mod Ports
pub mod Second
pub mod Pair
pub mod Paired
pub mod Driver
pub mod Identity
pub mod Mouse
pub mod Ready
pub mod Bring
pub mod Outcome
pub mod Absent
pub mod Phantom
use drewos.Base.{
  ℕ, ◌≡◌, ◌==◌, Bool, true, false, not, List, [], ◌∷◌, ◌++◌, if◌then◌else◌, bit_and, u8,
}
use drewos.Base.{◌&&◌, leb}
use drewos.Machine.{Event, read8, write8, Trace, Device}
use drewos.Ps2.Config.{get_flag, set_flag, clock_0, clock_1}

-- What the next byte at port 0x60 is: a command to the keyboard, the argument of its command 0xf0, or
-- the configuration or a command to the mouse, with what comes behind it.
pub data Awaited : Type 0 where
  for_keyboard for_scan_set : Awaited
  for_config for_mouse : Awaited → Awaited

-- There is no second port, or there is a mouse at it, with its clock off or on.
pub data SecondPort : Type 0 where
  absent off on : SecondPort

-- What the keyboard waits for.
abbrev by_keyboard : Awaited → Awaited
by_keyboard (for_config next) = next
by_keyboard (for_mouse next) = next
by_keyboard awaited = awaited

-- The bytes that wait in the output buffer, the one that was read last, and the configuration of the
-- controller; the clock of the port is on in `enabled`, and in `populated` there is a keyboard at it.
pub record Board : Type 0 where
  pub output : List ℕ
  pub last : ℕ
  pub config : ℕ
  pub enabled : Bool
  pub awaits : Awaited
  pub scan_set : ℕ
  pub populated : Bool
  pub mouse : SecondPort

-- The byte that port 0x60 shows, the last one again when there is no other.
abbrev first_or : ℕ → List ℕ → ℕ
first_or last [] = last
first_or last (byte ∷ _) = byte

abbrev pub shown : Board → ℕ
shown b = first_or b.last b.output

abbrev rest : List ℕ → List ℕ
rest [] = []
rest (_ ∷ bytes) = bytes

abbrev pub is_empty : List ℕ → Bool
is_empty [] = true
is_empty (_ ∷ _) = false

abbrev pub taken : Board → Board
taken b = record b { output = rest b.output; last = shown b }

abbrev answers : List ℕ → Board → Board
answers bytes b = record b { output = b.output ++ bytes }

-- The clock of the second port goes off, or is as in a configuration.
abbrev pub switched_off : SecondPort → SecondPort
switched_off absent = absent
switched_off off = off
switched_off on = off

abbrev pub clocked : Bool → SecondPort → SecondPort
clocked clock absent = absent
clocked clock off = if clock then on else off
clocked clock on = if clock then on else off

-- Where there is no second port, its clock stays off, and its test has no result.
abbrev second_opened : SecondPort → Board → Board
second_opened absent b = b
second_opened _ b = record b { config = set_flag clock_1 false b.config; mouse = on }

abbrev second_tested : SecondPort → Board → Board
second_tested absent b = b
second_tested _ b = answers (0 ∷ []) b

-- A command to the controller.
abbrev command_byte : ℕ → Board → Board
command_byte v b =
    if v == 0x20
    then answers (b.config ∷ []) b
    else if v == 0x60
    then record b { awaits = for_config (by_keyboard b.awaits) }
    else if v == 0xa7
    then record b { config = set_flag clock_1 true b.config; mouse = switched_off b.mouse }
    else if v == 0xa8
    then second_opened b.mouse b
    else if v == 0xa9
    then second_tested b.mouse b
    else if v == 0xd4
    then record b { awaits = for_mouse (by_keyboard b.awaits) }
    else if v == 0xaa
    then answers (0x55 ∷ []) b
    else if v == 0xab
    then answers (0 ∷ []) b
    else if v == 0xad
    then record b { config = set_flag clock_0 true b.config; enabled = false }
    else if v == 0xae
    then record b { config = set_flag clock_0 false b.config; enabled = true }
    else b

-- A command to the keyboard.
abbrev keyboard_byte : ℕ → Board → Board
keyboard_byte v b =
    if v == 0xff
    then record b { output = b.output ++ 0xfa ∷ 0xaa ∷ []; scan_set = 2 }
    else if v == 0xf5
    then answers (0xfa ∷ []) b
    else if v == 0xf4
    then answers (0xfa ∷ []) b
    else if v == 0xf2
    then answers (0xfa ∷ 0xab ∷ 0x83 ∷ []) b
    else if v == 0xf0
    then record b { output = b.output ++ 0xfa ∷ []; awaits = for_scan_set }
    else answers (0xfe ∷ []) b

-- The argument 0 asks for the set, 1 to 3 choose one; another byte is a command.
abbrev scan_set_byte : ℕ → Board → Board
scan_set_byte v b =
    if v == 0
    then record b { output = b.output ++ 0xfa ∷ b.scan_set ∷ []; awaits = for_keyboard }
    else if leb v 3
    then record b { output = b.output ++ 0xfa ∷ []; awaits = for_keyboard; scan_set = v }
    else keyboard_byte v (record b { awaits = for_keyboard })

-- A command to the mouse, which is no wheel mouse.
abbrev mouse_byte : ℕ → Board → Board
mouse_byte v b =
    if v == 0xff
    then answers (0xfa ∷ 0xaa ∷ 0x00 ∷ []) b
    else if v == 0xf5
    then answers (0xfa ∷ []) b
    else if v == 0xf4
    then answers (0xfa ∷ []) b
    else if v == 0xf2
    then answers (0xfa ∷ 0x00 ∷ []) b
    else answers (0xfe ∷ []) b

abbrev second_byte : SecondPort → ℕ → Board → Board
second_byte on v b = mouse_byte v b
second_byte _ v b = b

-- The keyboard hears nothing while its clock is off.
abbrev data_byte : Awaited → ℕ → Board → Board
data_byte (for_config next) v b = record b {
  config = v;
  enabled = not (get_flag clock_0 v);
  awaits = next;
  mouse = clocked (not (get_flag clock_1 v)) b.mouse;
}
data_byte (for_mouse next) v b = second_byte b.mouse v (record b { awaits = next })
data_byte for_keyboard v b = if b.enabled && b.populated then keyboard_byte v b else b
data_byte for_scan_set v b = if b.enabled && b.populated then scan_set_byte v b else b

abbrev pub hears : Event → Board → Board
hears (read8 port _) b = if port == 0x60 then taken b else b
hears (write8 port v) b =
    if port == 0x64 then command_byte v b else if port == 0x60 then data_byte b.awaits v b else b
hears _ b = b

-- The board behind a byte for the keyboard and one byte of its answer.
abbrev pub asked : ℕ → Board → Board
asked cmd b = taken (hears (write8 0x60 (u8 cmd)) b)

-- The board behind the accesses, the latest of which is the first.
abbrev pub after_trace : Board → Trace → Board
after_trace b [] = b
after_trace b (e ∷ t) = hears e (after_trace b t)

-- The device is the board that is `start` at first: its status shows a full output buffer and never a
-- full input buffer, and its data port shows what `shown` says. Its other ports are any hardware.
pub record Obeys (start : Board) (dev : Device) : Type 0 where
  pub accepts : (t : Trace) → bit_and (u8 (dev t 0x64)) 0x02 ≡ 0
  pub announces :
      (t : Trace) → (bit_and (u8 (dev t 0x64)) 0x01 == 0) ≡ is_empty (after_trace start t).output
  pub shows : (t : Trace) → u8 (dev t 0x60) ≡ u8 (shown (after_trace start t))

-- Nothing is under way, and the clock of the keyboard's port is on.
abbrev pub idle : (populated : Bool) (mouse : SecondPort) (last config scan_set : ℕ) → Board
idle populated mouse last config scan_set = record {
  output = [];
  last = last;
  config = config;
  enabled = true;
  awaits = for_keyboard;
  scan_set = scan_set;
  populated = populated;
  mouse = mouse;
}
