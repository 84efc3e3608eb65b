-- ===== src/Keyboard.antt =====
-- src/driver/ps2_keyboard.c: the driver of a PS/2 keyboard.
pub mod Scan
pub mod Setup
pub mod Interrupt
use drewos.Base.{
  ℕ, zero, suc, ◌==◌, Bool, true, false, some, none, List, [], ◌∷◌, if◌then◌else◌, u8, codes,
}
use drewos.Machine.{Platform, Machine, KeyboardState, K, pure, gets, ◌>>=◌, ◌>>◌, on_screen}
use drewos.Print.{Arg, int, println}
use drewos.Pic.{pic_get_vector, irq_clear_mask}
use drewos.Idt.{idt_install_irq_handler}
use drewos.Ps2.{
  Port, port0, port1, port_code, say, ps2_read_data, ps2_send_data, ps2_send_device_command,
}

abbrev pub ps2_kbd_irq : ℕ
ps2_kbd_irq = 1

-- `CMD_SET_SCAN_CODE`, which `CMD_GET_SCAN_CODE` is another name for.
abbrev pub cmd_set_scan_code : ℕ
cmd_set_scan_code = 0xf0

abbrev pub cmd_key_enable_scan : ℕ
cmd_key_enable_scan = 0xf4

-- `scan_code_set_t`.
pub data ScanCodeSet : Type 0 where
  set_1 set_2 set_3 : ScanCodeSet

abbrev pub get_scan_code_set_id : ScanCodeSet → ℕ
get_scan_code_set_id set_1 = 1
get_scan_code_set_id set_2 = 2
get_scan_code_set_id set_3 = 3

abbrev pub get_scan_code_set : ℕ → ScanCodeSet
get_scan_code_set id = if id == 3 then set_3 else if id == 2 then set_2 else set_1

-- The test `new_set != set`, on the numbers of the enumerators.
abbrev pub differ : ScanCodeSet → ScanCodeSet → Bool
differ a b = if get_scan_code_set_id a == get_scan_code_set_id b then false else true

unfoldable pub ps2_kbd_irq_handler : K (Unit {0})
ps2_kbd_irq_handler = on_screen (println (some (codes "ps2_kbd: Keyboard interrupt received")) [])

unfoldable pub get_vector : K ℕ
get_vector = pic_get_vector ps2_kbd_irq

-- `_port` as a `port_t`; it only ever holds the number of one.
abbrev pub port_of : ℕ → Port
port_of n = if n == 1 then port1 else port0

abbrev pub on_keyboard : (KeyboardState → KeyboardState) → K (Unit {0})
on_keyboard f m = some (tt, record m { keyboard = f m.keyboard })

-- `patience` bounds the rounds of `ps2_send_device_command`.
module _ (platform : Platform) (patience : ℕ) where
  unfoldable pub ps2_kbd_send_cmd : ℕ → K (Unit {0})
  ps2_kbd_send_cmd cmd = do
    port ← gets (λ m. m.keyboard.port)
    ps2_send_device_command platform.dev patience cmd (port_of port)

  unfoldable pub ps2_kbd_get_scan_code : K ScanCodeSet
  ps2_kbd_get_scan_code = do
    ps2_kbd_send_cmd cmd_set_scan_code
    id ← ps2_read_data platform.dev
    pure (get_scan_code_set id)

  -- The function calls itself until the keyboard reports the set; here at most `rounds` times in all.
  unfoldable pub ps2_kbd_set_scan_codes : ℕ → ScanCodeSet → K (Unit {0})
  ps2_kbd_set_scan_codes zero set = λ m. none
  ps2_kbd_set_scan_codes (suc rounds) set = do
    ps2_kbd_send_cmd cmd_set_scan_code
    ps2_send_data platform.dev (get_scan_code_set_id set)
    new_set ← ps2_kbd_get_scan_code
    elim (differ new_set set) [
      | false ↦ pure tt
      | true ↦ do
        say platform.dev (codes "ps2_kbd_get_scan_code() gives scan code %d but expected %d...")
            (int (get_scan_code_set_id new_set) ∷ int (get_scan_code_set_id set) ∷ [])
        ps2_kbd_set_scan_codes rounds set
    ]

  abbrev pub tell : List ℕ → K (Unit {0})
  tell msg = say platform.dev msg []

  -- The commands of `ps2_kbd_init` to the controllers and the keyboard.
  unfoldable pub configure : ℕ → Port → K (Unit {0})
  configure rounds port = do
    say platform.dev (codes "Initialising PS/2 keyboard in port %d...") (int (port_code port) ∷ [])
    tell (codes "Unmasking IRQ1...")
    irq_clear_mask platform.dev 0x01
    tell (codes "Enabling scanning...")
    ps2_kbd_send_cmd cmd_key_enable_scan
    tell (codes "Enabling scan code 1...")
    ps2_kbd_set_scan_codes rounds set_1
    tell (codes "Installing IRQ handler...")

  -- `ps2_kbd_init` behind its first test, up to the interrupt.
  unfoldable pub set_up : ℕ → Port → K (Unit {0})
  set_up rounds port = do
    on_keyboard (λ k. record k { port = port_code port })
    vector ← get_vector
    on_keyboard (λ k. record k { vector = u8 vector })
    configure rounds port
    installed ← gets (λ m. m.keyboard.vector)
    idt_install_irq_handler platform installed platform.keyboard_handler_address
    tell (codes "Triggerring interrupt 0x21...")

  unfoldable pub ps2_kbd_init : ℕ → Port → K (Unit {0})
  ps2_kbd_init rounds port = do
    vector ← gets (λ m. m.keyboard.vector)
    elim (vector == 0) [
      | true ↦ do
        set_up rounds port
        platform.software_interrupt 0x21
        tell (codes "Successfully triggered interrupt 0x21!")
      | false ↦ pure tt
    ]
