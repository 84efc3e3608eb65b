-- ===== src/Ps2/Init.antt =====
-- src/driver/ps2.c, `ps2_init_device` and `ps2_init`, in the steps that its comments name.
pub mod Steps
pub mod Devices
pub mod After
pub mod Detection
pub mod Outcome
use drewos.Base.{ℕ, ◌==◌, Bool, true, false, not, ◌||◌, ◌&&◌, some, [], ◌∷◌, if◌then◌else◌, codes}
use drewos.Machine.{
  Device, Platform, Machine, Ps2State, K, pure, gets, ◌>>=◌, ◌>>◌, read_byte, on_screen,
}
use drewos.Print.{int, str, print}
use drewos.Ps2.{Port, port0, port1, port_code, port_data, say, ps2_read_data, ps2_send_command}
use drewos.Ps2.Config.{clock_1, get_flag, initial_config, second_port_config, interrupts_config}
use drewos.Ps2.Config.{ps2_get_config, ps2_set_config, print_port_error_msg}
use drewos.Ps2.Identity.{DeviceKind, keyboard, mouse, unknown, DeviceType, dev_unknown}
use drewos.Ps2.Identity.{get_device_kind, get_device_type, get_device_type_str}
use drewos.Ps2.Reset.{reset_port}
use drewos.Keyboard.{ps2_kbd_init}

abbrev pub cmd_disable_port_1 : ℕ
cmd_disable_port_1 = 0xa7

abbrev pub cmd_enable_port_1 : ℕ
cmd_enable_port_1 = 0xa8

abbrev pub cmd_test_port_1 : ℕ
cmd_test_port_1 = 0xa9

abbrev pub cmd_test : ℕ
cmd_test = 0xaa

abbrev pub cmd_test_port_0 : ℕ
cmd_test_port_0 = 0xab

abbrev pub cmd_disable_port_0 : ℕ
cmd_disable_port_0 = 0xad

abbrev pub cmd_enable_port_0 : ℕ
cmd_enable_port_0 = 0xae

abbrev pub on_ps2 : (Ps2State → Ps2State) → K (Unit {0})
on_ps2 f m = some (tt, record m { ps2 = f m.ps2 })

-- `type == DEV_UNKNOWN`.
abbrev pub is_unknown : DeviceType → Bool
is_unknown dev_unknown = true
is_unknown _ = false

abbrev pub operational : Port → Ps2State → Bool
operational port0 s = s.port_0_operational
operational port1 s = s.port_1_operational

abbrev pub device_id_of : Port → Ps2State → ℕ
device_id_of port0 s = s.port0_id
device_id_of port1 s = s.port1_id

abbrev pub set_operational : Port → Bool → Ps2State → Ps2State
set_operational port0 ok s = record s { port_0_operational = ok }
set_operational port1 ok s = record s { port_1_operational = ok }

abbrev pub set_device_id : Port → ℕ → Ps2State → Ps2State
set_device_id port0 id s = record s { port0_id = id }
set_device_id port1 id s = record s { port1_id = id }

-- `!port_0_operational && (!dual_channel || !port_1_operational)`.
abbrev pub none_works : Ps2State → Bool
none_works s = not s.port_0_operational && (not s.dual_channel || not s.port_1_operational)

abbrev pub test_command : Port → ℕ
test_command port0 = cmd_test_port_0
test_command port1 = cmd_test_port_1

abbrev pub enable_command : Port → ℕ
enable_command port0 = cmd_enable_port_0
enable_command port1 = cmd_enable_port_1

module _ (dev : Device) where
  -- The devices are disabled, the output buffer is flushed, the configuration is modified.
  unfoldable pub prepare : K ℕ
  prepare = do
    ps2_send_command dev cmd_disable_port_0
    ps2_send_command dev cmd_disable_port_1
    flushed ← read_byte dev port_data
    config ← ps2_get_config dev
    ps2_set_config dev (initial_config config)
    pure (initial_config config)

  -- The result of the self-test.
  unfoldable pub self_test : K ℕ
  self_test = do ps2_send_command dev cmd_test; ps2_read_data dev

  -- The self-test may have reset the configuration.
  unfoldable pub restore : ℕ → K (Unit {0})
  restore config = do
    new_config ← ps2_get_config dev
    if new_config == config then pure tt else ps2_set_config dev config

  -- The second port is enabled to see whether there is one; the configuration is the value.
  unfoldable pub try_second : K ℕ
  try_second = do ps2_send_command dev cmd_enable_port_1; ps2_get_config dev

  -- A second port that exists is disabled again.
  unfoldable pub disable_second : ℕ → K (Unit {0})
  disable_second config = do
    ps2_send_command dev cmd_disable_port_1
    ps2_set_config dev (second_port_config config)

  unfoldable pub detect_second : K (Unit {0})
  detect_second = do
    config ← try_second
    on_ps2 (λ s. record s { dual_channel = not (get_flag clock_1 config) })
    elim (get_flag clock_1 config) [ true ↦ pure tt | false ↦ disable_second config ]

  -- The two messages about a port that is not in order.
  unfoldable pub report_port : Port → ℕ → K (Unit {0})
  report_port port resp = do
    on_screen (elim port [
      | port0 ↦ print (some (codes "PS/2 port 0 is faulty: ")) []
      | port1 ↦ print (some (codes "PS/2 port 1 is faulty: ")) []
    ])
    print_port_error_msg dev resp

  unfoldable pub ask_port : Port → K ℕ
  ask_port port = do ps2_send_command dev (test_command port); ps2_read_data dev

  unfoldable pub test_port : Port → K (Unit {0})
  test_port port = do
    resp ← ask_port port
    on_ps2 (set_operational port (resp == 0))
    elim (resp == 0) [ true ↦ pure tt | false ↦ report_port port resp ]

  unfoldable pub test_ports : K (Unit {0})
  test_ports = do
    test_port port0
    dual ← gets (λ m. m.ps2.dual_channel)
    elim dual [ true ↦ test_port port1 | false ↦ pure tt ]

  unfoldable pub enable_port : Port → K (Unit {0})
  enable_port port = do
    s ← gets (λ m. m.ps2)
    if operational port s then ps2_send_command dev (enable_command port) else pure tt

  unfoldable pub enable_ports : K (Unit {0})
  enable_ports = do
    enable_port port0
    enable_port port1
    config ← ps2_get_config dev
    s ← gets (λ m. m.ps2)
    ps2_set_config dev (interrupts_config s.port_0_operational s.port_1_operational config)

-- `patience` bounds the rounds of each device command, `rounds` those of the scan code set.
module _ (platform : Platform) (patience rounds : ℕ) where
  -- The driver for a kind of device; there is none for a mouse.
  unfoldable pub start_driver : DeviceKind → Port → K (Unit {0})
  start_driver keyboard port = ps2_kbd_init platform patience rounds port
  start_driver mouse port = pure tt
  start_driver unknown port = pure tt

  unfoldable pub ps2_init_device : ℕ → Port → K (Unit {0})
  ps2_init_device device_id port = elim (is_unknown (get_device_type device_id)) [
    | true ↦ do
      port0_id ← gets (λ m. m.ps2.port0_id)
      say platform.dev (codes "Failed to initialise ps2 device in port %d: Unknown device (ID: %x)")
          (int (port_code port) ∷ int port0_id ∷ [])
    | false ↦ do
      say platform.dev (codes "Port %d successfully initialised. Device type: %s")
          (int (port_code port) ∷ str (get_device_type_str (get_device_type device_id)) ∷ [])
      start_driver (get_device_kind (get_device_type device_id)) port
  ]

  -- A port that works is reset, and its device gets a driver.
  unfoldable pub bring_up : Port → K (Unit {0})
  bring_up port = do
    s ← gets (λ m. m.ps2)
    elim (operational port s) [
      | true ↦ do
        id ← reset_port platform.dev patience (device_id_of port s) port
        on_ps2 (set_device_id port id)
        ps2_init_device id port
      | false ↦ on_ps2 (set_device_id port 0)
    ]

  -- `ps2_init` behind the self-test that has passed.
  unfoldable pub init_ports : ℕ → K (Unit {0})
  init_ports config = do
    restore platform.dev config
    detect_second platform.dev
    test_ports platform.dev
    s ← gets (λ m. m.ps2)
    elim (none_works s) [
      | true ↦
          say platform.dev (codes "No PS/2 ports are operational. PS/2 driver will be disabled.") []
      | false ↦ do enable_ports platform.dev; bring_up port0; bring_up port1
    ]

  unfoldable pub ps2_init : K (Unit {0})
  ps2_init = do
    config ← prepare platform.dev
    result ← self_test platform.dev
    elim (result == 0x55) [
      | true ↦ init_ports config
      | false ↦ say platform.dev (codes "Error: PS/2 self-test failed") []
    ]
