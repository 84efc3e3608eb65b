-- ===== src/Ps2/Config.antt =====
-- src/driver/ps2.c, the configuration byte of the controller: a union of the byte and its flags.
pub mod Flags
use drewos.Base.{
  ℕ, ◌+◌, ◌-◌, ◌*◌, ◌/◌, ◌%◌, ◌^◌, ◌==◌, Bool, true, false, not, [], if◌then◌else◌, codes,
}
use drewos.Machine.{Device, K, pure, ◌>>=◌, ◌>>◌}
use drewos.Ps2.{say, ps2_read_data, ps2_send_data, ps2_send_command}

abbrev pub cmd_read_ram : ℕ
cmd_read_ram = 0x20

abbrev pub cmd_write_ram : ℕ
cmd_write_ram = 0x60

-- The flags of `config_t` by their places in the byte, the first one lowest.
abbrev pub port_0_interrupt : ℕ
port_0_interrupt = 0

abbrev pub port_1_interrupt : ℕ
port_1_interrupt = 1

abbrev pub clock_0 : ℕ
clock_0 = 4

abbrev pub clock_1 : ℕ
clock_1 = 5

abbrev pub port_0_translation : ℕ
port_0_translation = 6

abbrev pub get_flag : ℕ → ℕ → Bool
get_flag flag config = not (config / 2 ^ flag % 2 == 0)

-- An assignment to one of the flags.
abbrev pub set_flag : ℕ → Bool → ℕ → ℕ
set_flag flag on config = config - config / 2 ^ flag % 2 * 2 ^ flag + (if on then 2 ^ flag else 0)

-- The assignments of `ps2_init` to its first configuration.
abbrev pub initial_config : ℕ → ℕ
initial_config config =
    set_flag clock_0 false
      (set_flag port_0_translation false (set_flag port_0_interrupt true config))

-- Those behind the detection of a second port.
abbrev pub second_port_config : ℕ → ℕ
second_port_config config = set_flag clock_1 false (set_flag port_1_interrupt false config)

-- Those at the end, for the ports that work.
abbrev pub interrupts_config : Bool → Bool → ℕ → ℕ
interrupts_config first second config =
    let with_first : ℕ = if first then set_flag port_0_interrupt true config else config in
    if second then set_flag port_1_interrupt true with_first else with_first

module _ (dev : Device) where
  unfoldable pub ps2_get_config : K ℕ
  ps2_get_config = do ps2_send_command dev cmd_read_ram; ps2_read_data dev

  unfoldable pub ps2_set_config : ℕ → K (Unit {0})
  ps2_set_config config = do ps2_send_command dev cmd_write_ram; ps2_send_data dev config

  unfoldable pub print_port_error_msg : ℕ → K (Unit {0})
  print_port_error_msg status =
      if status == 0x01
      then say dev (codes "Clock line stuck low") []
      else if status == 0x02
      then say dev (codes "Clock line stuck high") []
      else if status == 0x03
      then say dev (codes "Data line stuck low") []
      else if status == 0x04
      then say dev (codes "Data line stuck high ") []
      else say dev (codes "Unknown error") []
