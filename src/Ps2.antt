-- ===== src/Ps2.antt =====
-- src/driver/ps2.c, the 8042 controller: waiting, reading and sending. The identities of devices are
-- in Identity.
pub mod Identity
pub mod Wait
pub mod Resend
pub mod Answers
pub mod Reset
pub mod Silent
pub mod Stubborn
pub mod Config
pub mod Init
pub mod Board
use drewos.Base.{ℕ, zero, suc, ◌+◌, ◌-◌, ◌*◌, ◌%◌, ◌^◌, bit_and, Bool, true, false, not, ◌||◌, ◌&&◌}
use drewos.Base.{Option, none, some, List, [], ◌∷◌, ◌==◌, if◌then◌else◌, u8, u16, codes}
use drewos.Machine.{
  Device, Machine, Ps2State, K, pure, ◌>>=◌, ◌>>◌, read_byte, write_byte, on_screen,
}
use drewos.Print.{Arg, int, println}

abbrev pub port_data : ℕ
port_data = 0x60

abbrev pub port_status : ℕ
port_status = 0x64

abbrev pub port_command : ℕ
port_command = 0x64

abbrev pub default_wait : ℕ
default_wait = 1024

abbrev pub cmd_write_input_port_1 : ℕ
cmd_write_input_port_1 = 0xd4

abbrev pub resp_ack : ℕ
resp_ack = 0xfa

abbrev pub resp_resend : ℕ
resp_resend = 0xfe

-- `port_t`.
pub data Port : Type 0 where
  port0 port1 : Port

abbrev pub port_code : Port → ℕ
port_code port0 = 0
port_code port1 = 1

-- The loop `while (!ready() && wait--)`; the value is `wait` behind it. At 0 the test of `wait--`
-- fails, and `wait` wraps.
unfoldable pub wait_loop : K Bool → ℕ → K ℕ
wait_loop test zero = do ok ← test; pure (if ok then 0 else 2 ^ 32 - 1)
wait_loop test (suc wait) = do
  ok ← test
  elim ok [ true ↦ pure (suc wait) | false ↦ wait_loop test wait ]

-- The device asks for the command once more.
abbrev pub wants_resend : Option ℕ → Bool
wants_resend none = false
wants_resend (some resp) = resp == resp_resend

module _ (dev : Device) where
  unfoldable pub get_status : K ℕ
  get_status = read_byte dev port_status

  unfoldable pub command_ready : K Bool
  unfolding get_status
  command_ready = do status ← get_status; pure (bit_and status 0x02 == 0)

  unfoldable pub response_ready : K Bool
  unfolding get_status
  response_ready = do status ← get_status; pure (not (bit_and status 0x01 == 0))

  -- `return wait` as a `bool`.
  unfoldable pub ps2_buffer_wait : K Bool
  ps2_buffer_wait = do wait ← wait_loop command_ready default_wait; pure (not (wait == 0))

  unfoldable pub response_wait : K Bool
  response_wait = do wait ← wait_loop response_ready default_wait; pure (not (wait == 0))

  -- `none` is the result `false`; otherwise the byte that is stored through `data`.
  unfoldable pub try_read_data : K (Option ℕ)
  try_read_data = do
    ok ← response_wait
    elim ok [ true ↦ do byte ← read_byte dev port_data; pure (some byte) | false ↦ pure none ]

  abbrev pub say : List ℕ → List Arg → K (Unit {0})
  say msg args = on_screen (println (some msg) args)

  unfoldable pub ps2_read_data : K ℕ
  ps2_read_data = do
    resp ← try_read_data
    elim resp [
      | some byte ↦ pure byte
      | none ↦ do say (codes "Error: PS/2 controller did not write a response") []; pure 0
    ]

  unfoldable pub ps2_send_data : ℕ → K (Unit {0})
  ps2_send_data byte = do
    ok ← ps2_buffer_wait
    elim ok [
      | true ↦ write_byte port_data byte
      | false ↦ say (codes "Error: PS/2 controller faield to enter ready state") []
    ]

  unfoldable pub ps2_send_command : ℕ → K (Unit {0})
  ps2_send_command command = do
    ok ← ps2_buffer_wait
    elim ok [
      | true ↦ write_byte port_command command
      | false ↦ say (codes "Error: ps/2 controller failed to enter ready state") []
    ]

  -- The prefix that directs the next byte to the second port.
  unfoldable pub select_port : Port → K (Unit {0})
  select_port port0 = pure tt
  select_port port1 = ps2_send_command cmd_write_input_port_1

  -- One round of `ps2_send_device_command`: the command and the answer to it.
  unfoldable pub send_once : ℕ → Port → K (Option ℕ)
  send_once cmd port = do select_port port; ps2_send_data cmd; try_read_data

  -- What is printed about an answer that is not a request to send again.
  pub report_answer : ℕ → Port → Option ℕ → K (Unit {0})
  report_answer cmd port none =
      say (codes "Error: device %d command %x did not generate a response (timeout)")
        (int (port_code port) ∷ int cmd ∷ [])
  report_answer cmd port (some resp) =
      if resp == resp_ack
      then pure tt
      else say (codes "Error: device %d command %x failed; expected ACK (0xFA), but received %x")
          (int (port_code port) ∷ int cmd ∷ int resp ∷ [])

  -- The function calls itself as often as the device asks for it; here at most `patience` times
  -- in all.
  unfoldable pub ps2_send_device_command : ℕ → ℕ → Port → K (Unit {0})
  ps2_send_device_command zero cmd port = λ m. none
  ps2_send_device_command (suc patience) cmd port = do
    answer ← send_once cmd port
    elim (wants_resend answer) [
      | true ↦ ps2_send_device_command patience cmd port
      | false ↦ report_answer cmd port answer
    ]
