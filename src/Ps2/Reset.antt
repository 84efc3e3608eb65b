-- ===== src/Ps2/Reset.antt =====
-- src/driver/ps2.c, `reset_port`: the reset of the device at a port, and its identity.
pub mod Answers
use drewos.Base.{
  ℕ, suc, ◌+◌, ◌*◌, ◌^◌, ◌%◌, ◌==◌, ◌||◌, ◌&&◌, Bool, none, some, [], ◌∷◌, if◌then◌else◌, u16,
  codes,
}
use drewos.Machine.{Device, K, pure, ◌>>=◌, ◌>>◌}
use drewos.Print.{int}
use drewos.Ps2.{
  Port, port_code, resp_ack, say, select_port, ps2_send_data, try_read_data,
  ps2_send_device_command,
}

abbrev pub cmd_reset_device : ℕ
cmd_reset_device = 0xff

abbrev pub cmd_enable_scan : ℕ
cmd_enable_scan = 0xf4

abbrev pub cmd_disable_scan : ℕ
cmd_disable_scan = 0xf5

abbrev pub cmd_identify : ℕ
cmd_identify = 0xf2

abbrev pub resp_reset_success : ℕ
resp_reset_success = 0xaa

abbrev pub resp_reset_fail : ℕ
resp_reset_fail = 0xfc

-- The two orders in which a device tells of its reset.
abbrev pub reset_succeeded : ℕ → ℕ → Bool
reset_succeeded resp0 resp1 =
    (resp0 == resp_ack && resp1 == resp_reset_success)
    || (resp0 == resp_reset_success && resp1 == resp_ack)

module _ (dev : Device) where
  -- `if (try_read_data(&byte))` with its two branches.
  abbrev pub expect : {A : Type 0} → K A → (ℕ → K A) → K A
  expect missing use_byte =
      try_read_data dev >>= λ r. elim r [ none ↦ missing | some byte ↦ use_byte byte ]

  -- No answer: the identity becomes 0.
  unfoldable pub unpopulated : Port → K ℕ
  unpopulated port = do
    say dev (codes "Port %d is not populated") (int (port_code port) ∷ [])
    pure 0

  -- The complaint about the first two bytes of the response, if there is one.
  unfoldable pub report_reset : Port → ℕ → ℕ → K (Unit {0})
  report_reset port resp0 resp1 =
      if reset_succeeded resp0 resp1
      then pure tt
      else say dev (codes "Failed to reset port %d; resp = %x")
          (int (port_code port) ∷ int (u16 (resp0 * 2 ^ 8 + resp1)) ∷ [])

  -- The identity out of the response, with its second byte.
  unfoldable pub response_id : ℕ → K ℕ
  response_id resp2 =
      if resp2 == 0xab || resp2 == 0xac
      then expect (pure resp2) (λ special_code. pure (u16 (resp2 + special_code * 2 ^ 8)))
      else pure resp2

  -- The reply to the command that asks for the identity, of up to two bytes.
  unfoldable pub identify_reply : ℕ → K ℕ
  identify_reply device_id =
      expect (pure device_id)
        λ first. expect (pure first) λ second. pure (u16 (first * 2 ^ 8 + second))

  -- `reset_port` behind a response that is not the failure: the value is `*device_id`.
  unfoldable pub identify : ℕ → Port → ℕ → ℕ → ℕ → K ℕ
  identify patience port resp0 resp1 resp2 = do
    report_reset port resp0 resp1
    before ← response_id resp2
    ps2_send_device_command dev patience cmd_disable_scan port
    ps2_send_device_command dev patience cmd_identify port
    device_id ← identify_reply before
    ps2_send_device_command dev patience cmd_enable_scan port
    pure device_id

  -- A failed reset leaves the identity as it is.
  unfoldable pub reset_failed : ℕ → Port → K ℕ
  reset_failed device_id port = do
    say dev (codes "Port %d reset failed") (int (port_code port) ∷ [])
    pure device_id

  -- `*device_id` afterwards, from what it is before. The loop over the three bytes of the response is
  -- written out, and each command is sent at most `patience` times.
  unfoldable pub reset_port : ℕ → ℕ → Port → K ℕ
  reset_port patience device_id port = do
    select_port dev port
    ps2_send_data dev cmd_reset_device
    expect (unpopulated port) λ resp0. expect (unpopulated port) λ resp1.
        expect (unpopulated port) λ resp2.
          if resp0 == resp_reset_fail
          then reset_failed device_id port
          else identify patience port resp0 resp1 resp2
