-- ===== src/Tests/Controller.antt =====
-- src/driver/ps2.c at fixed inputs.
use drewos.Base.{ℕ, ltb, ◌≡◌, refl, Bool, none, some, ◌==◌, if◌then◌else◌}
use drewos.Machine.{Device, Machine}
use drewos.Ps2.{port0, ps2_buffer_wait, response_wait}
use drewos.Ps2.{ps2_send_device_command}
use drewos.Ps2.Wait.{Waited, takes_command, has_response, waits-Waited}
use drewos.Ps2.Answers.{sent}
use drewos.Ps2.Stubborn.{ps2_send_device_command-endless}
use drewos.Tests.Data.{machine}

-- Ready for a command, with a response at hand, and the response is `answer`.
abbrev answering : ℕ → Device
answering answer t p = if p == 0x64 then 1 else answer

waits-Waited_example :
    ((b : Bool) × (m' : Machine) × Waited (answering 0xfa) takes_command machine b m'
      × (ps2_buffer_wait (answering 0xfa) machine ≡ some (b, m')))
    × ((b : Bool) × (m' : Machine) × Waited (answering 0xfa) has_response machine b m'
        × (response_wait (answering 0xfa) machine ≡ some (b, m')))
waits-Waited_example = waits-Waited (answering 0xfa) machine

-- It asks for the first two bytes to be sent again, and acknowledges those behind them.
abbrev third_time : ℕ → ℕ
third_time n = if ltb n 3 then 0xfe else 0xfa

abbrev counting : Device
counting t p = if p == 0x64 then 1 else third_time (sent t)

ps2_send_device_command-endless_example :
    ps2_send_device_command (answering 0xfe) 100 0xf4 port0 machine ≡ none
ps2_send_device_command-endless_example =
    ps2_send_device_command-endless (answering 0xfe) (λ t. refl) 0xf4 port0 (λ t. refl) 100 machine
