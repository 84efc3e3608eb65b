-- ===== src/Tests/Keyboard.antt =====
-- src/driver/ps2.c with a keyboard, at fixed inputs.
use mathlib.Core.Option
use drewos.Base.{
  ℕ, ◌+◌, ◌%◌, ◌≡◌, ◌==◌, refl, arith, bit_and, Bool, true, false, not, none, [], ◌∷◌, u8,
}
use drewos.Base.{ap, ◌≢◌, if◌then◌else◌}
use drewos.Machine.{Device, Machine, Platform}
use drewos.Machine.Ends.{Ends}
use drewos.Isr.{Cpu, deliver, enter_function, run, step, call_generic, call_exception}
use drewos.Isr.Delivery.{IsLinked}
use drewos.Idt.{generic_handler, report_and_call, call_handler, call_attached}
use drewos.Ps2.Identity.{get_device_type}
use drewos.Ps2.Reset.{identify_reply}
use drewos.Ps2.Init.{is_unknown, ps2_init}
use drewos.Ps2.Init.After.{Fresh}
use drewos.Ps2.Board.{
  SecondPort, absent, off, on, Board, Obeys, for_keyboard, after_trace, shown, taken, is_empty,
  idle,
}
use drewos.Ps2.Board.Detection.{IsQuiet}
use drewos.Ps2.Board.World.{In, In-world, world-In, world, with_board, Others}
use drewos.Ps2.Board.Outcome.{ps2_init-detected, ps2_init-lost}
use drewos.Ps2.Board.Configuration.{both_on}
use drewos.Ps2.Board.Bring.{after_first, detected}
use drewos.Ps2.Board.Paired.{behind_interrupt, ps2_init-interrupted, IsOn, paired, ps2_init-paired}
use drewos.Ps2.Board.Phantom.{phantom, ps2_init-phantom}
use drewos.Ps2.Board.Mouse.{doubled, identify_reply-doubled}
use drewos.Tests.Interrupts.{cpu, scratch}
use drewos.Tests.Data.{fresh, platform_with}

-- Bit 0 of the status tells of a byte in the output buffer.
abbrev shown_status : Bool → ℕ
shown_status true = 0
shown_status false = 1

-- The hardware that is the board `start` at first; its other ports answer with 0.
abbrev board_device : Board → Device
board_device start t p =
    if p == 0x64
    then shown_status (is_empty (after_trace start t).output)
    else if p == 0x60
    then shown (after_trace start t)
    else 0

shown_status-accepts : (b : Bool) → bit_and (u8 (shown_status b)) 0x02 ≡ 0
shown_status-accepts true = refl
shown_status-accepts false = refl

shown_status-announces : (b : Bool) → (bit_and (u8 (shown_status b)) 0x01 == 0) ≡ b
shown_status-announces true = refl
shown_status-announces false = refl

board_device-Obeys : (start : Board) → Obeys start (board_device start)
board_device-Obeys start = record {
  accepts = λ t. shown_status-accepts (is_empty (after_trace start t).output);
  announces = λ t. shown_status-announces (is_empty (after_trace start t).output);
  shows = λ t. refl;
}

-- A BIOS has used the keyboard in set 2, with translation, and one code is left over.
abbrev at_power_on : Board
at_power_on = record (idle true absent 0xfa 0x45 2) { output = 0x1c ∷ [] }

abbrev platform : Platform
platform = platform_with (board_device at_power_on)

quiet : {b : Board} → (taken b).output ≡ [] → b.awaits ≡ for_keyboard → IsQuiet b
quiet one no_argument = record { flushable = one; no_argument = no_argument }

is_on : SecondPort → Bool
is_on on = true
is_on off = false
is_on absent = false

on-present : on ≢ absent
unfolding is_on
on-present e = let same = ap is_on e in absurd (ground (arith, same))

at_start : Fresh fresh.ps2
at_start = record { second = refl; no_first = refl; no_second = refl }

ps2_init-detected_example :
    (n : Machine) × (ps2_init platform 1 1 fresh ≡ after_first platform 0 0 n)
    × (world at_power_on n ≡ detected platform (world at_power_on fresh))
    × Others fresh n
ps2_init-detected_example =
    ps2_init-detected at_power_on platform (board_device-Obeys at_power_on) 0 0 fresh (omega arith)
      (quiet refl refl) refl refl at_start refl

-- The configuration goes from 0x45 to 0x25: the first port has its interrupt and no translation, and
-- the second one has no clock.
detected_config : (detected platform (world at_power_on fresh)).board.config ≡ 0x25
detected_config = refl

-- A mouse is at the second port, whose clock is on.
abbrev with_mouse : Board
with_mouse = idle true on 0xfa 0x47 2

abbrev two_port_platform : Platform
two_port_platform = platform_with (board_device with_mouse)

-- The machine at the interrupt.
two_ports_reached :
    (n : Machine) × (ps2_init two_port_platform 1 1 fresh ≡ after_first two_port_platform 0 0 n)
    × In with_mouse (paired two_port_platform (world with_mouse fresh)) n
    × Others fresh n
two_ports_reached =
    (ps2_init-interrupted with_mouse two_port_platform (board_device-Obeys with_mouse) 0 0
        (world with_mouse fresh) (omega arith) (quiet refl refl) on-present refl at_start refl).run
      fresh (In-world with_mouse fresh)

ps2_init-paired_example :
    ((n : Machine) × (ps2_init two_port_platform 1 1 fresh ≡ after_first two_port_platform 0 0 n)
      × (world with_mouse n ≡ paired two_port_platform (world with_mouse fresh))
      × Others fresh n)
    × IsOn (both_on (after_trace with_mouse fresh.trace).config)
    × Ends (behind_interrupt two_port_platform 0 0) two_ports_reached.0 (λ _ l.
      (world with_mouse l ≡ paired two_port_platform (world with_mouse fresh))
      × Others two_ports_reached.0 l)
ps2_init-paired_example =
    ps2_init-paired with_mouse two_port_platform (board_device-Obeys with_mouse) 0 0 fresh
      two_ports_reached.0 (omega arith) (quiet refl refl) on-present refl at_start refl
      (world-In two_ports_reached.2)

-- Nothing is at the port.
abbrev empty_port : Board
empty_port = idle false absent 0xfa 0x45 2

ps2_init-phantom_example :
    Ends (ps2_init (platform_with (board_device empty_port)) 1 1) fresh (λ _ n.
      (world empty_port n ≡ phantom (world empty_port fresh))
      × (is_unknown (get_device_type n.ps2.port0_id) ≡ true)
      × Others fresh n)
ps2_init-phantom_example =
    ps2_init-phantom empty_port (platform_with (board_device empty_port))
      (board_device-Obeys empty_port) 0 0 fresh (omega arith) (quiet refl refl) refl refl at_start

-- The phantom's identity is the configuration 0x25, twice.
phantom_id : (phantom (world empty_port fresh)).ps2.port0_id ≡ 0x2525
phantom_id = refl

-- A mouse with a wheel answers with its identity 3.
abbrev wheel : Board
wheel = record (idle true absent 0xfa 0x45 2) { output = 3 ∷ [] }

identify_reply-doubled_example : Ends (identify_reply (board_device wheel) 0) fresh (λ id n.
    (id ≡ doubled 3)
    × (is_unknown (get_device_type id) ≡ not (3 == 0))
    × (world wheel n
        ≡ with_board (taken (taken (after_trace wheel fresh.trace))) (world wheel fresh))
    × Others fresh n)
identify_reply-doubled_example =
    identify_reply-doubled wheel (board_device wheel) (board_device-Obeys wheel) 0 3 fresh
      (omega arith) refl

-- The stubs of the exceptions are apart from each other, 0x3000 being the first.
abbrev apart : Platform
apart = record platform { isr_stub_table = λ v. 0x3000 + v % 32 }

-- A software interrupt goes through the gate of its vector.
abbrev through_gates : Platform
through_gates = record apart {
  software_interrupt = λ vector m.
      Option.map (λ (r : Cpu × Machine). (tt, r.1)) (deliver apart scratch vector none cpu m);
}

goes_through_gates :
    (n : Machine)
    → through_gates.software_interrupt 0x21 n
      ≡ Option.map
          (λ (r : Cpu × Machine). (tt, r.1))
          (deliver through_gates scratch 0x21 none cpu n)
unfolding deliver enter_function run step call_generic call_exception generic_handler
    report_and_call call_handler call_attached
goes_through_gates n = refl

linked : IsLinked through_gates
linked = record {
  stub_fits = omega arith;
  handler_fits = omega arith;
  table_fits = λ v. omega arith;
  handler_apart = λ h. absurd (omega arith);
  stub_apart = λ v h. absurd (omega arith);
  table_apart = λ v h. absurd (omega arith);
}

-- The interrupt controllers are as `pic_init` leaves them.
abbrev remapped : Machine
remapped = record fresh { pic = record { offset0 = 0x20; offset1 = 0x28 } }

ps2_init-lost_example : ps2_init through_gates 4 1 remapped ≡ none
ps2_init-lost_example =
    ps2_init-lost at_power_on through_gates scratch linked (board_device-Obeys at_power_on) 3 0 cpu
      remapped goes_through_gates (omega arith) (omega arith) (quiet refl refl) refl refl at_start
      refl refl
