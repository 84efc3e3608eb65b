-- ===== src/Ps2/Board/Outcome.antt =====
-- `ps2_init` with a keyboard at the first port of a controller that has no second one, with up to
-- its interrupt and with the stub of src/kernel/interrupts.asm behind that.
use mathlib.Core.Option
use drewos.Base.{true}
use drewos.Base.{ℕ, suc, ◌^◌, ◌<◌, ◌≤◌, ◌≡◌, refl, ◌∙◌, none}
use drewos.Machine.{Platform, Machine, ◌>>=◌}
use drewos.Idt.Gates.{target, descriptor-IsGate}
use drewos.Isr.{Cpu, Scratch, deliver}
use drewos.Isr.Delivery.{IsLinked, deliver-outside}
use drewos.Ps2.Init.{ps2_init}
use drewos.Ps2.Init.After.{Fresh}
use drewos.Ps2.Board.{absent, Board, Obeys, after_trace}
use drewos.Ps2.Board.Detection.{IsQuiet}
use drewos.Ps2.Board.Bring.{detected, after_first, ps2_init-after_first}
use drewos.Ps2.Board.World.{world, In-world, world-In, Others}

-- On the hardware of Ps2/Board, a controller with one port and a keyboard at it that nobody types
-- on, with a byte for its configuration, at most one byte in its output buffer and no argument
-- awaited, with the variables of the start of the kernel, and with at least one round for each
-- command and for the scan code set, `ps2_init` comes to the interrupt 0x21 that the keyboard driver
-- triggers, with the message behind it and the second port still to do. There the first port works
-- and has the identity 0xab83, the second one does not, and the keyboard driver is installed for the
-- first one at the vector of line 1. The configuration is the first one that `ps2_init` writes. The
-- keyboard sends scan code set 1, and it still waits for an argument of the command 0xf0. The other
-- variables are as before, and so is the memory outside of the video buffer, if the column was one
-- of the screen.
pub ps2_init-detected :
    (start : Board) (platform : Platform)
    → Obeys start platform.dev
    → (patience rounds : ℕ) (m : Machine) → (after_trace start m.trace).config < 2 ^ 8
    → IsQuiet (after_trace start m.trace)
    → (after_trace start m.trace).mouse ≡ absent
    → (after_trace start m.trace).populated ≡ true
    → Fresh m.ps2
    → m.keyboard.vector ≡ 0
    → (n : Machine) × (ps2_init platform (suc patience) (suc rounds) m
        ≡ after_first platform patience rounds n)
      × (world start n ≡ detected platform (world start m))
      × Others m n
ps2_init-detected start platform obeys patience rounds m byte rests single there clear fresh =
    let (n, e, i, o) =
      (ps2_init-after_first start platform obeys patience rounds (world start m) byte rests single
          there clear fresh).run
        m (In-world start m) in
    (n, e, world-In i, o)

-- On the hardware of Ps2/Board, a controller with one port and a keyboard at it that nobody types
-- on, with a byte for its configuration, at most one byte in its output buffer and no argument
-- awaited, with the variables of the start of the kernel, the routines linked at addresses of
-- their own and the interrupt controllers as `pic_init` leaves them, and with at least one round
-- for each command and for the scan code set, `ps2_init` is undefined when it is called from code
-- at an address from 256 on: the keyboard driver that it starts triggers the interrupt 0x21, whose
-- stub takes the interrupted address for the vector, for which `generic_handler` reads `handlers`
-- behind its end.
pub ps2_init-lost :
    (start : Board) (platform : Platform) (scratch : Machine → Scratch)
    → IsLinked platform
    → Obeys start platform.dev
    → (patience rounds : ℕ) (c : Cpu) (m : Machine)
    → ((n : Machine)
        → platform.software_interrupt 0x21 n
          ≡ Option.map (λ (r : Cpu × Machine). (tt, r.1)) (deliver platform scratch 0x21 none c n))
    → 256 ≤ c.eip
    → (after_trace start m.trace).config < 2 ^ 8
    → IsQuiet (after_trace start m.trace)
    → (after_trace start m.trace).mouse ≡ absent
    → (after_trace start m.trace).populated ≡ true
    → Fresh m.ps2
    → m.keyboard.vector ≡ 0
    → m.pic.offset0 ≡ 0x20
    → ps2_init platform (suc patience) (suc rounds) m ≡ none
ps2_init-lost start platform scratch linked obeys patience rounds c m interrupt far byte rests
      single there clear fresh offset =
    let (n, e, i, _) =
      (ps2_init-after_first start platform obeys patience rounds (world start m) byte rests single
          there clear fresh).run
        m (In-world start m) in
    let leads : target (n.interrupts.idt 0x21) ≡ platform.generic_isr_stub_address =
      rw (i.interrupts, offset)
        (descriptor-IsGate platform.generic_isr_stub_address linked.stub_fits).leads in
    e ∙ rw (interrupt n, deliver-outside platform scratch linked 0x21 c n leads far, ◌>>=◌) refl
