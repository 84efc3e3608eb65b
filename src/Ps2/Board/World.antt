-- ===== src/Ps2/Board/World.antt =====
-- The world of a machine whose hardware is a board: the board and the variables of the drivers.
use mathlib.Core.Path.{subst}
use drewos.Base.{◌≡◌, refl, ap, sym, ◌∙◌}
use drewos.Machine.{Event, log_event, Machine, PicState, IdtState, Ps2State, KeyboardState}
use drewos.Machine.Quiet.{SameVariables}
use drewos.Screen.Frame.{KeepsMemory, KeepsMemory-refl, KeepsMemory-trans}
use drewos.Ps2.Board.{Board, after_trace}

-- The variables that the drivers of interrupts and of PS/2 devices keep, and the board behind the
-- ports.
pub record World : Type 0 where
  pub pic : PicState
  pub interrupts : IdtState
  pub ps2 : Ps2State
  pub keyboard : KeyboardState
  pub board : Board

abbrev pub with_board : Board → World → World
with_board b w = record w { board = b }

-- The rest is as before: the variables of ACPI, and the memory outside of the video buffer.
pub record Others (m n : Machine) : Type 0 where
  pub acpi : n.acpi ≡ m.acpi
  pub memory : KeepsMemory m.screen n.screen

pub Others-refl : (m : Machine) → Others m m
Others-refl m = record { acpi = refl; memory = KeepsMemory-refl m.screen }

pub Others-log : (e : Event) (m : Machine) → Others m (log_event e m)
Others-log e m = record { acpi = refl; memory = KeepsMemory-refl m.screen }

pub Others-ps2 : {s : Ps2State} (m : Machine) → Others m (record m { ps2 = s })
Others-ps2 m = record { acpi = refl; memory = KeepsMemory-refl m.screen }

pub Others-trans : {m n k : Machine} → Others m n → Others n k → Others m k
Others-trans p q = record { acpi = q.acpi ∙ p.acpi; memory = KeepsMemory-trans p.memory q.memory }

module _ (start : Board) where
  -- The machine is in this world, if the board was as in `start` before all accesses.
  pub record In (w : World) (m : Machine) : Type 0 where
    pub pic : m.pic ≡ w.pic
    pub interrupts : m.interrupts ≡ w.interrupts
    pub ps2 : m.ps2 ≡ w.ps2
    pub keyboard : m.keyboard ≡ w.keyboard
    pub board : after_trace start m.trace ≡ w.board

-- The world that a machine is in.
abbrev pub world : Board → Machine → World
world start m = record {
  pic = m.pic;
  interrupts = m.interrupts;
  ps2 = m.ps2;
  keyboard = m.keyboard;
  board = after_trace start m.trace;
}

pub In-world : (start : Board) (m : Machine) → In start (world start m) m
In-world start m = record {
  pic = refl;
  interrupts = refl;
  ps2 = refl;
  keyboard = refl;
  board = refl;
}

module _ {start : Board} where
  pub world-In : {w : World} {m : Machine} → In start w m → world start m ≡ w
  world-In i = rw (i.pic, i.interrupts, i.ps2, i.keyboard, i.board) refl

  pub In-SameVariables :
      {w v : World} {m n : Machine}
      → In start w m
      → SameVariables m n
      → v ≡ with_board v.board w
      → after_trace start n.trace ≡ v.board
      → In start v n
  In-SameVariables i s same e = record {
    pic = s.pic ∙ i.pic ∙ ap (λ x. x.pic) (sym same);
    interrupts = s.interrupts ∙ i.interrupts ∙ ap (λ x. x.interrupts) (sym same);
    ps2 = s.ps2 ∙ i.ps2 ∙ ap (λ x. x.ps2) (sym same);
    keyboard = s.keyboard ∙ i.keyboard ∙ ap (λ x. x.keyboard) (sym same);
    board = e;
  }

  pub In-Ends :
      {w : World} {n k : Machine} → In start w n → world start k ≡ world start n → In start w k
  In-Ends {k = k} i same = subst (λ v. In start v k) (same ∙ world-In i) (In-world start k)
