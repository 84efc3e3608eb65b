-- ===== src/Kernel/Ready.antt =====
-- The first half of `main`, up to the setup of the interrupts.
use mathlib.Core.Path.{subst}
use drewos.Base.{ℕ, ◌<◌, ◌≡◌, ◌∙◌, ◌^◌, refl, ap, sym, arith, u32, false, inl, inr}
use drewos.Memory.Copy.{within}
use drewos.Screen.{Screen, clrscr, ncol, video_memory}
use drewos.Screen.Clear.{clrscr_lem}
use drewos.Screen.Frame.{KeepsMemory}
use drewos.Machine.{Platform, Machine}
use drewos.Machine.Ends.{Ends}
use drewos.Pic.{pic_remap, pic_init}
use drewos.Idt.{idt_init}
use drewos.Idt.Gates.{IsGate, exception_address, idt_init_lem, set_exceptions-handlers}
use drewos.Acpi.Search.{ebda_start}
use drewos.Acpi.Startup.Tables.{Others}

-- The memory outside of the video buffer is the same, and the place is on the screen.
pub record Screened (s s' : Screen) : Type 0 where
  pub same : (q : ℕ) → within video_memory 4000 q ≡ false → s'.mem q ≡ s.mem q
  pub on : s'.x < ncol

pub Screened-then : {s t u : Screen} → Screened s t → KeepsMemory t u → Screened s u
Screened-then p k =
    let (same, on) = k.keep p.on in record { same = λ q out. same q out ∙ p.same q out; on = on }

pub clrscr-Screened : (s : Screen) → Screened s (clrscr s)
clrscr-Screened s = record {
  same = λ q out. (clrscr_lem s q).0 ∙ rw out refl;
  on = rw (clrscr_lem s 0).1 (omega arith);
}

-- The segment of the EBDA is read outside of the video buffer.
pub ebda_kept : (s t : Screen) → Screened s t → ebda_start t.mem ≡ ebda_start s.mem
ebda_kept s t p = omega (arith, p.same 0x40e refl, p.same 0x40f refl)

module _ (platform : Platform) where
  -- The machine from the setup of the interrupts on, as long as no driver is installed.
  pub record IsReady (m n : Machine) : Type 0 where
    pub pic : n.pic ≡ record { offset0 = 0x20; offset1 = 0x28 }
    pub ps2 : n.ps2 ≡ m.ps2
    pub keyboard : n.keyboard ≡ m.keyboard
    pub handlers : n.interrupts.handlers ≡ m.interrupts.handlers
    pub gates :
        (j : ℕ)
        → j < 32
        → exception_address platform j < 2 ^ 32
        → IsGate (n.interrupts.idt j) (exception_address platform j)
    pub screen : Screened m.screen n.screen

  pub IsReady-then : {m n k : Machine} → IsReady m n → Others n k → IsReady m k
  IsReady-then r o = record {
    pic = o.pic ∙ r.pic;
    ps2 = o.ps2 ∙ r.ps2;
    keyboard = o.keyboard ∙ r.keyboard;
    handlers = ap (λ t. t.handlers) o.interrupts ∙ r.handlers;
    gates = λ j h fits.
        subst (λ t. IsGate (t.idt j) (exception_address platform j)) (sym o.interrupts)
          (r.gates j h fits);
    screen = Screened-then r.screen o.memory;
  }

  -- The machine behind `pic_init`, whose accesses do not matter here.
  pub record IsRemapped (m n : Machine) : Type 0 where
    pub pic : n.pic ≡ record { offset0 = 0x20; offset1 = 0x28 }
    pub interrupts : n.interrupts ≡ m.interrupts
    pub ps2 : n.ps2 ≡ m.ps2
    pub keyboard : n.keyboard ≡ m.keyboard
    pub screen : n.screen ≡ m.screen

  pub pic_init-IsRemapped : (m : Machine) → Ends (pic_init platform.dev) m (λ _. IsRemapped m)
  unfolding pic_init pic_remap
  pic_init-IsRemapped m = record {
    value = tt;
    behind = _;
    returns = refl;
    post = record { pic = refl; interrupts = refl; ps2 = refl; keyboard = refl; screen = refl };
  }

  pub interrupts-IsReady :
      (m n : Machine)
      → Screened m.screen n.screen
      → n.ps2 ≡ m.ps2
      → n.keyboard ≡ m.keyboard
      → n.interrupts.handlers ≡ m.interrupts.handlers
      → n.pic ≡ record { offset0 = 0x20; offset1 = 0x28 }
      → Ends (idt_init platform) n (λ _. IsReady m)
  unfolding idt_init
  interrupts-IsReady m n screen ps2 keyboard handlers pic = record {
    value = tt;
    behind = _;
    returns = refl;
    post = record {
      pic = pic;
      ps2 = ps2;
      keyboard = keyboard;
      handlers =
          (set_exceptions-handlers platform 32 0
            (record n.interrupts { idtr_base = u32 platform.idt_address; idtr_limit = 2047 })).0
          ∙ handlers;
      gates = λ j h fits. elim (idt_init_lem platform n j fits).0 [
        | inl (_, gate) ↦ gate
        | inr (behind, _) ↦ absurd (omega arith)
      ];
      screen = screen;
    };
  }
