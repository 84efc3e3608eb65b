-- ===== src/Keyboard/Interrupt.antt =====
-- The interrupt at the end of the initialisation of the keyboard driver, through the stub of
-- src/kernel/interrupts.asm.
use mathlib.Core.Option
use drewos.Base.{ℕ, suc, ◌≡◌, ◌≤◌, refl, arith, none, ◌==◌, true}
use drewos.Machine.{Platform, Machine, ◌>>=◌}
use drewos.Idt.Gates.{target, descriptor-IsGate}
use drewos.Isr.{Cpu, Scratch, deliver}
use drewos.Isr.Delivery.{IsLinked, deliver-outside}
use drewos.Ps2.{Port}
use drewos.Ps2.Reset.Answers.{NeverResends}
use drewos.Keyboard.{ps2_kbd_init}
use drewos.Keyboard.Scan.{KeepsSet1}
use drewos.Keyboard.Setup.{set_up-Installed}

module _ (platform : Platform) (scratch : Machine → Scratch) (linked : IsLinked platform) where
  -- With the routines linked at addresses of their own and the interrupt controllers as `pic_init`
  -- leaves them, the first call of `ps2_kbd_init`, from code at an address from 256 on and with a
  -- device that never asks to send again and never names the scan code sets 2 and 3, is undefined:
  -- it installs its handler, and the interrupt 0x21 that it then triggers goes through the gate to
  -- the stub, which takes the interrupted address for the vector, behind the end of `handlers`.
  ps2_kbd_init-lost :
      (never : NeverResends platform.dev)
      → (keeps : KeepsSet1 platform.dev) → (patience rounds : ℕ) (at : Port) (c : Cpu) (m : Machine)
      → ((n : Machine)
          → platform.software_interrupt 0x21 n
            ≡ Option.map
                (λ (r : Cpu × Machine). (tt, r.1))
                (deliver platform scratch 0x21 none c n))
      → 256 ≤ c.eip
      → m.keyboard.vector ≡ 0
      → m.pic.offset0 ≡ 0x20
      → ps2_kbd_init platform (suc patience) (suc rounds) at m ≡ none
  unfolding ps2_kbd_init
  ps2_kbd_init-lost never keeps patience rounds at c m interrupt far fresh offset =
      let s = set_up-Installed platform never keeps patience rounds at m in
      let leads : target (s.behind.interrupts.idt 0x21) ≡ platform.generic_isr_stub_address =
        rw (s.post.idt, offset)
          (descriptor-IsGate platform.generic_isr_stub_address linked.stub_fits).leads in
      let new : (m.keyboard.vector == 0) ≡ true = ground arith in
      rw
        (
          new,
          s.returns,
          ◌>>=◌,
          interrupt s.behind,
          deliver-outside platform scratch linked 0x21 c s.behind leads far,
          ◌>>=◌,
        )
        refl
