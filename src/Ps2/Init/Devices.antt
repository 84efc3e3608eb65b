-- ===== src/Ps2/Init/Devices.antt =====
-- Bringing up a device: `ps2_init_device`, and `reset_port` in front of it.
use drewos.Base.{
  ℕ, suc, ◌+◌, ◌^◌, ◌<◌, ◌≡◌, ◌≢◌, ◌∙◌, ap, arith, ◌==◌, [], ◌∷◌, codes, ◌⊎◌, inl, inr, u8,
  Bool-cases,
}
use mathlib.Core.Path.{subst}
use drewos.Base.{==_iff, refl}
use drewos.Machine.{Platform, Machine, Ps2State}
use drewos.Machine.Comes.{Comes, Comes-Ends, Comes-post, Comes-bool, Comes-gets, Comes-behind}
use drewos.Machine.Quiet.{Quietly-println, SameVariables, SameVariables-refl, IsText}
use drewos.Screen.Frame.{KeepsMemory, KeepsMemory-trans}
use drewos.Machine.Ends.{Ends-pure, Ends-post, Ends-quiet}
use drewos.Print.{int, str}
use drewos.Print.Format.{render, expand}
use drewos.Idt.{write_at, descriptor}
use drewos.Ps2.{Port, port_code}
use drewos.Ps2.Resend.{port_code-lt}
use drewos.Ps2.Identity.{
  DeviceKind, keyboard, mouse, unknown, DeviceType, get_device_kind, get_device_type,
  get_device_type_str,
}
use drewos.Ps2.Reset.Answers.{NeverResends}
use drewos.Keyboard.Scan.{KeepsSet1}
use drewos.Keyboard.Setup.{line_1, Installed, interrupted, ps2_kbd_init-Initialised}
use drewos.Ps2.Init.{is_unknown, start_driver, ps2_init_device}

-- The hardware lets `ps2_init` come to its end: no byte at the data port asks to send again or names
-- the scan code sets 2 and 3.
pub record IsCalm (platform : Platform) : Type 0 where
  pub never : NeverResends platform.dev
  pub keeps : KeepsSet1 platform.dev

-- What becomes of the variables of the other drivers: at most the keyboard driver is installed, at the
-- vector of line 1.
pub record Kept (m n : Machine) : Type 0 where
  pub pic : n.pic ≡ m.pic
  pub acpi : n.acpi ≡ m.acpi
  pub memory : KeepsMemory m.screen n.screen
  pub driver : (n.keyboard.vector ≡ m.keyboard.vector) ⊎ (n.keyboard.vector ≡ line_1 m)
  pub handlers : (v : ℕ) → v ≢ line_1 m → n.interrupts.handlers v ≡ m.interrupts.handlers v
  pub gates : (v : ℕ) → v ≢ line_1 m → n.interrupts.idt v ≡ m.interrupts.idt v

pub SameVariables-Kept : {m n : Machine} → SameVariables m n → Kept m n
SameVariables-Kept s = record {
  pic = s.pic;
  acpi = s.acpi;
  memory = s.memory;
  driver = inl (ap (λ k. k.vector) s.keyboard);
  handlers = λ v _. ap (λ t. t.handlers v) s.interrupts;
  gates = λ v _. ap (λ t. t.idt v) s.interrupts;
}

pub Kept-trans : {m n k : Machine} → Kept m n → Kept n k → Kept m k
Kept-trans {m} {n} {k} p q =
    let line : line_1 n ≡ line_1 m = ap (λ c. u8 (c.offset0 + 1)) p.pic in
    record {
      pic = q.pic ∙ p.pic;
      acpi = q.acpi ∙ p.acpi;
      memory = KeepsMemory-trans p.memory q.memory;
      driver = elim q.driver [
        | inr e ↦ inr (e ∙ line)
        | inl e ↦ elim p.driver [ inl e' ↦ inl (e ∙ e') | inr e' ↦ inr (e ∙ e') ]
      ];
      handlers = λ v h. q.handlers v (λ e. h (e ∙ line)) ∙ p.handlers v h;
      gates = λ v h. q.gates v (λ e. h (e ∙ line)) ∙ p.gates v h;
    }

elsewhere {ℓ} : {A : Type ℓ} (i v : ℕ) (a : A) (f : ℕ → A) → v ≢ i → write_at i a f v ≡ f v
elsewhere i v a f h = elim (Bool-cases (i == v)) [
  | inl e ↦ absurd (h (ground arith))
  | inr e ↦ rw e
]

Installed-Kept :
    {platform : Platform} {at : Port} {m n : Machine} → Installed platform at m n → Kept m n
Installed-Kept {m = m} i = record {
  pic = i.pic;
  acpi = i.acpi;
  memory = i.memory;
  driver = inr i.vector;
  handlers = λ v h. ap (λ f. f v) i.handlers ∙ elsewhere (line_1 m) v _ m.interrupts.handlers h;
  gates = λ v h. ap (λ f. f v) i.idt ∙ elsewhere (line_1 m) v _ m.interrupts.idt h;
}

-- What a step that is not about the controller's variables does: those are as before, and at most the
-- keyboard driver is installed.
pub record Apart (m n : Machine) : Type 0 where
  pub ps2 : n.ps2 ≡ m.ps2
  pub kept : Kept m n

SameVariables-Apart : {m n : Machine} → SameVariables m n → Apart m n
SameVariables-Apart s = record { ps2 = s.ps2; kept = SameVariables-Kept s }

Apart-after : {m n k : Machine} → SameVariables m n → Apart n k → Apart m k
Apart-after s a = record { ps2 = a.ps2 ∙ s.ps2; kept = Kept-trans (SameVariables-Kept s) a.kept }

-- The driver is installed at a vector.
pub record HasDriver (platform : Platform) (v : ℕ) (n : Machine) : Type 0 where
  pub vector : n.keyboard.vector ≡ v
  pub handler : n.interrupts.handlers v ≡ platform.keyboard_handler_address
  pub gate : n.interrupts.idt v ≡ descriptor platform.generic_isr_stub_address 0x8e

-- In front of the interrupt of the keyboard driver: the driver is installed at the vector of line 1,
-- else the other drivers are left alone, and the controller's variables are as stated.
pub record AtInterrupt (platform : Platform) (Q : Ps2State → Type 0) (m n : Machine) : Type 0 where
  pub kept : Kept m n
  pub driver : HasDriver platform (line_1 m) n
  pub holds : Q n.ps2

pub AtInterrupt-from :
    {platform : Platform} {P Q : Ps2State → Type 0} {m n k : Machine}
    → Kept m n
    → ((s : Ps2State) → P s → Q s)
    → AtInterrupt platform P n k
    → AtInterrupt platform Q m k
AtInterrupt-from {platform} {m = m} {n} {k} kept f a =
    let line : line_1 n ≡ line_1 m = ap (λ c. u8 (c.offset0 + 1)) kept.pic in
    record {
      kept = Kept-trans kept a.kept;
      driver = subst (λ v. HasDriver platform v k) line a.driver;
      holds = f k.ps2 a.holds;
    }

here {ℓ} : {A : Type ℓ} (i : ℕ) (a : A) (f : ℕ → A) → write_at i a f i ≡ a
here i a f = rw ((==_iff i i).1 refl) refl

Installed-AtInterrupt :
    {platform : Platform} {at : Port} {m n : Machine}
    → Installed platform at m n
    → AtInterrupt platform (λ s. s ≡ m.ps2) m n
Installed-AtInterrupt {m = m} i = record {
  kept = Installed-Kept i;
  driver = record {
    vector = i.vector;
    handler = ap (λ f. f (line_1 m)) i.handlers ∙ here (line_1 m) _ m.interrupts.handlers;
    gate = ap (λ f. f (line_1 m)) i.idt ∙ here (line_1 m) _ m.interrupts.idt;
  };
  holds = i.ps2;
}

-- The name of every type of device is printable.
name-IsText :
    (at : Port) (type : DeviceType)
    → IsText (
        render
          (codes "Port %d successfully initialised. Device type: %s")
          (int (port_code at) ∷ str (get_device_type_str type) ∷ []))
unfolding render expand
name-IsText at type = tt

module _ (platform : Platform) (calm : IsCalm platform) (patience rounds : ℕ) (at : Port) where
  start_driver-Apart :
      (kind : DeviceKind) (m : Machine)
      → Comes
          (λ (_ : Unit {0}). interrupted platform)
          (start_driver platform (suc patience) (suc rounds) kind at)
          m
          (AtInterrupt platform (λ s. s ≡ m.ps2) m)
          (λ _. Apart m)
  unfolding start_driver
  start_driver-Apart keyboard m =
      Comes-post (ps2_kbd_init-Initialised platform calm.never calm.keeps patience rounds at m)
        (λ n i. Installed-AtInterrupt i.1)
        (λ _ n i. rw (i.1) (SameVariables-Apart (SameVariables-refl m)))
  start_driver-Apart mouse m =
      Comes-Ends (Ends-pure tt m (SameVariables-Apart (SameVariables-refl m)))
  start_driver-Apart unknown m =
      Comes-Ends (Ends-pure tt m (SameVariables-Apart (SameVariables-refl m)))

  pub ps2_init_device-Apart :
      (device_id : ℕ) (m : Machine)
      → m.ps2.port0_id < 2 ^ 32
      → Comes
          (λ (_ : Unit {0}). interrupted platform)
          (ps2_init_device platform (suc patience) (suc rounds) device_id at)
          m
          (AtInterrupt platform (λ s. s ≡ m.ps2) m)
          (λ _. Apart m)
  unfolding ps2_init_device
  ps2_init_device-Apart device_id m fits =
      Comes-bool (is_unknown (get_device_type device_id))
        (λ _.
          Comes-gets (λ n. n.ps2.port0_id)
            λ id e. Comes-Ends (
              Ends-post
                (Ends-quiet m (
                  Quietly-println
                    (codes "Failed to initialise ps2 device in port %d: Unknown device (ID: %x)")
                    (int (port_code at) ∷ int id ∷ []) (port_code-lt at, (omega arith, tt))
                    (unfold render expand in tt)))
                (λ _ n p. SameVariables-Apart p.1)))
        (λ _.
          Comes-behind
            (Ends-quiet m (
              Quietly-println (codes "Port %d successfully initialised. Device type: %s")
                (int (port_code at) ∷ str (get_device_type_str (get_device_type device_id)) ∷ [])
                (port_code-lt at, tt) (name-IsText at (get_device_type device_id))))
            (λ _ n p.
              Comes-post (start_driver-Apart (get_device_kind (get_device_type device_id)) n)
                (λ k a. AtInterrupt-from (SameVariables-Kept p.1) (λ s e. e ∙ p.1.ps2) a)
                (λ _ k a. Apart-after p.1 a)))
