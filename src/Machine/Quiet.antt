-- ===== src/Machine/Quiet.antt =====
-- Computations that return from every machine, and change only the ports and the screen.
use mathlib.Core.Path.{subst}
use drewos.Base.{
  ℕ, ◌^◌, ◌<◌, ◌≡◌, ◌∙◌, refl, sym, ap, arith, Option, none, some, List, Bool, true, false, u8, u16,
}
use mathlib.Core.Option
use drewos.Screen.{Screen, write_char}
use drewos.Screen.Frame.{KeepsMemory, KeepsMemory-refl, KeepsMemory-trans, write_char-KeepsMemory}
use drewos.Print.Frame.{type_text-KeepsMemory}
use drewos.Screen.Palette.{Colour, white, black}
use drewos.Print.Text.{type_text}
use drewos.Machine.{
  read8, write8, log_event, Event, Device, Machine, K, pure, gets, ◌>>=◌, read_byte, write_byte,
  on_screen,
}
use drewos.Print.{Arg, cprint, cprintln, println, print}
use drewos.Print.Format.{AreWords, render}
use drewos.Print.Render.{cprintln-returns, cprint-render}

-- The variables of the drivers are the same, and so is the memory outside of the video buffer.
pub record SameVariables (m m' : Machine) : Type 0 where
  pub pic : m'.pic ≡ m.pic
  pub interrupts : m'.interrupts ≡ m.interrupts
  pub ps2 : m'.ps2 ≡ m.ps2
  pub keyboard : m'.keyboard ≡ m.keyboard
  pub acpi : m'.acpi ≡ m.acpi
  pub memory : KeepsMemory m.screen m'.screen

pub SameVariables-refl : (m : Machine) → SameVariables m m
SameVariables-refl m = record {
  pic = refl;
  interrupts = refl;
  ps2 = refl;
  keyboard = refl;
  acpi = refl;
  memory = KeepsMemory-refl m.screen;
}

pub SameVariables-log : (e : Event) (m : Machine) → SameVariables m (log_event e m)
SameVariables-log e m = record {
  pic = refl;
  interrupts = refl;
  ps2 = refl;
  keyboard = refl;
  acpi = refl;
  memory = KeepsMemory-refl m.screen;
}

pub SameVariables-trans :
    {m n k : Machine} → SameVariables m n → SameVariables n k → SameVariables m k
SameVariables-trans p q = record {
  pic = q.pic ∙ p.pic;
  interrupts = q.interrupts ∙ p.interrupts;
  ps2 = q.ps2 ∙ p.ps2;
  keyboard = q.keyboard ∙ p.keyboard;
  acpi = q.acpi ∙ p.acpi;
  memory = KeepsMemory-trans p.memory q.memory;
}

-- Every run returns, with a value as stated and the same variables.
pub record Quietly {A : Type 0} (P : A → Type 0) (c : K A) : Type 0 where
  pub run :
      (m : Machine) → (a : A) × (m' : Machine) × (c m ≡ some (a, m')) × P a × SameVariables m m'

abbrev pub Anything : {A : Type 0} → A → Type 0
Anything a = Unit

abbrev pub IsByte : ℕ → Type 0
IsByte v = v < 2 ^ 8

pub Quietly-pure : {A : Type 0} {P : A → Type 0} (a : A) → P a → Quietly P (pure a)
Quietly-pure a p = record { run = λ m. (a, m, refl, p, SameVariables-refl m) }

pub Quietly-gets : {A : Type 0} (f : Machine → A) → Quietly Anything (gets f)
Quietly-gets f = record { run = λ m. (f m, m, refl, tt, SameVariables-refl m) }

pub Quietly-bind :
    {A B : Type 0} {P : A → Type 0} {Q : B → Type 0} {c : K A} {f : A → K B}
    → Quietly P c
    → ((a : A) → P a → Quietly Q (f a))
    → Quietly Q (c >>= f)
Quietly-bind {B = B} {Q = Q} {c = c} {f = f} q r = record { run = both }
  where
    both :
        (m : Machine)
        → (b : B) × (m' : Machine) × ((c >>= f) m ≡ some (b, m')) × Q b × SameVariables m m'
    both m =
        let (a, n, e, p, same) = q.run m in
        let (b, k, e', p', same') = (r a p).run n in
        (b, k, rw (e, ◌>>=◌) e', p', SameVariables-trans same same')

-- What is known of the one run that there is.
pub Quietly-at :
    {A : Type 0} {P : A → Type 0} {c : K A} {m m' : Machine} {a : A}
    → Quietly P c
    → c m ≡ some (a, m')
    → P a × SameVariables m m'
Quietly-at {A = A} {P = P} {c = c} {m = m} {m' = m'} {a = a} q e =
    let (b, n, e', p, same) = q.run m in
    let agree : ◌≡◌ {A = Option (A × Machine)} (some (b, n)) (some (a, m')) = sym e' ∙ e in
    (subst P (cc) p, subst (SameVariables m) (cc) same)

pub Quietly-bool :
    {A : Type 0} {P : A → Type 0} (b : Bool) {x y : K A}
    → Quietly P x
    → Quietly P y
    → Quietly P (elim b [ true ↦ x | false ↦ y ])
Quietly-bool true p q = p
Quietly-bool false p q = q

pub Quietly-read_byte : (dev : Device) (port : ℕ) → Quietly IsByte (read_byte dev port)
Quietly-read_byte dev port = record {
  run = λ m. (
    u8 (dev m.trace (u16 port)),
    log_event (read8 (u16 port) (u8 (dev m.trace (u16 port)))) m,
    refl,
    omega arith,
    SameVariables-log _ m,
  );
}

pub Quietly-write_byte : (port v : ℕ) → Quietly Anything (write_byte port v)
Quietly-write_byte port v = record {
  run = λ m. (tt, log_event (write8 (u16 port) (u8 v)) m, refl, tt, SameVariables-log _ m);
}

-- The format and the arguments stand for a text.
abbrev pub IsText : Option (List ℕ) → Type 0
IsText none = ⊥
IsText (some t) = Unit

pub IsText-some : (o : Option (List ℕ)) → IsText o → (t : List ℕ) × (o ≡ some t)
IsText-some none h = absurd h
IsText-some (some t) h = (t, refl)

-- Printing changes the screen alone.
on_text :
    (s : Screen → Option Screen) (after : Machine → Screen) (m : Machine)
    → s m.screen ≡ some (after m)
    → KeepsMemory m.screen (after m)
    → (a : Unit {0}) × (m' : Machine) × (on_screen s m ≡ some (a, m'))
      × Anything a
      × SameVariables m m'
on_text s after m e keep = (
  tt,
  record m { screen = after m },
  rw (e, on_screen),
  tt,
  record { pic = refl; interrupts = refl; ps2 = refl; keyboard = refl; acpi = refl; memory = keep },
)

module _ (fg bg : Colour) (msg : List ℕ) (args : List Arg) (w : AreWords args)
    (h : IsText (render msg args)) where
  pub Quietly-cprint : Quietly Anything (on_screen (cprint fg bg (some msg) args))
  Quietly-cprint =
      let (t, e) = IsText-some (render msg args) h in
      record {
        run = λ m.
            on_text (cprint fg bg (some msg) args) (λ n. type_text fg bg t n.screen) m
              (cprint-render fg bg msg args m.screen w
                ∙ ap (Option.map (λ u. type_text fg bg u m.screen)) e)
              (type_text-KeepsMemory fg bg t m.screen);
      }

  pub Quietly-cprintln : Quietly Anything (on_screen (cprintln fg bg (some msg) args))
  Quietly-cprintln =
      let (t, e) = IsText-some (render msg args) h in
      record {
        run = λ m.
            on_text (cprintln fg bg (some msg) args)
              (λ n. write_char b'\n' fg bg (type_text fg bg t n.screen)) m
              (cprintln-returns fg bg msg args m.screen t w e)
              (KeepsMemory-trans (type_text-KeepsMemory fg bg t m.screen)
                (write_char-KeepsMemory b'\n' fg bg (type_text fg bg t m.screen)));
      }

module _ (msg : List ℕ) (args : List Arg) (w : AreWords args) (h : IsText (render msg args)) where
  pub Quietly-println : Quietly Anything (on_screen (println (some msg) args))
  unfolding println
  Quietly-println = Quietly-cprintln white black msg args w h

  pub Quietly-print : Quietly Anything (on_screen (print (some msg) args))
  unfolding print
  Quietly-print = Quietly-cprint white black msg args w h
