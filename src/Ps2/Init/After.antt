-- ===== src/Ps2/Init/After.antt =====
-- Steps of `ps2_init` and what holds of its variables behind them.
use mathlib.Core.Path.{subst}
use drewos.Base.{◌≡◌, refl, sym, false, inl}
use drewos.Machine.{Platform, Machine, Ps2State, K, pure, ◌>>=◌}
use drewos.Machine.Quiet.{Quietly, SameVariables, SameVariables-refl}
use drewos.Screen.Frame.{KeepsMemory-refl}
use drewos.Machine.Ends.{Ends, Ends-pure, Ends-bind, Ends-post, Ends-quiet}
use drewos.Ps2.Init.{on_ps2}
use drewos.Ps2.Init.Steps.{}
use drewos.Ps2.Init.Devices.{Kept, SameVariables-Kept, Kept-trans, AtInterrupt, AtInterrupt-from}
use drewos.Machine.Comes.{Comes, Comes-behind, Comes-post}

-- The variables before `ps2_init`, as they are at the start of the kernel.
pub record Fresh (s : Ps2State) : Type 0 where
  pub second : s.port_1_operational ≡ false
  pub no_first : s.port0_id ≡ 0
  pub no_second : s.port1_id ≡ 0

-- The other drivers are left alone as far as `Kept` says, and the variables are as stated.
pub record After (Q : Ps2State → Type 0) (m n : Machine) : Type 0 where
  pub kept : Kept m n
  pub holds : Q n.ps2

pub After-from :
    {Q : Ps2State → Type 0} {m n k : Machine} → SameVariables m n → After Q n k → After Q m k
After-from s a = record { kept = Kept-trans (SameVariables-Kept s) a.kept; holds = a.holds }

pub After-then :
    {A B : Type 0} {P Q : Ps2State → Type 0} {c : K A} {f : A → K B} {m : Machine}
    → Ends c m (λ _. After P m)
    → ((a : A) (n : Machine) → P n.ps2 → Ends (f a) n (λ _. After Q n))
    → Ends (c >>= f) m (λ _. After Q m)
After-then e r = Ends-bind e λ a n p.
    Ends-post (r a n p.holds) λ _ k q. record { kept = Kept-trans p.kept q.kept; holds = q.holds }

-- A quiet step keeps whatever holds of the variables.
pub After-quiet :
    {A : Type 0} {R : A → Type 0} {P : Ps2State → Type 0} {c : K A} (m : Machine)
    → P m.ps2
    → Quietly R c
    → Ends c m (λ _. After P m)
After-quiet {P = P} m p q =
    Ends-post (Ends-quiet m q)
      λ _ n s. record { kept = SameVariables-Kept s.1; holds = subst P (sym s.1.ps2) p }

pub After-pure :
    {A : Type 0} {P : Ps2State → Type 0} (a : A) (m : Machine)
    → P m.ps2
    → Ends (pure a) m (λ _. After P m)
After-pure a m p =
    Ends-pure a m (record { kept = SameVariables-Kept (SameVariables-refl m); holds = p })

pub After-set :
    {Q : Ps2State → Type 0} (f : Ps2State → Ps2State) (m : Machine)
    → Q (f m.ps2)
    → Ends (on_ps2 f) m (λ _. After Q m)
After-set f m q = record {
  value = tt;
  behind = record m { ps2 = f m.ps2 };
  returns = refl;
  post = record {
    kept = record {
      pic = refl;
      acpi = refl;
      memory = KeepsMemory-refl m.screen;
      driver = inl refl;
      handlers = λ v _. refl;
      gates = λ v _. refl;
    };
    holds = q;
  };
}

pub Comes-then :
    {I A B : Type 0} {rest : I → K B} {platform : Platform} {P Q : Ps2State → Type 0} {c : K A}
    {f : A → K B} {m : Machine}
    → Ends c m (λ _. After P m)
    → ((a : A) (n : Machine)
        → P n.ps2
        → Comes rest (f a) n (AtInterrupt platform Q n) (λ _. After Q n))
    → Comes rest (c >>= f) m (AtInterrupt platform Q m) (λ _. After Q m)
Comes-then e r = Comes-behind e λ a n p.
    Comes-post (r a n p.holds) (λ _ i. AtInterrupt-from p.kept (λ _ q. q) i)
      (λ _ _ q. record { kept = Kept-trans p.kept q.kept; holds = q.holds })
