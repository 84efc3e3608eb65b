-- ===== src/Machine/Ends.antt =====
-- Computations that return from a machine, with what is known of the value and the machine behind.
use drewos.Base.{◌∙◌, Bool, true, false, ◌≡◌, refl, some}
use drewos.Machine.{Machine, K, pure, gets, ◌>>=◌}
use drewos.Machine.Quiet.{Quietly, SameVariables}

pub record Ends {A : Type 0} (c : K A) (m : Machine) (Q : A → Machine → Type 0) : Type 0 where
  pub value : A
  pub behind : Machine
  pub returns : c m ≡ some (value, behind)
  pub post : Q value behind

pub Ends-pure :
    {A : Type 0} {Q : A → Machine → Type 0} (a : A) (m : Machine) → Q a m → Ends (pure a) m Q
Ends-pure a m q = record { value = a; behind = m; returns = refl; post = q }

pub Ends-bind :
    {A B : Type 0} {Q : A → Machine → Type 0} {R : B → Machine → Type 0} {c : K A} {f : A → K B}
    {m : Machine}
    → Ends c m Q
    → ((a : A) (n : Machine) → Q a n → Ends (f a) n R)
    → Ends (c >>= f) m R
Ends-bind {f = f} e r =
    let e' = r e.value e.behind e.post in
    record {
      value = e'.value;
      behind = e'.behind;
      returns = rw (e.returns, ◌>>=◌) e'.returns;
      post = e'.post;
    }

pub Ends-post :
    {A : Type 0} {Q R : A → Machine → Type 0} {c : K A} {m : Machine}
    → Ends c m Q
    → ((a : A) (n : Machine) → Q a n → R a n)
    → Ends c m R
Ends-post e f = record {
  value = e.value;
  behind = e.behind;
  returns = e.returns;
  post = f e.value e.behind e.post;
}

pub Ends-quiet :
    {A : Type 0} {P : A → Type 0} {c : K A} (m : Machine)
    → Quietly P c
    → Ends c m (λ a n. P a × SameVariables m n)
Ends-quiet m q =
    let (a, n, e, p, same) = q.run m in
    record { value = a; behind = n; returns = e; post = (p, same) }

pub Ends-bool :
    {A : Type 0} {Q : A → Machine → Type 0} {m : Machine} (b : Bool) {x y : K A}
    → (b ≡ true → Ends x m Q)
    → (b ≡ false → Ends y m Q)
    → Ends (elim b [ true ↦ x | false ↦ y ]) m Q
Ends-bool true p q = p refl
Ends-bool false p q = q refl

pub Ends-gets :
    {A B : Type 0} {Q : B → Machine → Type 0} {f : A → K B} {m : Machine} (g : Machine → A)
    → ((a : A) → a ≡ g m → Ends (f a) m Q)
    → Ends (gets g >>= f) m Q
Ends-gets {m = m} g r =
    let e = r (g m) refl in
    record { value = e.value; behind = e.behind; returns = e.returns; post = e.post }

-- A run that begins as another one does.
pub Ends-run :
    {A : Type 0} {Q : A → Machine → Type 0} {c c' : K A} {m m' : Machine}
    → Ends c' m' Q
    → c m ≡ c' m'
    → Ends c m Q
Ends-run e same = record {
  value = e.value;
  behind = e.behind;
  returns = same ∙ e.returns;
  post = e.post;
}
