-- ===== src/Machine/Comes.antt =====
-- Computations that return from a machine, or come to a place that is not theirs to run, such as an
-- interrupt.
use drewos.Base.{◌∙◌, Bool, true, false, ◌≡◌, refl, some}
use drewos.Machine.{Machine, K, gets, ◌>>=◌}
use drewos.Machine.Ends.{Ends}

-- It returns, or it goes on as one of `rest` from a machine, with what is known of the machine there.
pub data Comes {I A : Type 0} (rest : I → K A) (c : K A) (m : Machine) (S : Machine → Type 0)
    (Q : A → Machine → Type 0) : Type 0 where
  returned : (a : A) (n : Machine) → c m ≡ some (a, n) → Q a n → Comes rest c m S Q
  stopped : (i : I) (n : Machine) → c m ≡ rest i n → S n → Comes rest c m S Q

pub Comes-Ends :
    {I A : Type 0} {rest : I → K A} {S : Machine → Type 0} {Q : A → Machine → Type 0} {c : K A}
    {m : Machine}
    → Ends c m Q
    → Comes rest c m S Q
Comes-Ends e = returned e.value e.behind e.returns e.post

-- A run that begins as another one does.
pub Comes-run :
    {I A : Type 0} {rest : I → K A} {S : Machine → Type 0} {Q : A → Machine → Type 0} {c c' : K A}
    {m m' : Machine}
    → Comes rest c' m' S Q
    → c m ≡ c' m'
    → Comes rest c m S Q
Comes-run (returned a n e q) same = returned a n (same ∙ e) q
Comes-run (stopped i n e s) same = stopped i n (same ∙ e) s

pub Comes-post :
    {I A : Type 0} {rest : I → K A} {S S' : Machine → Type 0} {Q Q' : A → Machine → Type 0}
    {c : K A} {m : Machine}
    → Comes rest c m S Q
    → ((n : Machine) → S n → S' n)
    → ((a : A) (n : Machine) → Q a n → Q' a n)
    → Comes rest c m S' Q'
Comes-post (returned a n e q) f g = returned a n e (g a n q)
Comes-post (stopped i n e s) f g = stopped i n e (f n s)

-- Steps in front of it.
pub Comes-behind :
    {I A B : Type 0} {rest : I → K B} {S : Machine → Type 0} {Q : A → Machine → Type 0}
    {R : B → Machine → Type 0} {c : K A} {f : A → K B} {m : Machine}
    → Ends c m Q
    → ((a : A) (n : Machine) → Q a n → Comes rest (f a) n S R)
    → Comes rest (c >>= f) m S R
Comes-behind e r = Comes-run (r e.value e.behind e.post) (rw (e.returns, ◌>>=◌) refl)

-- Steps behind it.
pub Comes-before :
    {I A B : Type 0} {rest : I → K A} {S : Machine → Type 0} {Q : A → Machine → Type 0}
    {R : B → Machine → Type 0} {c : K A} {f : A → K B} {m : Machine}
    → Comes rest c m S Q
    → ((a : A) (n : Machine) → Q a n → Ends (f a) n R)
    → Comes (λ i. rest i >>= f) (c >>= f) m S R
Comes-before (returned a n e q) r =
    let e' = r a n q in returned e'.value e'.behind (rw (e, ◌>>=◌) e'.returns) e'.post
Comes-before (stopped i n e s) r = stopped i n (rw (e, ◌>>=◌) refl) s

pub Comes-bool :
    {I A : Type 0} {rest : I → K A} {S : Machine → Type 0} {Q : A → Machine → Type 0} {m : Machine}
    (b : Bool) {x y : K A}
    → (b ≡ true → Comes rest x m S Q)
    → (b ≡ false → Comes rest y m S Q)
    → Comes rest (elim b [ true ↦ x | false ↦ y ]) m S Q
Comes-bool true p q = p refl
Comes-bool false p q = q refl

pub Comes-gets :
    {I A B : Type 0} {rest : I → K B} {S : Machine → Type 0} {Q : B → Machine → Type 0}
    {f : A → K B} {m : Machine} (g : Machine → A)
    → ((a : A) → a ≡ g m → Comes rest (f a) m S Q)
    → Comes rest (gets g >>= f) m S Q
Comes-gets {m = m} g r = Comes-run (r (g m) refl) refl
