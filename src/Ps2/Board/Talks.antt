-- ===== src/Ps2/Board/Talks.antt =====
-- Computations as steps between worlds, with a rule for each way to build a computation.
use mathlib.Core.Path.{subst}
use drewos.Base.{
  if◌then◌else◌, Bool, true, false, ◌≡◌, refl, ap, sym, ◌∙◌, Option, some, none, inl, inr,
  Option-cases,
}
use drewos.Machine.{
  Machine, Trace, IdtState, Ps2State, KeyboardState, K, pure, gets, ◌>>=◌, on_screen,
}
use drewos.Machine.Quiet.{Quietly, Anything}
use drewos.Machine.Ends.{Ends}
use drewos.Screen.{Screen}
use drewos.Screen.Frame.{KeepsMemory-refl}
use drewos.Idt.{on_table}
use drewos.Keyboard.{on_keyboard}
use drewos.Ps2.Init.{on_ps2}
use drewos.Ps2.Board.{Board, after_trace}
use drewos.Ps2.Board.World.{
  World, Others, Others-refl, Others-trans, In, world, In-SameVariables, In-Ends,
}

-- The accesses behind a result, or `t` if there is none.
abbrev trace_or : {A : Type 0} → Trace → Option (A × Machine) → Trace
trace_or t none = t
trace_or t (some (_, n)) = n.trace

on_screen-trace :
    (f : Screen → Option Screen) (m : Machine) {a : Unit {0}} {n : Machine}
    → on_screen f m ≡ some (a, n)
    → n.trace ≡ m.trace
on_screen-trace f m e = sym (ap (trace_or m.trace) e) ∙ elim (Option-cases (f m.screen)) [
  | inl e' ↦ rw (trace_or, e') refl
  | inr (_, e') ↦ rw (trace_or, e') refl
]

module _ (start : Board) where
  -- From every machine in the world `w`, the computation comes to where it goes on as `k` in the
  -- world `v`.
  pub record Reaches {A : Type 0} (c : K A) (w : World) (k : K A) (v : World) : Type 0 where
    pub run : (m : Machine) → In start w m → (n : Machine) × (c m ≡ k n) × In start v n × Others m n

  -- It returns the value in the world `v`.
  abbrev pub Talks : {A : Type 0} → K A → World → A → World → Type 0
  Talks c w a v = Reaches c w (pure a) v

module _ {start : Board} where
  -- What leaves the world of every machine as it is.
  pub Talks-Ends :
      {c : K (Unit {0})} {w : World}
      → ((n : Machine) → Ends c n (λ _ k. (world start k ≡ world start n) × Others n k))
      → Talks start c w tt w
  Talks-Ends quiet = record {
    run = λ n i. let e = quiet n in (e.behind, e.returns, In-Ends i e.post.0, e.post.1);
  }

  pub Talks-pure : {A : Type 0} {w : World} (a : A) → Talks start (pure a) w a w
  Talks-pure a = record { run = λ m i. (m, refl, i, Others-refl m) }

  pub Talks-value :
      {A : Type 0} {c : K A} {v w : World} {a b : A}
      → a ≡ b
      → Talks start c w a v
      → Talks start c w b v
  Talks-value {c = c} e p = record {
    run = λ m i. let (n, e', j, o) = p.run m i in (n, e' ∙ ap (λ x. some (x, n)) e, j, o);
  }

  pub Reaches-here : {A : Type 0} {c : K A} {w : World} → Reaches start c w c w
  Reaches-here = record { run = λ m i. (m, refl, i, Others-refl m) }

  pub Reaches-in :
      {A B : Type 0} {c k : K A} {w v : World} (f : A → K B)
      → Reaches start c w k v
      → Reaches start (c >>= f) w (k >>= f) v
  Reaches-in f p = record {
    run = λ m i. let (n, e, j, o) = p.run m i in (n, rw (e, ◌>>=◌) refl, j, o);
  }

  pub Reaches-trans :
      {A : Type 0} {c k l : K A} {u v w : World}
      → Reaches start c u k v
      → Reaches start k v l w
      → Reaches start c u l w
  Reaches-trans p q = record {
    run = λ m i.
        let (n, e, j, o) = p.run m i in
        let (n', e', j', o') = q.run n j in (n', e ∙ e', j', Others-trans o o');
  }

  pub Talks-bind :
      {A B : Type 0} {c : K A} {f : A → K B} {u v w : World} {a : A} {k : K B}
      → Talks start c u a v
      → ((x : A) → x ≡ a → Reaches start (f x) v k w)
      → Reaches start (c >>= f) u k w
  Talks-bind {a = a} p q = record {
    run = λ m i.
        let (n, e, j, o) = p.run m i in
        let (n', e', j', o') = (q a refl).run n j in (n', rw (e, ◌>>=◌) e', j', Others-trans o o');
  }

  pub Talks-world :
      {A : Type 0} {c : K A} {u v w : World} {k : K A}
      → v ≡ w
      → Reaches start c u k v
      → Reaches start c u k w
  Talks-world {c = c} {u} {k = k} e p = subst (λ x. Reaches start c u k x) e p

  pub Talks-ps2 :
      {A B : Type 0} {f : B → K A} {v w : World} {k : K A} (g : Ps2State → B)
      → ((x : B) → x ≡ g w.ps2 → Reaches start (f x) w k v)
      → Reaches start (gets (λ m. g m.ps2) >>= f) w k v
  Talks-ps2 g p = record { run = λ m i. (p (g m.ps2) (ap g i.ps2)).run m i }

  pub Talks-on_ps2 :
      {w : World} (f : Ps2State → Ps2State)
      → Talks start (on_ps2 f) w tt (record w { ps2 = f w.ps2 })
  Talks-on_ps2 f = record {
    run = λ m i. (
      record m { ps2 = f m.ps2 },
      refl,
      record {
        pic = i.pic;
        interrupts = i.interrupts;
        ps2 = ap f i.ps2;
        keyboard = i.keyboard;
        board = i.board;
      },
      record { acpi = refl; memory = KeepsMemory-refl m.screen },
    );
  }

  pub Talks-keyboard :
      {A B : Type 0} {f : B → K A} {v w : World} {k : K A} (g : KeyboardState → B)
      → ((x : B) → x ≡ g w.keyboard → Reaches start (f x) w k v)
      → Reaches start (gets (λ m. g m.keyboard) >>= f) w k v
  Talks-keyboard g p = record { run = λ m i. (p (g m.keyboard) (ap g i.keyboard)).run m i }

  pub Talks-on_keyboard :
      {w : World} (f : KeyboardState → KeyboardState)
      → Talks start (on_keyboard f) w tt (record w { keyboard = f w.keyboard })
  Talks-on_keyboard f = record {
    run = λ m i. (
      record m { keyboard = f m.keyboard },
      refl,
      record {
        pic = i.pic;
        interrupts = i.interrupts;
        ps2 = i.ps2;
        keyboard = ap f i.keyboard;
        board = i.board;
      },
      record { acpi = refl; memory = KeepsMemory-refl m.screen },
    );
  }

  pub Talks-on_table :
      {w : World} (f : IdtState → IdtState)
      → Talks start (on_table f) w tt (record w { interrupts = f w.interrupts })
  Talks-on_table f = record {
    run = λ m i. (
      record m { interrupts = f m.interrupts },
      refl,
      record {
        pic = i.pic;
        interrupts = ap f i.interrupts;
        ps2 = i.ps2;
        keyboard = i.keyboard;
        board = i.board;
      },
      record { acpi = refl; memory = KeepsMemory-refl m.screen },
    );
  }

  pub Talks-true :
      {A : Type 0} {b : Bool} {x : K A} {v w : World} {k : K A} (y : K A)
      → b ≡ true
      → Reaches start x w k v
      → Reaches start (elim b [ true ↦ x | false ↦ y ]) w k v
  Talks-true y e p = rw e p

  pub Talks-false :
      {A : Type 0} {b : Bool} {y : K A} {v w : World} {k : K A} (x : K A)
      → b ≡ false
      → Reaches start y w k v
      → Reaches start (elim b [ true ↦ x | false ↦ y ]) w k v
  Talks-false x e p = rw e p

  pub Talks-else :
      {A : Type 0} {b : Bool} {y : K A} {v w : World} {k : K A} (x : K A)
      → b ≡ false
      → Reaches start y w k v
      → Reaches start (if b then x else y) w k v
  Talks-else x e p = rw e p

  pub Talks-then :
      {A : Type 0} {b : Bool} {x : K A} {v w : World} {k : K A} (y : K A)
      → b ≡ true
      → Reaches start x w k v
      → Reaches start (if b then x else y) w k v
  Talks-then y e p = rw e p

  pub Talks-screen :
      {w : World} (f : Screen → Option Screen)
      → Quietly Anything (on_screen f)
      → Talks start (on_screen f) w tt w
  Talks-screen f q = record {
    run = λ m i.
        let (_, n, e, _, s) = q.run m in
        (
          n,
          e,
          In-SameVariables i s refl (ap (after_trace start) (on_screen-trace f m e) ∙ i.board),
          record { acpi = s.acpi; memory = s.memory },
        );
  }
