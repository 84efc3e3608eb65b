-- ===== src/Boot/Text.antt =====
-- What the boot loader prints in real mode, character by character.
use mathlib.Core.Path.{subst}
use mathlib.Core.List.{append_assoc}
use drewos.Base.{ℕ, ◌+◌, ◌^◌, ◌<◌, ◌≤◌, ◌≡◌, ◌≢◌, ◌∙◌, refl, ap, arith, ◌⊎◌}
use drewos.Base.{◌==◌, ◌&&◌, if◌then◌else◌, u8, u16, List, [], ◌∷◌, ◌++◌, length}
use drewos.Memory.{Memory}
use drewos.Boot.{Bios, Call, End, Real, Routine, high, returned, saving, with_high, with_low, ◌>>◌}

-- The characters of the teletype calls, the first one first.
abbrev pub written : List Call → List ℕ
written [] = []
written (c ∷ calls) =
    if c.number == 0x10 && high c.ax == 0x0e then written calls ++ u8 c.ax ∷ [] else written calls

-- The memory that programs in real mode may use.
abbrev pub KeepsFree : Memory → Memory → Type 0
KeepsFree old new = (p : ℕ) → 0x500 ≤ p → p < 0xa0000 → new p ≡ old p

pub record Keeps (r s : Real) : Type 0 where
  pub ax : s.ax ≡ r.ax
  pub bx : s.bx ≡ r.bx
  pub cx : s.cx ≡ r.cx
  pub dx : s.dx ≡ r.dx
  pub mem : KeepsFree r.mem s.mem

-- The functions 0x02, 0x06 and 0x0e of the interrupt 0x10 return nothing in the registers, and
-- change no memory but the screen's and the BIOS's own.
abbrev pub IsVideo : Bios → Type 0
IsVideo bios =
    (r : Real)
    → (high r.ax ≡ 0x02) ⊎ (high r.ax ≡ 0x06) ⊎ (high r.ax ≡ 0x0e)
    → Keeps r (bios.video r)

-- A text in memory in front of its NUL.
abbrev pub HasText : Memory → ℕ → List ℕ → Type 0
HasText mem p [] = u8 (mem p) ≡ 0
HasText mem p (c ∷ text) = (u8 (mem p) ≡ c) × (c ≢ 0) × HasText mem (p + 1) text

-- A text that the boot loader can reach with 16 bits.
pub record IsText (mem : Memory) (p : ℕ) (text : List ℕ) : Type 0 where
  pub above : 0x500 ≤ p
  pub below : p + length text < 2 ^ 16
  pub has : HasText mem p text

-- Behind a routine, a text is written, and the free memory is as before.
pub record Wrote (text : List ℕ) (r s : Real) : Type 0 where
  pub written : written s.calls ≡ written r.calls ++ text
  pub mem : KeepsFree r.mem s.mem

-- A routine returns with the registers as before.
pub record Prints (text : List ℕ) (r : Real) (result : End) : Type 0 where
  pub behind : Real
  pub returns : result ≡ returned behind
  pub keeps : Keeps r behind
  pub written : written behind.calls ≡ written r.calls ++ text

pub Prints-Wrote :
    {text : List ℕ} {r : Real} {result : End} (p : Prints text r result) → Wrote text r p.behind
Prints-Wrote p = record { written = p.written; mem = p.keeps.mem }

Keeps-trans : {a b c : Real} → Keeps a b → Keeps b c → Keeps a c
Keeps-trans k l = record {
  ax = l.ax ∙ k.ax;
  bx = l.bx ∙ k.bx;
  cx = l.cx ∙ k.cx;
  dx = l.dx ∙ k.dx;
  mem = λ p lo hi. l.mem p lo hi ∙ k.mem p lo hi;
}

pub Wrote-trans : {s t : List ℕ} {a b c : Real} → Wrote s a b → Wrote t b c → Wrote (s ++ t) a c
Wrote-trans {s} {t} {a} v w = record {
  written = w.written ∙ ap (λ x. x ++ t) v.written ∙ append_assoc (written a.calls) s t;
  mem = λ p lo hi. w.mem p lo hi ∙ v.mem p lo hi;
}

pub HasText-kept :
    {old new : Memory} (p : ℕ) (text : List ℕ)
    → ((q : ℕ) → p ≤ q → q < 2 ^ 16 → new q ≡ old q)
    → p + length text < 2 ^ 16
    → HasText old p text
    → HasText new p text
HasText-kept p [] kept hi h = ap (λ (v : ℕ). u8 v) (kept p (omega arith) (omega arith)) ∙ h
HasText-kept p (c ∷ text) kept hi (e, nz, rest) = (
  ap (λ (v : ℕ). u8 v) (kept p (omega arith) (omega arith)) ∙ e,
  nz,
  HasText-kept (p + 1) text (λ q h. kept q (omega arith)) (omega arith) rest,
)

-- A text that memory keeps from its address on.
pub IsText-beyond :
    {old new : Memory} {p : ℕ} {text : List ℕ}
    → ((q : ℕ) → p ≤ q → q < 2 ^ 16 → new q ≡ old q)
    → IsText old p text
    → IsText new p text
IsText-beyond {p = p} {text} kept t = record {
  above = t.above;
  below = t.below;
  has = HasText-kept p text kept t.below t.has;
}

pub IsText-kept :
    {old new : Memory} {p : ℕ} {text : List ℕ}
    → KeepsFree old new
    → IsText old p text
    → IsText new p text
IsText-kept kept t = IsText-beyond (λ q lo hi. kept q (omega (arith, t.above)) (omega arith)) t

pub IsText-next :
    {old new : Memory} {p c : ℕ} {text : List ℕ} (q : ℕ)
    → KeepsFree old new
    → q ≡ p
    → IsText old p (c ∷ text)
    → IsText new (u16 (q + 1)) text
IsText-next {new = new} {p} {c} {text} q kept e t =
    let rest : IsText new (p + 1) text =
      IsText-kept kept
        record { above = omega (arith, t.above); below = omega (arith, t.below); has = t.has.2 } in
    let at : p + 1 ≡ u16 (q + 1) = omega (arith, t.below, e) in
    subst (λ x. IsText new x text) at rest

pub high-with_low : (v w : ℕ) → high (with_low v w) ≡ high w
high-with_low v w = omega arith

pub low-with_low : (v w : ℕ) → u8 (with_low v w) ≡ u8 v
low-with_low v w = omega arith

pub high-with_high : (v w : ℕ) → high (with_high v w) ≡ u8 v
high-with_high v w = omega arith

pub saving-Prints :
    {text : List ℕ} (f : Routine) (r s : Real)
    → f r ≡ returned s
    → Wrote text r s
    → Prints text r (saving f r)
saving-Prints f r s e w = record {
  behind = record s { ax = r.ax; bx = r.bx; cx = r.cx; dx = r.dx };
  returns = rw e refl;
  keeps = record { ax = refl; bx = refl; cx = refl; dx = refl; mem = w.mem };
  written = w.written;
}

pub Prints-then :
    {s t : List ℕ} (f g : Routine) (r : Real)
    → Prints s r (f r)
    → ((q : Real) → Keeps r q → Prints t q (g q))
    → Prints (s ++ t) r ((f >> g) r)
Prints-then {s} {t} f g r p k =
    let q = k p.behind p.keeps in
    let w = Wrote-trans (Prints-Wrote p) (Prints-Wrote q) in
    record {
      behind = q.behind;
      returns = rw p.returns q.returns;
      keeps = Keeps-trans p.keeps q.keeps;
      written = w.written;
    }
