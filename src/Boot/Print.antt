-- ===== src/Boot/Print.antt =====
-- The routines of the boot loader that print texts.
use mathlib.Core.List.{append-nil, append_assoc}
use drewos.Base.{ℕ, zero, suc, ◌+◌, ◌<◌, ◌≡◌, ◌∙◌, refl, ap, arith, inr}
use drewos.Base.{true, false, ◌==◌, ==_iff, u8, u16, List, [], ◌∷◌, ◌++◌, length}
use drewos.Boot.{
  Bios, Labels, Real, behind_video, high, int_0x10, mov_ah, mov_al, print, print_lf, print_start,
  println, returned, with_high, with_low, ◌>>◌,
}
use drewos.Boot.Text.{
  IsText, IsText-next, IsVideo, Keeps, Prints, Prints-Wrote, Prints-then, Wrote, Wrote-trans,
  high-with_high, high-with_low, low-with_low, saving-Prints, written,
}

module _ (bios : Bios) (labels : Labels) (video : IsVideo bios) where
  -- A teletype call.
  pub int_0x10-Wrote :
      (r : Real)
      → high r.ax ≡ 0x0e
      → Wrote (u8 r.ax ∷ []) r (behind_video bios labels r) × Keeps r (behind_video bios labels r)
  int_0x10-Wrote r teletype =
      let k = video r (inr (inr teletype)) in
      let test : (high r.ax == 0x0e) ≡ true = (==_iff _ _).1 teletype in
      (
        record { written = rw test refl; mem = k.mem },
        record { ax = k.ax; bx = k.bx; cx = k.cx; dx = k.dx; mem = k.mem },
      )

  print_start-Wrote :
      (text : List ℕ) (fuel : ℕ) (r : Real)
      → length text < fuel
      → IsText r.mem r.bx text
      → high r.ax ≡ 0x0e
      → (s : Real) × (print_start bios labels fuel r ≡ returned s) × Wrote text r s
  unfolding print_start
  print_start-Wrote text zero r enough t h = absurd (omega arith)
  print_start-Wrote [] (suc fuel) r enough t h =
      let nul : (u8 (r.mem r.bx) == 0) ≡ true = (==_iff _ _).1 t.has in
      (
        record r { ax = with_low (u8 (r.mem r.bx)) r.ax },
        rw (print_start, nul) refl,
        record { written = rw append-nil; mem = λ p lo hi. refl },
      )
  print_start-Wrote (c ∷ text) (suc fuel) r enough t h =
      let (e, nz, _) = t.has in
      let char : ℕ = u8 (r.mem r.bx) in
      let read : Real = record r { ax = with_low char r.ax } in
      let (w, k) = int_0x10-Wrote read (high-with_low char r.ax ∙ h) in
      let shown : Real = behind_video bios labels read in
      let (s, e', w') =
        print_start-Wrote text fuel (record shown { bx = u16 (shown.bx + 1) }) (omega arith)
          (IsText-next shown.bx k.mem k.bx t) (ap high k.ax ∙ high-with_low char r.ax ∙ h) in
      let other : (u8 (r.mem r.bx) == 0) ≡ false = ground arith in
      let as_char : u8 (with_low char r.ax) ≡ c = omega (arith, e) in
      (
        s,
        rw (print_start, other) e',
        record {
          written =
              w'.written
              ∙ ap (λ x. x ++ text) (w.written ∙ ap (λ (v : ℕ). written r.calls ++ v ∷ []) as_char)
              ∙ append_assoc (written r.calls) (c ∷ []) text;
          mem = λ p lo hi. w'.mem p lo hi ∙ k.mem p lo hi;
        },
      )

  -- `print` with a text at `bx`
  pub print-Prints :
      (text : List ℕ) (fuel : ℕ) (r : Real)
      → length text < fuel
      → IsText r.mem r.bx text
      → Prints text r (print bios labels fuel r)
  unfolding print
  print-Prints text fuel r enough t =
      let (s, e, w) =
        print_start-Wrote text fuel (record r { ax = with_high 0x0e r.ax }) enough t
          (high-with_high 0x0e r.ax) in
      saving-Prints (mov_ah 0x0e >> print_start bios labels fuel) r s e
        record { written = w.written; mem = w.mem }

  -- `mov al, v` and a teletype call.
  pub record Typed (v : ℕ) (r s : Real) : Type 0 where
    pub mode : high s.ax ≡ 0x0e
    pub cx : s.cx ≡ r.cx
    pub dx : s.dx ≡ r.dx
    pub wrote : Wrote (u8 v ∷ []) r s

  abbrev pub type_char : ℕ → Real → Real
  type_char v r = behind_video bios labels (record r { ax = with_low v r.ax })

  pub type_char-Typed : (v : ℕ) (r : Real) → high r.ax ≡ 0x0e → Typed v r (type_char v r)
  type_char-Typed v r h =
      let (w, k) = int_0x10-Wrote (record r { ax = with_low v r.ax }) (high-with_low v r.ax ∙ h) in
      record {
        mode = ap high k.ax ∙ high-with_low v r.ax ∙ h;
        cx = k.cx;
        dx = k.dx;
        wrote = record {
          written = w.written ∙ ap (λ (c : ℕ). written r.calls ++ c ∷ []) (low-with_low v r.ax);
          mem = k.mem;
        };
      }

  pub print_lf-Prints : (r : Real) → Prints (0x0d ∷ 0x0a ∷ []) r (print_lf bios labels r)
  unfolding print_lf
  print_lf-Prints r =
      let start : Real = record r { ax = with_high 0x0e r.ax } in
      let cr = type_char-Typed 0x0d start (high-with_high 0x0e r.ax) in
      let lf = type_char-Typed 0x0a (type_char 0x0d start) cr.mode in
      saving-Prints
        (do mov_ah 0x0e; mov_al 0x0d; int_0x10 bios labels; mov_al 0x0a; int_0x10 bios labels) r
        (type_char 0x0a (type_char 0x0d start)) refl
        (Wrote-trans record { written = cr.wrote.written; mem = cr.wrote.mem } lf.wrote)

  -- `println` with a text at `bx`.
  pub println-Prints :
      (text : List ℕ) (fuel : ℕ) (r : Real)
      → length text < fuel
      → IsText r.mem r.bx text
      → Prints (text ++ 0x0d ∷ 0x0a ∷ []) r (println bios labels fuel r)
  unfolding println
  println-Prints text fuel r enough t =
      let p =
        Prints-then (print bios labels fuel) (print_lf bios labels) r
          (print-Prints text fuel r enough t) (λ q k. print_lf-Prints q) in
      saving-Prints (print bios labels fuel >> print_lf bios labels) r p.behind p.returns
        (Prints-Wrote p)
