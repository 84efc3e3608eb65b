-- ===== src/Boot/Hex.antt =====
-- `print_hex` of the boot loader against the digits of its number.
use mathlib.Core.Path.{subst}
use drewos.Base.{ℕ, zero, suc, ◌-◌, ◌*◌, ◌/◌, ◌%◌, ◌^◌, ◌<◌, ◌≤◌, ◌≡◌, ◌∙◌, refl, ap, arith}
use drewos.Base.{true, false, ◌==◌, ==_iff, u8, u16, List, [], ◌∷◌, ◌++◌, map, codes}
use drewos.Util.{digit_code}
use drewos.Util.Digits.{digits}
use drewos.Boot.{
  Bios, Labels, Real, digit_char, hex_loop, high, int_0x10, is_unknown_digit, mov_ah, mov_al,
  mov_cx, print_hex, print_lf, println_hex, proceed, returned, with_high, with_low, ◌>>◌,
}
use drewos.Boot.Text.{
  IsVideo, Prints, Prints-then, Wrote, Wrote-trans, high-with_high, saving-Prints, written,
}
use drewos.Boot.Print.{print_lf-Prints, type_char, type_char-Typed}

-- The character of the first of four digits.
abbrev first_char : ℕ → ℕ
first_char dx = digit_code (dx / 2 ^ 12)

known_digit : (n : ℕ) → n < 16 → is_unknown_digit n ≡ false
known_digit n h = ground arith

digit_char_lem : (n : ℕ) → n < 16 → u8 (with_low (digit_char (u8 n)) n) ≡ digit_code n
digit_char_lem n h = ground arith

-- The characters of `k + 1` rounds.
abbrev shifted : ℕ → ℕ → List ℕ
shifted zero dx = first_char dx ∷ []
shifted (suc k) dx = first_char dx ∷ shifted k (u16 (dx * 2 ^ 4))

-- A number in four hexadecimal digits, as text.
abbrev pub hex_text : ℕ → List ℕ
hex_text x = codes "0x" ++ map digit_code (digits 16 4 x)

shifted_lem : (x : ℕ) → x < 2 ^ 16 → shifted 3 x ≡ map digit_code (digits 16 4 x)
shifted_lem x h =
    let second : u16 (x * 2 ^ 4) / 2 ^ 12 ≡ x % 16 ^ 3 / 16 ^ 2 = omega arith in
    let third : u16 (u16 (x * 2 ^ 4) * 2 ^ 4) / 2 ^ 12 ≡ x % 16 ^ 3 % 16 ^ 2 / 16 = omega arith in
    let fourth : u16 (u16 (u16 (x * 2 ^ 4) * 2 ^ 4) * 2 ^ 4) / 2 ^ 12
        ≡ x % 16 ^ 3 % 16 ^ 2 % 16 / 1 =
      omega arith in
    ap
      (λ (d : ℕ).
        first_char x
        ∷ digit_code d
        ∷ first_char (u16 (u16 (x * 2 ^ 4) * 2 ^ 4))
        ∷ first_char (u16 (u16 (u16 (x * 2 ^ 4) * 2 ^ 4) * 2 ^ 4))
        ∷ [])
      second
    ∙ ap
        (λ (d : ℕ).
          first_char x
          ∷ digit_code (x % 16 ^ 3 / 16 ^ 2)
          ∷ digit_code d
          ∷ first_char (u16 (u16 (u16 (x * 2 ^ 4) * 2 ^ 4) * 2 ^ 4))
          ∷ [])
        third
    ∙ ap
        (λ (d : ℕ).
          first_char x
          ∷ digit_code (x % 16 ^ 3 / 16 ^ 2)
          ∷ digit_code (x % 16 ^ 3 % 16 ^ 2 / 16)
          ∷ digit_code d
          ∷ [])
        fourth

is_suc : (n k : ℕ) → n ≡ suc k → (n == 0) ≡ false
is_suc n k e = ground arith

before_suc : (n k : ℕ) → n ≡ suc k → n - 1 ≡ k
before_suc n k e = omega arith

module _ (bios : Bios) (labels : Labels) (video : IsVideo bios) where
  -- One digit, typed.
  abbrev digit_bx : ℕ → ℕ
  digit_bx dx = with_low (digit_char (u8 (dx / 2 ^ 12))) (dx / 2 ^ 12)

  abbrev shown : Real → Real
  shown r = type_char bios labels video (digit_bx r.dx) (record r { bx = digit_bx r.dx })

  record Round (r s : Real) : Type 0 where
    mode : high s.ax ≡ 0x0e
    cx : s.cx ≡ r.cx
    dx : s.dx ≡ r.dx
    wrote : Wrote (first_char r.dx ∷ []) r s

  shown-Round : (r : Real) → r.dx < 2 ^ 16 → high r.ax ≡ 0x0e → Round r (shown r)
  shown-Round r small mode =
      let t =
        type_char-Typed bios labels video (digit_bx r.dx) (record r { bx = digit_bx r.dx }) mode in
      let char : u8 (digit_bx r.dx) ≡ first_char r.dx =
        digit_char_lem (r.dx / 2 ^ 12) (omega arith) in
      record {
        mode = t.mode;
        cx = t.cx;
        dx = t.dx;
        wrote = record {
          written = t.wrote.written ∙ ap (λ (c : ℕ). written r.calls ++ c ∷ []) char;
          mem = t.wrote.mem;
        };
      }

  hex_loop-Wrote :
      (k text_fuel fuel : ℕ) (r : Real)
      → r.cx ≡ k
      → k < fuel
      → r.dx < 2 ^ 16
      → high r.ax ≡ 0x0e
      → (s : Real) × (hex_loop bios labels text_fuel fuel r ≡ returned s)
        × Wrote (shifted k r.dx) r s
  unfolding hex_loop
  hex_loop-Wrote k text_fuel zero r e enough small mode = absurd (omega arith)
  hex_loop-Wrote zero text_fuel (suc fuel) r e enough small mode =
      let round = shown-Round r small mode in
      let known : is_unknown_digit (r.dx / 2 ^ 12) ≡ false =
        known_digit (r.dx / 2 ^ 12) (omega arith) in
      let last : ((shown r).cx == 0) ≡ true = (==_iff _ _).1 (round.cx ∙ e) in
      (
        record (shown r) { dx = u16 ((shown r).dx * 2 ^ 4) },
        rw (hex_loop, known, proceed, last) refl,
        record { written = round.wrote.written; mem = round.wrote.mem },
      )
  hex_loop-Wrote (suc k) text_fuel (suc fuel) r e enough small mode =
      let round = shown-Round r small mode in
      let known : is_unknown_digit (r.dx / 2 ^ 12) ≡ false =
        known_digit (r.dx / 2 ^ 12) (omega arith) in
      let count : (shown r).cx ≡ suc k = round.cx ∙ e in
      let more : ((shown r).cx == 0) ≡ false = is_suc (shown r).cx k count in
      let next : Real = record (shown r) {
        dx = u16 ((shown r).dx * 2 ^ 4);
        cx = (shown r).cx - 1;
      } in
      let (s, e', w) =
        hex_loop-Wrote k text_fuel fuel next (before_suc (shown r).cx k count) (omega arith)
          (omega arith) round.mode in
      (
        s,
        rw (hex_loop, known, proceed, more) e',
        Wrote-trans record { written = round.wrote.written; mem = round.wrote.mem }
            (subst (λ (d : ℕ). Wrote (shifted k (u16 (d * 2 ^ 4))) next s) round.dx w),
      )

  -- With a BIOS whose video functions keep the registers and the free memory, for every number of
  -- 16 bits in `dx` and from 4 rounds on, `print_hex` types `0x` and the four hexadecimal digits of
  -- the number, with the characters that `_itoa` of the kernel has for them, and never the message
  -- about an unknown digit; it returns with the registers and the free memory as before.
  pub print_hex-Prints :
      (text_fuel fuel : ℕ) (r : Real)
      → 4 ≤ fuel
      → r.dx < 2 ^ 16
      → Prints (hex_text r.dx) r (print_hex bios labels text_fuel fuel r)
  unfolding print_hex
  print_hex-Prints text_fuel fuel r enough small =
      let start : Real = record r { cx = 3; ax = with_high 0x0e r.ax } in
      let zero_char = type_char-Typed bios labels video b'0' start (high-with_high 0x0e r.ax) in
      let s0 : Real = type_char bios labels video b'0' start in
      let x_char = type_char-Typed bios labels video b'x' s0 zero_char.mode in
      let s1 : Real = type_char bios labels video b'x' s0 in
      let number : s1.dx ≡ r.dx = x_char.dx ∙ zero_char.dx in
      let (s, e, w) =
        hex_loop-Wrote 3 text_fuel fuel s1 (x_char.cx ∙ zero_char.cx) (omega arith) (omega arith)
          x_char.mode in
      let digits_written : Wrote (map digit_code (digits 16 4 r.dx)) s1 s =
        subst (λ t. Wrote t s1 s) (ap (λ (d : ℕ). shifted 3 d) number ∙ shifted_lem r.dx small) w in
      saving-Prints
        (do
          mov_cx 0x03
          mov_ah 0x0e
          mov_al b'0'
          int_0x10 bios labels
          mov_al b'x'
          int_0x10 bios labels
          hex_loop bios labels text_fuel fuel)
        r s e
        (Wrote-trans record { written = zero_char.wrote.written; mem = zero_char.wrote.mem }
          (Wrote-trans x_char.wrote digits_written))

  pub println_hex-Prints :
      (text_fuel fuel : ℕ) (r : Real)
      → 4 ≤ fuel
      → r.dx < 2 ^ 16
      → Prints (hex_text r.dx ++ 0x0d ∷ 0x0a ∷ []) r (println_hex bios labels text_fuel fuel r)
  unfolding println_hex
  println_hex-Prints text_fuel fuel r enough small =
      Prints-then (print_hex bios labels text_fuel fuel) (print_lf bios labels) r
        (print_hex-Prints text_fuel fuel r enough small)
        (λ q k. print_lf-Prints bios labels video q)
