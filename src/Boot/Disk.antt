-- ===== src/Boot/Disk.antt =====
-- `disk_load` of the boot loader.
use mathlib.Core.Path.{subst}
use drewos.Base.{ℕ, ◌+◌, ◌*◌, ◌^◌, ◌<◌, ◌≤◌, ◌≡◌, ◌≢◌, ◌∙◌, refl, ap, arith, ◌⊎◌, inl, inr}
use drewos.Base.{
  Bool, true, false, Bool-cases, ◌==◌, ==_iff, if◌then◌else◌, u8, List, [], ◌∷◌, ◌++◌, codes,
}
use drewos.Memory.{Memory}
use drewos.Boot.{Bios, End, Labels, Real, high, hung, returned, with_high, with_low}
use drewos.Boot.Text.{IsText, IsText-beyond, IsText-kept, IsVideo, Wrote, Wrote-trans, written}
use drewos.Boot.Load.{behind_disk, disk_error, disk_load, read_request}
use drewos.Boot.Hex.{hex_text, println_hex-Prints}
use drewos.Boot.Print.{print-Prints}

-- The function 0x02 of the interrupt 0x13 returns in `ax` and the carry flag, and writes to the
-- place for the sectors and to the BIOS's own memory.
pub record IsDisk (bios : Bios) : Type 0 where
  pub bx : (r : Real) → (bios.disk r).bx ≡ r.bx
  pub cx : (r : Real) → (bios.disk r).cx ≡ r.cx
  pub dx : (r : Real) → (bios.disk r).dx ≡ r.dx
  pub mem :
      (r : Real) (p : ℕ)
      → 0x500 ≤ p
      → p < 0xa0000
      → (p < r.bx) ⊎ (r.bx + 512 * u8 r.ax ≤ p)
      → (bios.disk r).mem p ≡ r.mem p

-- The texts of the message about an error, at their labels.
pub record HasMessages (labels : Labels) (mem : Memory) : Type 0 where
  pub message : IsText mem labels.disk_error_msg (codes "Disk read error")
  pub context : IsText mem labels.disk_error_msg_ctx (codes ": ")

-- What is printed about an error.
abbrev pub disk_error_text : ℕ → List ℕ
disk_error_text ax =
    codes "Disk read error" ++ codes ": " ++ hex_text (u8 (high ax) * 2 ^ 8) ++ 0x0d ∷ 0x0a ∷ []

-- The status in `ah` as a word.
status_word :
    (ax ax' dx : ℕ) → ax' ≡ ax → with_low 0x00 (with_high (high ax') dx) ≡ u8 (high ax) * 2 ^ 8
status_word ax ax' dx e = omega (arith, ap high e)

retype : {s t : List ℕ} {a b : Real} → s ≡ t → Wrote s a b → Wrote t a b
retype {a = a} {b} e w = subst (λ x. Wrote x a b) e w

then_branch : {A : Type 0} (x y : A) (b : Bool) → b ≡ true → (if b then x else y) ≡ x
then_branch x y b e = ap (λ c. if c then x else y) e

pub else_branch : {A : Type 0} (x y : A) (b : Bool) → b ≡ false → (if b then x else y) ≡ y
else_branch x y b e = ap (λ c. if c then x else y) e

differs : (a b : ℕ) → (a == b) ≡ false → a ≡ 0 → b ≡ 0 → ⊥
differs a b other h k = ground arith

HasMessages-read :
    {bios : Bios} {labels : Labels} (r : Real)
    → IsDisk bios
    → HasMessages labels r.mem
    → r.bx + 512 * u8 r.ax ≤ labels.disk_error_msg
    → r.bx + 512 * u8 r.ax ≤ labels.disk_error_msg_ctx
    → HasMessages labels (bios.disk r).mem
HasMessages-read {bios} r disk has h k = record {
  message =
      IsText-beyond
        (λ q lo hi.
          disk.mem r q (omega (arith, has.message.above)) (omega arith) (inr (omega arith)))
        has.message;
  context =
      IsText-beyond
        (λ q lo hi.
          disk.mem r q (omega (arith, has.context.above)) (omega arith) (inr (omega arith)))
        has.context;
}

module _ (bios : Bios) (labels : Labels) (video : IsVideo bios) where
  -- The message, whatever else is in the registers.
  disk_error-Wrote :
      (text_fuel fuel dx : ℕ) (r : Real)
      → 16 ≤ text_fuel
      → 4 ≤ fuel
      → HasMessages labels r.mem
      → (u8 r.ax == high r.dx) ≡ true
      → (s : Real) × (disk_error bios labels text_fuel fuel dx r ≡ hung s)
        × Wrote (disk_error_text r.ax) r s
  unfolding disk_error
  disk_error-Wrote text_fuel fuel dx r long enough has e =
      let r0 : Real = record r { bx = labels.disk_error_msg } in
      let p =
        print-Prints bios labels video (codes "Disk read error") text_fuel r0 (omega arith)
          has.message in
      let r1 : Real = record p.behind { bx = labels.disk_error_msg_ctx } in
      let q =
        print-Prints bios labels video (codes ": ") text_fuel r1 (omega arith)
          (IsText-kept p.keeps.mem has.context) in
      let r2 : Real = record q.behind {
        dx = with_low 0x00 (with_high (high q.behind.ax) q.behind.dx);
      } in
      let h = println_hex-Prints bios labels video text_fuel fuel r2 enough (omega arith) in
      (
        h.behind,
        rw (disk_error, e, p.returns, q.returns, h.returns) refl,
        Wrote-trans {a = r} record { written = p.written; mem = p.keeps.mem }
            (Wrote-trans {a = p.behind} record { written = q.written; mem = q.keeps.mem }
              (retype {a = q.behind}
                (ap (λ (d : ℕ). hex_text d ++ 0x0d ∷ 0x0a ∷ [])
                  (status_word r.ax q.behind.ax q.behind.dx (q.keeps.ax ∙ p.keeps.ax)))
                record { written = h.written; mem = h.keeps.mem })),
      )

  -- What becomes of `disk_load`, by the registers and the memory that the BIOS leaves.
  pub data Loaded (r : Real) (result : End) : Type 0 where
    loaded :
        (((bios.disk (read_request r)).carry ≡ false) ⊎ (u8 (bios.disk (read_request r)).ax ≢ 0))
        → result ≡ returned (record (behind_disk bios labels (read_request r)) { dx = r.dx })
        → Loaded r result
    failed :
        (bios.disk (read_request r)).carry ≡ true
        → u8 (bios.disk (read_request r)).ax ≡ 0
        → (q : Real) → result ≡ hung q
        → written q.calls ≡ written r.calls ++ disk_error_text (bios.disk (read_request r)).ax
        → Loaded r result

  -- `disk_load`, with a BIOS that keeps the registers and the memory that it has to keep, and with the
  -- texts of its message behind the place for the sectors, always comes to an end, whatever the BIOS
  -- reports. If the carry flag is clear, or set with a number of sectors in `al` that is not 0, it
  -- returns what the BIOS has left, with `dx` as before. It hangs only if the carry flag is set and
  -- `al` is 0, behind a message with the status in `ah`: `dh`, which it compares with, has been set
  -- to 0.
  pub disk_load-Loaded :
      (text_fuel fuel : ℕ) (r : Real)
      → IsDisk bios
      → 16 ≤ text_fuel
      → 4 ≤ fuel
      → HasMessages labels r.mem
      → r.bx + 512 * u8 (high r.dx) ≤ labels.disk_error_msg
      → r.bx + 512 * u8 (high r.dx) ≤ labels.disk_error_msg_ctx
      → Loaded r (disk_load bios labels text_fuel fuel r)
  unfolding disk_load disk_error
  disk_load-Loaded text_fuel fuel r disk long enough has behind behind' =
      let left : Real = bios.disk (read_request r) in
      let there : Real = behind_disk bios labels (read_request r) in
      let no_head : high left.dx ≡ 0 = omega (arith, disk.dx (read_request r)) in
      let texts : HasMessages labels left.mem =
        HasMessages-read (read_request r) disk has (omega arith) (omega arith) in
      elim (Bool-cases left.carry) [
        | inr e ↦ loaded (inl e) (else_branch _ _ left.carry e)
        | inl e ↦ elim (Bool-cases (u8 left.ax == high left.dx)) [
          | inr other ↦
              loaded (inr (λ z. absurd (differs (u8 left.ax) (high left.dx) other z no_head)))
                (then_branch _ _ left.carry e ∙ else_branch _ _ (u8 left.ax == high left.dx) other)
          | inl same ↦
              let (q, e', w) = disk_error-Wrote text_fuel fuel r.dx there long enough texts same in
              failed e ((==_iff _ _).0 same ∙ no_head) q (then_branch _ _ left.carry e ∙ e')
                w.written
        ]
      ]
