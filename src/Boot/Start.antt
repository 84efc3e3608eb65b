-- ===== src/Boot/Start.antt =====
-- The boot sector in real mode, up to the switch to protected mode.
use mathlib.Core.List.{append-nil, append_assoc}
use drewos.Base.{ℕ, ◌+◌, ◌<◌, ◌≤◌, ◌≡◌, ◌≢◌, ◌∙◌, refl, ap, arith, ◌⊎◌, inl, inr}
use drewos.Base.{false, ◌==◌, ◌&&◌, if◌then◌else◌, u8, [], ◌∷◌, ◌++◌, codes}
use drewos.Memory.{Memory, store}
use drewos.Boot.{
  Bios, Labels, Real, behind_video, clrscr, high, returned, with_high, with_low, word_at,
}
use drewos.Boot.Disk.{IsDisk}
use drewos.Boot.Image.{IsHealthy, load_kernel-IsLoaded, loading_text}
use drewos.Boot.Text.{IsText, IsText-beyond, IsText-kept, IsVideo, Keeps, Prints, written}
use drewos.Boot.Load.{start}
use drewos.Boot.Print.{println-Prints}

-- The data of the boot sector: behind the place for the kernel, and the texts behind the drive.
pub record IsBootSector (labels : Labels) (mem : Memory) : Type 0 where
  pub drive : 0x5000 ≤ labels.boot_drive
  pub started : IsText mem labels.msg_real_mode (codes "Started")
  pub started_behind : labels.boot_drive < labels.msg_real_mode
  pub loading : IsText mem labels.msg_load_kernel (codes "Loading kernel")
  pub loading_behind : labels.boot_drive < labels.msg_load_kernel
  pub protected : IsText mem labels.msg_prot_mode (codes "Protected")
  pub protected_behind : labels.boot_drive < labels.msg_prot_mode

store_other : (p v : ℕ) (mem : Memory) (q : ℕ) → p ≢ q → store p v mem q ≡ mem q
store_other p v mem q h = ground arith

store_same : (p v : ℕ) (mem : Memory) → store p v mem p ≡ v
store_same p v mem = ground arith

no_teletype : (ah : ℕ) → (ah ≡ 0x02) ⊎ (ah ≡ 0x06) → (0x10 == 0x10 && ah == 0x0e) ≡ false
no_teletype ah h = ground arith

function_of : (v w : ℕ) → high (with_low 0x00 (with_high v w)) ≡ u8 v
function_of v w = omega arith

module _ (bios : Bios) (labels : Labels) (video : IsVideo bios) where
  -- A call of the functions 0x02 and 0x06 writes no character.
  silent_call :
      (r : Real)
      → (high r.ax ≡ 0x02) ⊎ (high r.ax ≡ 0x06)
      → (written (behind_video bios labels r).calls ≡ written r.calls)
        × Keeps r (behind_video bios labels r)
  silent_call r h =
      let k = video r (elim h [ inl e ↦ inl e | inr e ↦ inr (inl e) ]) in
      (
        ap (λ b. if b then written r.calls ++ u8 r.ax ∷ [] else written r.calls)
            (no_teletype (high r.ax) h),
        record { ax = k.ax; bx = k.bx; cx = k.cx; dx = k.dx; mem = k.mem },
      )

  clrscr-Prints : (r : Real) → Prints [] r (clrscr bios labels r)
  unfolding clrscr
  clrscr-Prints r =
      let r1 : Real = record r {
        ax = with_low 0x00 (with_high 0x06 r.ax);
        bx = with_high 0x07 r.bx;
        cx = 0;
        dx = with_low 79 (with_high 24 r.dx);
      } in
      let (w1, k1) = silent_call r1 (inr (function_of 0x06 r.ax)) in
      let s1 : Real = behind_video bios labels r1 in
      let r2 : Real = record s1 {
        ax = with_low 0x00 (with_high 0x02 s1.ax);
        bx = 0;
        dx = with_low 0x00 (with_high 0x00 s1.dx);
      } in
      let (w2, k2) = silent_call r2 (inl (function_of 0x02 s1.ax)) in
      let s2 : Real = behind_video bios labels r2 in
      record {
        behind = record s2 { ax = r.ax; bx = r.bx; cx = r.cx; dx = r.dx };
        returns = refl;
        keeps = record {
          ax = refl;
          bx = refl;
          cx = refl;
          dx = refl;
          mem = λ p lo hi. k2.mem p lo hi ∙ k1.mem p lo hi;
        };
        written = rw append-nil (w2 ∙ w1);
      }

  module _ (images : ℕ → ℕ → ℕ) (disk : IsDisk bios) (healthy : IsHealthy bios images) where
    -- Behind the boot sector's part in real mode.
    pub record IsStarted (r s : Real) : Type 0 where
      pub kernel : (i : ℕ) → i < 0x4000 → s.mem (0x1000 + i) ≡ images (u8 r.dx) (512 + i)
      pub kept : (p : ℕ) → 0x5000 ≤ p → p < 0xa0000 → labels.boot_drive ≢ p → s.mem p ≡ r.mem p
      pub written :
          written s.calls
          ≡ written r.calls ++ (codes "Started\r\n" ++ loading_text (word_at s.mem 0x1000))

    -- `start`, with healthy disks and its texts in place, returns: the 32 sectors behind the boot
    -- sector of the drive in `dl` are in memory from 0x1000 on, all memory from 0x5000 on is as
    -- before but the byte for the drive, and the messages and the first word of the kernel have
    -- been printed.
    pub start-IsStarted :
        (text_fuel fuel : ℕ) (r : Real)
        → 16 ≤ text_fuel
        → 4 ≤ fuel
        → IsBootSector labels r.mem
        → (s : Real) × (start bios labels text_fuel fuel r ≡ returned s) × IsStarted r s
    unfolding start
    start-IsStarted text_fuel fuel r long enough boot =
        let r0 : Real = record r { mem = store labels.boot_drive (u8 r.dx) r.mem } in
        let fits : labels.boot_drive < 0xa0000 =
          omega (arith, boot.started.below, boot.started_behind) in
        let c = clrscr-Prints r0 in
        let stored = λ (q : ℕ) (apart : labels.boot_drive ≢ q).
          store_other labels.boot_drive (u8 r.dx) r.mem q apart in
        let started : IsText r0.mem labels.msg_real_mode (codes "Started") =
          IsText-beyond (λ q lo hi. stored q (λ z. absurd (omega (arith, boot.started_behind))))
            boot.started in
        let loading : IsText r0.mem labels.msg_load_kernel (codes "Loading kernel") =
          IsText-beyond (λ q lo hi. stored q (λ z. absurd (omega (arith, boot.loading_behind))))
            boot.loading in
        let r1 : Real = record c.behind { bx = labels.msg_real_mode } in
        let p =
          println-Prints bios labels video (codes "Started") text_fuel r1 (omega arith)
            (IsText-kept c.keeps.mem started) in
        let (s, e, l) =
          load_kernel-IsLoaded bios labels video images disk healthy text_fuel fuel p.behind long
            enough (IsText-kept p.keeps.mem (IsText-kept c.keeps.mem loading)) boot.drive fits in
        let drive : u8 (p.behind.mem labels.boot_drive) ≡ u8 r.dx =
          ap (λ (v : ℕ). u8 v)
            (p.keeps.mem labels.boot_drive (omega (arith, boot.drive)) fits
              ∙ c.keeps.mem labels.boot_drive (omega (arith, boot.drive)) fits
              ∙ store_same labels.boot_drive (u8 r.dx) r.mem)
          ∙ omega arith in
        (
          s,
          rw (c.returns, p.returns, e) refl,
          record {
            kernel = λ i below. l.kernel i below ∙ ap (λ (d : ℕ). images d (512 + i)) drive;
            kept = λ q lo hi apart.
                l.kept q lo hi
                ∙ p.keeps.mem q (omega arith) hi
                ∙ c.keeps.mem q (omega arith) hi
                ∙ stored q apart;
            written =
                l.written
                ∙ ap (λ x. x ++ loading_text (word_at s.mem 0x1000))
                    (p.written
                      ∙ ap (λ x. x ++ codes "Started\r\n")
                          (c.written ∙ append-nil (written r.calls)))
                ∙ append_assoc (written r.calls) (codes "Started\r\n")
                    (loading_text (word_at s.mem 0x1000));
          },
        )
