-- ===== src/Boot/Image.antt =====
-- `load_kernel`: the image of the kernel in memory.
use mathlib.Core.List.{append_assoc}
use drewos.Base.{ℕ, ◌+◌, ◌-◌, ◌*◌, ◌<◌, ◌≤◌, ◌≡◌, ◌∙◌, refl, ap, arith, inr}
use drewos.Base.{false, u8, List, ◌++◌, codes}
use drewos.Memory.{Memory}
use drewos.Boot.{Bios, Labels, Real, high, returned, with_high, with_low, word_at}
use drewos.Boot.Disk.{IsDisk, else_branch}
use drewos.Boot.Text.{IsText, IsVideo, KeepsFree, written}
use drewos.Boot.Load.{behind_disk, disk_load, load_kernel, read_request}
use drewos.Boot.Hex.{hex_text, println_hex-Prints}
use drewos.Boot.Print.{println-Prints}

-- The disks answer: without an error, the sectors are in memory, from cylinder 0 and head 0 on;
-- `images` are the bytes of each drive.
pub record IsHealthy (bios : Bios) (images : ℕ → ℕ → ℕ) : Type 0 where
  pub success : (r : Real) → (bios.disk r).carry ≡ false
  pub sectors :
      (r : Real) (i : ℕ)
      → high r.ax ≡ 0x02
      → high r.cx ≡ 0
      → high r.dx ≡ 0
      → i < 512 * u8 r.ax
      → (bios.disk r).mem (r.bx + i) ≡ images (u8 r.dx) (512 * (u8 r.cx - 1) + i)

-- What `load_kernel` prints, with the first word of the kernel.
abbrev pub loading_text : ℕ → List ℕ
loading_text word = codes "Loading kernel\r\n" ++ hex_text word ++ codes "\r\n"

word_kept : {old new : Memory} → KeepsFree old new → word_at old 0x1000 ≡ word_at new 0x1000
word_kept kept =
    omega (arith, kept 0x1000 (omega arith) (omega arith), kept 0x1001 (omega arith) (omega arith))

read_function : (n ax : ℕ) → high (with_low n (with_high 0x02 ax)) ≡ 0x02
read_function n ax = omega arith

sector_high : (v cx : ℕ) → high (with_low 0x02 (with_high v cx)) ≡ u8 v
sector_high v cx = omega arith

sector_of : (cx : ℕ) → u8 (with_low 0x02 (with_high 0x00 cx)) ≡ 2
sector_of cx = omega arith

head_of : (dx : ℕ) → high (with_high 0x00 dx) ≡ 0
head_of dx = omega arith

sectors_of :
    (drive dx ax : ℕ)
    → u8 (with_low (high (with_low drive (with_high 32 dx))) (with_high 0x02 ax)) ≡ 32
sectors_of drive dx ax = omega arith

request_drive : (drive dx : ℕ) → u8 (with_high 0x00 (with_low drive (with_high 32 dx))) ≡ u8 drive
request_drive drive dx = omega arith

module _ (bios : Bios) (labels : Labels) (video : IsVideo bios) (images : ℕ → ℕ → ℕ)
    (disk : IsDisk bios) (healthy : IsHealthy bios images) where
  -- Behind `load_kernel`.
  pub record IsLoaded (text : List ℕ) (drive : ℕ) (r s : Real) : Type 0 where
    pub kernel : (i : ℕ) → i < 0x4000 → s.mem (0x1000 + i) ≡ images drive (512 + i)
    pub kept : (p : ℕ) → 0x5000 ≤ p → p < 0xa0000 → s.mem p ≡ r.mem p
    pub written : written s.calls ≡ written r.calls ++ text

  place : (i : ℕ) {a b c : ℕ} → a ≡ b → c ≡ 2 → images a (512 * (c - 1) + i) ≡ images b (512 + i)
  place i e k = rw (e, k) refl

  disk_load-returns :
      (text_fuel fuel : ℕ) (r : Real)
      → disk_load bios labels text_fuel fuel r
        ≡ returned (record (behind_disk bios labels (read_request r)) { dx = r.dx })
  unfolding disk_load
  disk_load-returns text_fuel fuel r = else_branch _ _ _ (healthy.success (read_request r))

  pub load_kernel-IsLoaded :
      (text_fuel fuel : ℕ) (r : Real)
      → 16 ≤ text_fuel
      → 4 ≤ fuel
      → IsText r.mem labels.msg_load_kernel (codes "Loading kernel")
      → 0x5000 ≤ labels.boot_drive
      → labels.boot_drive < 0xa0000
      → (s : Real) × (load_kernel bios labels text_fuel fuel r ≡ returned s)
        × IsLoaded (loading_text (word_at s.mem 0x1000)) (u8 (r.mem labels.boot_drive)) r s
  unfolding load_kernel
  load_kernel-IsLoaded text_fuel fuel r long enough t lo hi =
      let r0 : Real = record r { bx = labels.msg_load_kernel } in
      let p =
        println-Prints bios labels video (codes "Loading kernel") text_fuel r0 (omega arith) t in
      let drive : ℕ = p.behind.mem labels.boot_drive in
      let r1 : Real = record p.behind {
        bx = 0x1000;
        dx = with_low drive (with_high 32 p.behind.dx);
      } in
      let read : Real = behind_disk bios labels (read_request r1) in
      let r2 : Real = record read { dx = word_at read.mem 0x1000 } in
      let h = println_hex-Prints bios labels video text_fuel fuel r2 enough (omega arith) in
      (
        h.behind,
        rw (p.returns, load_kernel, disk_load-returns text_fuel fuel r1, h.returns) refl,
        record {
          kernel = λ i below.
              h.keeps.mem (0x1000 + i) (omega arith) (omega arith)
              ∙ healthy.sectors (read_request r1) i (read_function (high r1.dx) r1.ax)
                  (sector_high 0x00 r1.cx) (head_of r1.dx)
                  (omega (arith, below, sectors_of drive p.behind.dx r1.ax))
              ∙ place i
                  (request_drive drive p.behind.dx
                    ∙ ap (λ (d : ℕ). u8 d) (p.keeps.mem labels.boot_drive (omega arith) hi))
                  (sector_of r1.cx);
          kept = λ q from below.
              h.keeps.mem q (omega arith) below
              ∙ disk.mem (read_request r1) q (omega arith) below
                  (inr (omega (arith, from, sectors_of drive p.behind.dx r1.ax)))
              ∙ p.keeps.mem q (omega arith) below;
          written =
              h.written
              ∙ ap (λ x. x ++ (hex_text r2.dx ++ codes "\r\n")) p.written
              ∙ append_assoc (written r.calls) (codes "Loading kernel\r\n")
                  (hex_text r2.dx ++ codes "\r\n")
              ∙ ap (λ (d : ℕ). written r.calls ++ loading_text d) (word_kept h.keeps.mem);
        },
      )
