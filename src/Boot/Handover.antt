-- ===== src/Boot/Handover.antt =====
-- The boot from the first instruction of the boot sector to `main` of the kernel.
use drewos.Base.{ℕ, ◌+◌, ◌-◌, ◌*◌, ◌%◌, ◌<◌, ◌≤◌, ◌≡◌, ◌∙◌, refl, arith, inl}
use drewos.Base.{false, some, codes, get_elem?, u8}
use drewos.Screen.Palette.{colour_code, cyan}
use drewos.Screen.{get_address}
use drewos.Boot.{Bios, Labels, Real}
use drewos.Boot.Start.{IsBootSector, start-IsStarted}
use drewos.Boot.Disk.{IsDisk}
use drewos.Boot.Image.{IsHealthy}
use drewos.Boot.Text.{IsText, IsText-beyond, IsVideo}
use drewos.Boot.Protected.{
  begin_pm, Protected, boot, call, bit_or-sets, print_pm_loop-Shown, switch_to_pm,
}
use drewos.Boot.Gdt.{code_seg, data_seg}

-- The processor and the memory at the first instruction of `main`, for a boot from drive `drive`.
pub record IsHandedOver (labels : Labels) (images : ℕ → ℕ → ℕ) (drive main_address : ℕ)
    (p : Protected) : Type 0 where
  pub at_main : p.eip ≡ main_address
  pub code : p.cs ≡ code_seg
  pub others :
      (p.ds ≡ data_seg)
      × (p.ss ≡ data_seg)
      × (p.es ≡ data_seg)
      × (p.fs ≡ data_seg)
      × (p.gs ≡ data_seg)
  pub table : (p.gdtr_base ≡ labels.gdt_start) × (p.gdtr_limit ≡ 23)
  pub stack : p.esp ≡ 0x90000 - 4 * 3
  pub protection : p.cr0 % 2 ≡ 1
  pub masked : p.interrupts ≡ false
  pub kernel : (i : ℕ) → i < 512 * 32 → p.mem (0x1000 + i) ≡ images drive (512 + i)
  pub message :
      (i c : ℕ)
      → get_elem? (codes "Protected") i ≡ some c
      → (p.mem (get_address 0 4 + 2 * i) ≡ c)
        × (p.mem (get_address 0 4 + 2 * i + 1) ≡ colour_code cyan)

module _ (bios : Bios) (labels : Labels) (video : IsVideo bios) (images : ℕ → ℕ → ℕ)
    (disk : IsDisk bios) (healthy : IsHealthy bios images) where
  -- With a BIOS that does what its manual says, disks that report no error and the data of the boot
  -- sector in place, the boot comes to `main` from every state of the processor: in protected mode
  -- with the code and data segments of the table, interrupts off, three return addresses on the
  -- stack, the 32 sectors behind the boot sector of the drive in `dl` at 0x1000, and the message
  -- in row 4 of the screen, in cyan.
  pub boot-IsHandedOver :
      (main_address cr0 text_fuel fuel : ℕ) (r : Real)
      → 16 ≤ text_fuel
      → 4 ≤ fuel
      → IsBootSector labels r.mem
      → (p : Protected) × (boot bios labels main_address cr0 text_fuel fuel r ≡ some p)
        × IsHandedOver labels images (u8 r.dx) main_address p
  unfolding boot begin_pm
  boot-IsHandedOver main_address cr0 text_fuel fuel r long enough sector =
      let (s, e, started) =
        start-IsStarted bios labels video images disk healthy text_fuel fuel r long enough sector in
      let text : IsText s.mem labels.msg_prot_mode (codes "Protected") =
        IsText-beyond
          (λ q from below.
            started.kept q (omega (arith, sector.drive, sector.protected_behind)) (omega arith)
              (λ z. absurd (omega (arith, sector.protected_behind))))
          sector.protected in
      let (new, e', shown) =
        print_pm_loop-Shown (codes "Protected") text_fuel labels.msg_prot_mode (0xb8000 + 640) s.mem
          (omega arith) text.has text.below (omega arith) (omega arith) in
      (
        call main_address (call 0x1000 (record (switch_to_pm labels cr0 s.mem) { mem = new })),
        rw (boot, e, begin_pm, e') refl,
        record {
          at_main = refl;
          code = refl;
          others = (refl, refl, refl, refl, refl);
          table = (refl, refl);
          stack = refl;
          protection = bit_or-sets cr0;
          masked = refl;
          kernel = λ i below. shown.rest (0x1000 + i) (inl (omega arith)) ∙ started.kernel i below;
          message = shown.cells;
        },
      )
