-- ===== src/Boot/Load.antt =====
-- The rest of src/boot/util.asm, and src/boot/bootloader.asm in real mode: the boot sector reads the
-- kernel from the disk.
use drewos.Base.{ℕ, ◌==◌, if◌then◌else◌, u8, ◌∷◌}
use drewos.Memory.{store}
use drewos.Boot.{
  Bios, Labels, Real, Routine, call_of, clrscr, high, hung, mov_bx, mov_dh, mov_dl, print, println,
  println_hex, proceed, returned, with_high, with_low, word_at, ◌>>◌,
}

-- The registers for the BIOS call.
abbrev pub read_request : Real → Real
read_request r = record r {
  ax = with_low (high r.dx) (with_high 0x02 r.ax);
  cx = with_low 0x02 (with_high 0x00 r.cx);
  dx = with_high 0x00 r.dx;
}

module _ (bios : Bios) (labels : Labels) where
  abbrev pub behind_disk : Real → Real
  behind_disk r = record (bios.disk r) { calls = call_of 0x13 r ∷ r.calls }

  abbrev pub int_0x13 : Routine
  int_0x13 r = returned (behind_disk r)

  -- `disk_error`; `dx` is the register on the stack. It ends in `jmp $`.
  unfoldable pub disk_error : ℕ → ℕ → ℕ → Routine
  disk_error text_fuel fuel dx r =
      if u8 r.ax == high r.dx
      then (do
        mov_bx labels.disk_error_msg
        print bios labels text_fuel
        mov_bx labels.disk_error_msg_ctx
        print bios labels text_fuel
        λ s. mov_dh (high s.ax) s
        mov_dl 0x00
        println_hex bios labels text_fuel fuel
        hung)
          r
      else returned (record r { dx = dx })

  unfoldable pub disk_load : ℕ → ℕ → Routine
  disk_load text_fuel fuel r =
      proceed (int_0x13 (read_request r))
        λ s. if s.carry then disk_error text_fuel fuel r.dx s else returned (record s { dx = r.dx })

  -- `KERNEL_OFFSET` is 0x1000.
  unfoldable pub load_kernel : ℕ → ℕ → Routine
  load_kernel text_fuel fuel = do
    mov_bx labels.msg_load_kernel
    println bios labels text_fuel
    mov_bx 0x1000
    mov_dh 32
    λ r. mov_dl (r.mem labels.boot_drive) r
    disk_load text_fuel fuel
    λ r. returned (record r { dx = word_at r.mem 0x1000 })
    println_hex bios labels text_fuel fuel

  -- The boot sector up to `switch_to_pm`.
  unfoldable pub start : ℕ → ℕ → Routine
  start text_fuel fuel = do
    λ r. returned (record r { mem = store labels.boot_drive (u8 r.dx) r.mem })
    clrscr bios labels
    mov_bx labels.msg_real_mode
    println bios labels text_fuel
    load_kernel text_fuel fuel
