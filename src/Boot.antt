-- ===== src/Boot.antt =====
-- src/boot/util.asm: the routines that print and read from the disk by the BIOS. The memory is
-- without the stack; `pusha`, `popa`, `push` and `pop` are written out as the registers that they
-- keep.
pub mod Text
pub mod Print
pub mod Load
pub mod Hex
pub mod Disk
pub mod Image
pub mod Start
pub mod Gdt
pub mod Protected
pub mod Handover
use drewos.Base.{
  ℕ, zero, suc, ◌+◌, ◌-◌, ◌*◌, ◌/◌, ◌%◌, ◌^◌, Bool, true, false, ◌&&◌, ◌||◌, ◌==◌, ltb, leb,
}
use drewos.Base.{if◌then◌else◌, u8, u16, List, ◌∷◌}
use drewos.Memory.{Memory, store}

-- A call of the BIOS, with the registers that it is given.
pub record Call : Type 0 where
  pub number : ℕ
  pub ax : ℕ
  pub bx : ℕ
  pub cx : ℕ
  pub dx : ℕ

-- The processor in real mode with its segments at 0, and the calls of the BIOS, the latest first.
pub record Real : Type 0 where
  pub ax : ℕ
  pub bx : ℕ
  pub cx : ℕ
  pub dx : ℕ
  pub carry : Bool
  pub mem : Memory
  pub calls : List Call

-- What the interrupts 0x10 and 0x13 of the BIOS leave behind.
pub record Bios : Type 0 where
  pub video : Real → Real
  pub disk : Real → Real

-- Where the assembler puts the data.
pub record Labels : Type 0 where
  pub err_unknown : ℕ
  pub disk_error_msg : ℕ
  pub disk_error_msg_ctx : ℕ
  pub boot_drive : ℕ
  pub msg_real_mode : ℕ
  pub msg_load_kernel : ℕ
  pub msg_prot_mode : ℕ
  pub gdt_start : ℕ
  pub begin_pm : ℕ

-- A routine returns, hangs in `jmp $`, or needs more rounds than it is given.
pub data End : Type 0 where
  returned hung : Real → End
  unfinished : End

abbrev pub Routine : Type 0
Routine = Real → End

abbrev pub proceed : End → Routine → End
proceed (returned r) g = g r
proceed (hung r) g = hung r
proceed unfinished g = unfinished

infixl 5 ◌>>◌
abbrev pub ◌>>◌ : Routine → Routine → Routine
◌>>◌ f g r = proceed (f r) g

abbrev pub with_low : ℕ → ℕ → ℕ
with_low v w = w / 2 ^ 8 * 2 ^ 8 + u8 v

abbrev pub with_high : ℕ → ℕ → ℕ
with_high v w = u8 v * 2 ^ 8 + w % 2 ^ 8

-- The upper half of a register; the lower one is `u8`.
abbrev pub high : ℕ → ℕ
high w = w / 2 ^ 8

abbrev pub mov_ah : ℕ → Routine
mov_ah v r = returned (record r { ax = with_high v r.ax })

abbrev pub mov_al : ℕ → Routine
mov_al v r = returned (record r { ax = with_low v r.ax })

abbrev pub mov_bx : ℕ → Routine
mov_bx v r = returned (record r { bx = v })

abbrev pub mov_cx : ℕ → Routine
mov_cx v r = returned (record r { cx = v })

abbrev pub mov_dh : ℕ → Routine
mov_dh v r = returned (record r { dx = with_high v r.dx })

abbrev pub mov_dl : ℕ → Routine
mov_dl v r = returned (record r { dx = with_low v r.dx })

-- A routine between `pusha` and `popa`.
abbrev pub with_registers : Real → Routine
with_registers old r = returned (record r { ax = old.ax; bx = old.bx; cx = old.cx; dx = old.dx })

abbrev pub saving : Routine → Routine
saving f r = proceed (f r) (with_registers r)

abbrev pub word_at : Memory → ℕ → ℕ
word_at mem p = u8 (mem p) + 2 ^ 8 * u8 (mem (p + 1))

abbrev pub call_of : ℕ → Real → Call
call_of number r = record { number = number; ax = r.ax; bx = r.bx; cx = r.cx; dx = r.dx }

-- `jg .unknown_digit` and `jl .unknown_digit`, on signed numbers.
abbrev pub is_unknown_digit : ℕ → Bool
is_unknown_digit bx = ltb 0xf bx && ltb bx (2 ^ 15) || leb (2 ^ 15) bx

-- `.number` or `.letter`, on `bl`.
abbrev pub digit_char : ℕ → ℕ
digit_char bl = if ltb 9 bl && ltb bl (2 ^ 7) then bl + 0x57 else bl + b'0'

module _ (bios : Bios) (labels : Labels) where
  abbrev pub behind_video : Real → Real
  behind_video r = record (bios.video r) { calls = call_of 0x10 r ∷ r.calls }

  abbrev pub int_0x10 : Routine
  int_0x10 r = returned (behind_video r)

  -- From `.print_start` on; `fuel` bounds the rounds.
  unfoldable pub print_start : ℕ → Routine
  print_start zero r = unfinished
  print_start (suc fuel) r =
      let char = u8 (r.mem r.bx) in
      let read = record r { ax = with_low char r.ax } in
      elim (char == 0) [
        | true ↦ returned read
        | false ↦ proceed (int_0x10 read) (λ s. print_start fuel (record s { bx = u16 (s.bx + 1) }))
      ]

  unfoldable pub print : ℕ → Routine
  print fuel = saving (do mov_ah 0x0e; print_start fuel)

  unfoldable pub print_lf : Routine
  print_lf = saving (do mov_ah 0x0e; mov_al 0x0d; int_0x10; mov_al 0x0a; int_0x10)

  unfoldable pub println : ℕ → Routine
  println fuel = saving (do print fuel; print_lf)

  unfoldable pub clrscr : Routine
  clrscr = saving (do
    mov_ah 0x06
    mov_al 0x00
    λ r. returned (record r { bx = with_high 0x07 r.bx })
    mov_cx 0x00
    mov_dh 24
    mov_dl 79
    int_0x10
    mov_ah 0x02
    mov_al 0x00
    λ r. returned (record r { bx = 0 })
    mov_dh 0x00
    mov_dl 0x00
    int_0x10)

  -- From `.print_hex_loop_start` on.
  unfoldable pub hex_loop : ℕ → ℕ → Routine
  hex_loop text_fuel zero r = unfinished
  hex_loop text_fuel (suc fuel) r =
      let bx : ℕ = r.dx / 2 ^ 12 in
      elim (is_unknown_digit bx) [
        | true ↦ println text_fuel (record r { bx = labels.err_unknown })
        | false ↦
            let bx' : ℕ = with_low (digit_char (u8 bx)) bx in
            let shown = record r { bx = bx'; ax = with_low bx' r.ax } in
            proceed (int_0x10 shown) λ s.
              let shifted = record s { dx = u16 (s.dx * 2 ^ 4) } in
              elim (shifted.cx == 0) [
                | true ↦ returned shifted
                | false ↦ hex_loop text_fuel fuel (record shifted { cx = shifted.cx - 1 })
              ]
      ]

  -- `text_fuel` bounds the characters of each text.
  unfoldable pub print_hex : ℕ → ℕ → Routine
  print_hex text_fuel fuel = saving (do
    mov_cx 0x03
    mov_ah 0x0e
    mov_al b'0'
    int_0x10
    mov_al b'x'
    int_0x10
    hex_loop text_fuel fuel)

  unfoldable pub println_hex : ℕ → ℕ → Routine
  println_hex text_fuel fuel = do print_hex text_fuel fuel; print_lf
