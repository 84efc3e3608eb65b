-- ===== src/Boot/Protected.antt =====
-- src/boot/protected_mode.asm, util_pm.asm and kernel_entry.asm, and the rest of bootloader.asm:
-- from the switch to protected mode to the kernel. The memory is without the stack.
use Prim.Native.Nat.{max, bitwise, bit_or-bitwise}
use mathlib.Core.Path.{subst}
use drewos.Base.{
  ℕ, zero, suc, ◌+◌, ◌-◌, ◌*◌, ◌%◌, ◌<◌, ◌≤◌, ◌≡◌, ◌∙◌, ◌^◌, refl, sym, arith, ◌⊎◌, inl, inr,
}
use drewos.Base.{
  Bool, true, false, Option, none, some, List, [], ◌∷◌, length, get_elem?, ◌==◌, ==_iff, u8, u32,
  bit_or,
}
use drewos.Memory.{Memory, store}
use drewos.Boot.{Bios, Labels, Real, hung, returned, unfinished}
use drewos.Boot.Text.{HasText, HasText-kept}
use drewos.Boot.Gdt.{code_seg, data_seg, gdt_limit}
use drewos.Boot.Load.{start}

-- The processor in protected mode.
pub record Protected : Type 0 where
  pub eip : ℕ
  pub esp : ℕ
  pub cs : ℕ
  pub ds : ℕ
  pub ss : ℕ
  pub es : ℕ
  pub fs : ℕ
  pub gs : ℕ
  pub cr0 : ℕ
  pub interrupts : Bool
  pub gdtr_limit : ℕ
  pub gdtr_base : ℕ
  pub mem : Memory

-- `GREEN_ON_BLACK`.
abbrev pub green_on_black : ℕ
green_on_black = 0x03

-- From `print_pm_loop` on: a text at `ebx`, and the place on the screen at `edx`.
unfoldable pub print_pm_loop : ℕ → ℕ → ℕ → Memory → Option Memory
print_pm_loop zero ebx edx mem = none
print_pm_loop (suc fuel) ebx edx mem =
    let al = u8 (mem ebx) in
    elim (al == 0) [
      | true ↦ some mem
      | false ↦
          print_pm_loop fuel (u32 (ebx + 1)) (u32 (edx + 2))
            (store (edx + 1) green_on_black (store edx al mem))
    ]

abbrev pub print_pm : ℕ → ℕ → Memory → Option Memory
print_pm fuel ebx mem = print_pm_loop fuel ebx (0xb8000 + 640) mem

-- `switch_to_pm` and `init_pm`, to the call of `BEGIN_PM`; `cr0` is the old value.
abbrev pub switch_to_pm : Labels → ℕ → Memory → Protected
switch_to_pm labels cr0 mem = record {
  eip = labels.begin_pm;
  esp = 0x90000 - 4;
  cs = code_seg;
  ds = data_seg;
  ss = data_seg;
  es = data_seg;
  fs = data_seg;
  gs = data_seg;
  cr0 = bit_or cr0 0x1;
  interrupts = false;
  gdtr_limit = gdt_limit;
  gdtr_base = labels.gdt_start;
  mem = mem;
}

-- A call, without what it stores.
abbrev pub call : ℕ → Protected → Protected
call address p = record p { esp = u32 (p.esp + 2 ^ 32 - 4); eip = address }

-- `BEGIN_PM`, to the call of the kernel.
unfoldable pub begin_pm : Labels → ℕ → Protected → Option Protected
begin_pm labels fuel p = elim (print_pm fuel labels.msg_prot_mode p.mem) [
  | none ↦ none
  | some mem ↦ some (call 0x1000 (record p { mem = mem }))
]

-- The boot sector and the entry of the kernel, to the first instruction of `main`; `none` is a boot
-- that hangs in `jmp $`, or needs more rounds.
unfoldable pub boot : Bios → Labels → ℕ → ℕ → ℕ → ℕ → Real → Option Protected
boot bios labels main_address cr0 text_fuel fuel r = elim (start bios labels text_fuel fuel r) [
  | returned s ↦ elim (begin_pm labels text_fuel (switch_to_pm labels cr0 s.mem)) [
    | none ↦ none
    | some p ↦ some (call main_address p)
  ]
  | hung s ↦ none
  | unfinished ↦ none
]

max_one : (x : ℕ) → x < 2 → max x 1 ≡ 1
max_one zero h = refl
max_one (suc zero) h = refl
max_one (suc (suc x)) h = absurd (omega arith)

lowest : (x y : ℕ) → y ≡ 1 → (x * 2 + y) % 2 ≡ 1
lowest x y e = omega arith

-- The protection enable bit.
pub bit_or-sets : (a : ℕ) → bit_or a 0x1 % 2 ≡ 1
bit_or-sets a = rw (bit_or-bitwise a 1) (sets a)
  where
    sets : (b : ℕ) → bitwise (λ n. n) max b 1 % 2 ≡ 1
    sets zero = refl
    sets (suc b) = lowest _ _ (max_one (suc b % 2) (omega arith))

-- A text on the screen from an address on, and all other memory as before.
pub record Shown (text : List ℕ) (edx : ℕ) (old new : Memory) : Type 0 where
  pub cells :
      (i c : ℕ)
      → get_elem? text i ≡ some c
      → (new (edx + 2 * i) ≡ c) × (new (edx + 2 * i + 1) ≡ green_on_black)
  pub rest : (q : ℕ) → (q < edx) ⊎ (edx + 2 * length text ≤ q) → new q ≡ old q

none-some : {c : ℕ} → ◌≡◌ {A = Option ℕ} none (some c) → ⊥
none-some e = cc

some_inner : {b c : ℕ} → ◌≡◌ {A = Option ℕ} (some b) (some c) → b ≡ c
some_inner e = cc

cell_of : (new : Memory) {a b v : ℕ} → a ≡ b → new a ≡ v → new b ≡ v
cell_of new e h = rw (sym e) h

two_stores :
    (edx c : ℕ) (old : Memory) (q : ℕ)
    → (q < edx) ⊎ (edx + 2 ≤ q)
    → store (edx + 1) green_on_black (store edx c old) q ≡ old q
two_stores edx c old q h = ground arith

-- The first cell, and the others behind it.
Shown-cons :
    {c : ℕ} {text : List ℕ} {edx : ℕ} {old new : Memory}
    → Shown text (edx + 2) (store (edx + 1) green_on_black (store edx c old)) new
    → Shown (c ∷ text) edx old new
Shown-cons {c} {text} {edx} {old} {new} s = record { cells = cells; rest = rest }
  where
    cells :
        (i d : ℕ)
        → get_elem? (c ∷ text) i ≡ some d
        → (new (edx + 2 * i) ≡ d) × (new (edx + 2 * i + 1) ≡ green_on_black)
    cells zero d e = (
      cell_of new (omega arith) (s.rest edx (inl (omega arith)) ∙ ground arith ∙ some_inner e),
      cell_of new (omega arith) (s.rest (edx + 1) (inl (omega arith)) ∙ ground arith),
    )
    cells (suc i) d e =
        let (char, colour) = s.cells i d e in
        (cell_of new (omega arith) char, cell_of new (omega arith) colour)

    rest : (q : ℕ) → (q < edx) ⊎ (edx + 2 * length (c ∷ text) ≤ q) → new q ≡ old q
    rest q h =
        s.rest q (elim h [ inl before ↦ inl (omega arith) | inr behind ↦ inr (omega arith) ])
        ∙ two_stores edx c old q
            (elim h [ inl before ↦ inl before | inr behind ↦ inr (omega arith) ])

pub print_pm_loop-Shown :
    (text : List ℕ) (fuel ebx edx : ℕ) (mem : Memory)
    → length text < fuel
    → HasText mem ebx text
    → ebx + length text < 2 ^ 16
    → 2 ^ 16 ≤ edx
    → edx + 2 * length text < 2 ^ 32
    → (new : Memory) × (print_pm_loop fuel ebx edx mem ≡ some new) × Shown text edx mem new
unfolding print_pm_loop
print_pm_loop-Shown text zero ebx edx mem enough has low screen high = absurd (omega arith)
print_pm_loop-Shown [] (suc fuel) ebx edx mem enough has low screen high =
    let nul : (u8 (mem ebx) == 0) ≡ true = (==_iff _ _).1 has in
    (
      mem,
      rw (print_pm_loop, nul) refl,
      record { cells = λ i c e. absurd (none-some e); rest = λ q h. refl },
    )
print_pm_loop-Shown (c ∷ text) (suc fuel) ebx edx mem enough (e, nz, rest) low screen high =
    let char : (u8 (mem ebx) == 0) ≡ false = ground arith in
    let next : Memory = store (edx + 1) green_on_black (store edx (u8 (mem ebx)) mem) in
    let there : HasText next (ebx + 1) text =
      HasText-kept (ebx + 1) text
        (λ q from below. two_stores edx (u8 (mem ebx)) mem q (inl (omega arith))) (omega arith)
        rest in
    let (new, e', s) =
      print_pm_loop-Shown text fuel (ebx + 1) (edx + 2) next (omega arith) there (omega arith)
        (omega arith) (omega arith) in
    let place : u32 (ebx + 1) ≡ ebx + 1 = omega arith in
    let cell : u32 (edx + 2) ≡ edx + 2 = omega arith in
    (
      new,
      rw (print_pm_loop, char, place, cell) e',
      Shown-cons (
          subst
            (λ (d : ℕ). Shown text (edx + 2) (store (edx + 1) green_on_black (store edx d mem)) new)
            e s),
    )
