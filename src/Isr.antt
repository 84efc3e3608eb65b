-- ===== src/Isr.antt =====
-- src/kernel/interrupts.asm and src/kernel/isr.c: the stubs between the processor and the handlers
-- in C. A processor is its registers and the double words of the kernel's stack, the top first; the
-- instructions do what the manual of the processor says.
pub mod Stub
pub mod Exceptions
pub mod Delivery
use drewos.Base.{
  ℕ, ◌+◌, ◌-◌, ◌*◌, ◌/◌, ◌%◌, ◌^◌, ◌==◌, ◌||◌, ◌&&◌, leb, Bool, if◌then◌else◌, u8, u16, u32,
}
use drewos.Base.{Option, none, some, List, [], ◌∷◌, get_elem?, length, drop, codes}
use drewos.Machine.{IdtEntry, Platform, Machine, K, pure, ◌>>=◌, ◌>>◌, on_screen, write_byte}
use drewos.Print.{println}
use drewos.Idt.{generic_handler}
use drewos.Idt.Gates.{target}

-- `exception_handler` of isr.c.
unfoldable pub exception_handler : K (Unit {0})
exception_handler = on_screen (println (some (codes "INTERRUPT stub")) [])

-- `stack_base` is the address behind the bottom of the stack.
pub record Cpu : Type 0 where
  pub eax : ℕ
  pub ecx : ℕ
  pub edx : ℕ
  pub ebx : ℕ
  pub ebp : ℕ
  pub esi : ℕ
  pub edi : ℕ
  pub eip : ℕ
  pub cs : ℕ
  pub eflags : ℕ
  pub stack_base : ℕ
  pub stack : List ℕ

abbrev pub esp : Cpu → ℕ
esp c = u32 (c.stack_base + 2 ^ 32 - 4 * length c.stack)

-- What a function in C leaves behind: the registers that its caller has to save, the flags, and its
-- argument's place on the stack.
pub record Scratch : Type 0 where
  pub eax : ℕ
  pub ecx : ℕ
  pub edx : ℕ
  pub eflags : ℕ
  pub argument : ℕ

-- The functions in C that the stubs call.
pub data Routine : Type 0 where
  generic exception : Routine

-- The instructions of the stubs; `mov_eax_esp k` is `mov eax, [esp + k]`.
pub data Instruction : Type 0 where
  pusha popa push_eax iret : Instruction
  mov_eax_esp add_esp mov_al out_al : ℕ → Instruction
  call : Routine → Instruction

abbrev pub generic_isr_stub : List Instruction
generic_isr_stub =
    pusha
    ∷ mov_eax_esp 32
    ∷ push_eax
    ∷ call generic
    ∷ add_esp 4
    ∷ popa
    ∷ mov_al 0x20
    ∷ out_al 0x20
    ∷ iret
    ∷ []

-- `isr_err_stub` and `isr_no_err_stub` are the same.
abbrev pub isr_stub : List Instruction
isr_stub = call exception ∷ iret ∷ []

-- `mov al, n`.
abbrev pub set_al : ℕ → ℕ → ℕ
set_al n eax = eax - eax % 2 ^ 8 + u8 n

abbrev pub push : ℕ → Cpu → Cpu
push v c = record c { stack = v ∷ c.stack }

abbrev pub push_all : Cpu → Cpu
push_all c = record c {
  stack = c.edi ∷ c.esi ∷ c.ebp ∷ esp c ∷ c.ebx ∷ c.edx ∷ c.ecx ∷ c.eax ∷ c.stack;
}

-- `popa` takes the eight registers and passes over the stack pointer.
abbrev pub pop_all : Cpu → List ℕ → Option Cpu
pop_all c (edi ∷ esi ∷ ebp ∷ _ ∷ ebx ∷ edx ∷ ecx ∷ eax ∷ stack) = some (record c {
  eax = eax;
  ecx = ecx;
  edx = edx;
  ebx = ebx;
  ebp = ebp;
  esi = esi;
  edi = edi;
  stack = stack;
})
pop_all c _ = none

-- `iret` in one ring. The selector has to be the one of the code segment, the only one with code in
-- the table of src/boot/gdt.asm; for any other the processor raises an exception instead, and `none`
-- stands for that.
abbrev pub return_from : Cpu → List ℕ → Option Cpu
return_from c (eip ∷ cs ∷ eflags ∷ stack) =
    if u16 cs == 0x08
    then some (record c { eip = eip; cs = u16 cs; eflags = eflags; stack = stack })
    else none
return_from c _ = none

-- A value that there may be; without it the stack has been left.
abbrev pub lift : {A : Type 0} → Option A → K A
lift o m = elim o [ none ↦ none | some a ↦ some (a, m) ]

-- A call takes its argument from the top of the stack.
abbrev pub argument : Cpu → K ℕ
argument c = lift (get_elem? c.stack 0)

abbrev pub left_by : Scratch → Cpu → Cpu
left_by s c = record c { eax = s.eax; ecx = s.ecx; edx = s.edx; eflags = s.eflags }

-- `scratch` is what a function leaves, from the machine behind it.
module _ (platform : Platform) (scratch : Machine → Scratch) where
  unfoldable pub call_generic : Cpu → K Cpu
  call_generic c = do
    vector ← argument c
    generic_handler platform vector
    λ m. let s = scratch m in some (left_by s (record c { stack = s.argument ∷ drop 1 c.stack }), m)

  unfoldable pub call_exception : Cpu → K Cpu
  call_exception c = do exception_handler; λ m. some (left_by (scratch m) c, m)

  unfoldable pub step : Instruction → Cpu → K Cpu
  step pusha c = pure (push_all c)
  step popa c = lift (pop_all c c.stack)
  step push_eax c = pure (push c.eax c)
  step iret c = lift (return_from c c.stack)
  step (mov_eax_esp k) c = do v ← lift (get_elem? c.stack (k / 4)); pure (record c { eax = v })
  step (add_esp k) c = pure (record c { stack = drop (k / 4) c.stack })
  step (mov_al n) c = pure (record c { eax = set_al n c.eax })
  step (out_al port) c = do write_byte port (u8 c.eax); pure c
  step (call generic) c = call_generic c
  step (call exception) c = call_exception c

  unfoldable pub run : List Instruction → Cpu → K Cpu
  run [] c = pure c
  run (i ∷ code) c = do c' ← step i c; run code c'

-- The interrupt flag is bit 9.
abbrev pub clear_interrupt_flag : ℕ → ℕ
clear_interrupt_flag flags = if flags / 2 ^ 9 % 2 == 1 then flags - 2 ^ 9 else flags

abbrev pub push_error : Option ℕ → List ℕ → List ℕ
push_error none stack = stack
push_error (some code) stack = code ∷ stack

-- What the processor does for an interrupt through a gate; an exception may have an error code.
abbrev pub enter : IdtEntry → Option ℕ → Cpu → Cpu
enter gate error c = record c {
  eip = target gate;
  cs = gate.kernel_cs;
  eflags = clear_interrupt_flag c.eflags;
  stack = push_error error (c.eip ∷ c.cs ∷ c.eflags ∷ c.stack);
}

-- `ret`.
abbrev pub return_near : Cpu → List ℕ → Option Cpu
return_near c (eip ∷ stack) = some (record c { eip = eip; stack = stack })
return_near c _ = none

-- The code that a gate leads to, by the address at which it is linked. A function in C that is
-- entered through a gate takes the first double word on the stack for the address to return to.
module _ (platform : Platform) (scratch : Machine → Scratch) where
  unfoldable pub enter_function : Cpu → K Cpu
  enter_function c = do c' ← lift (return_near c c.stack); call_generic platform scratch c'

  unfoldable pub deliver : ℕ → Option ℕ → Cpu → K Cpu
  deliver vector error c m =
      let gate = m.interrupts.idt vector in
      let entered = enter gate error c in
      if target gate == platform.generic_isr_stub_address
      then run platform scratch generic_isr_stub entered m
      else if target gate == platform.generic_handler_address
      then enter_function entered m
      else if target gate == platform.isr_stub_table vector
      then run platform scratch isr_stub entered m
      else none
