-- ===== src/Machine.antt =====
-- The machine: the memory with the screen, the static variables of the drivers, and every access to
-- the ports, src/kernel/low_level.c. The hardware is a parameter: a function from the accesses so
-- far to the value that a port answers with next.
pub mod Quiet
pub mod Ends
pub mod Comes
use drewos.Base.{◌≡◌, inl, inr, Option-cases, ℕ, Bool, Option, none, some, List, ◌∷◌, u8, u16}
use drewos.Acpi.{Roots}
use drewos.Screen.{Screen}

pub data Event : Type 0 where
  read8 write8 read16 write16 : ℕ → ℕ → Event
  load_idt : ℕ → ℕ → Event
  enable_interrupts : Event

-- The latest access first.
abbrev pub Trace : Type 0
Trace = List Event

-- What the hardware answers, behind a trace, to a read of a port. It is any function at all.
abbrev pub Device : Type 0
Device = Trace → ℕ → ℕ

-- `_offset0` and `_offset1` of src/kernel/pic.c.
pub record PicState : Type 0 where
  pub offset0 : ℕ
  pub offset1 : ℕ

-- `idt_entry_t` and `idtr_t` of src/kernel/idt.h.
pub record IdtEntry : Type 0 where
  pub isr_low : ℕ
  pub kernel_cs : ℕ
  pub reserved : ℕ
  pub attributes : ℕ
  pub isr_high : ℕ

-- `idt`, `idtr` and `handlers` of src/kernel/idt.c; an array is a function of its index, and a null
-- pointer is 0.
pub record IdtState : Type 0 where
  pub idt : ℕ → IdtEntry
  pub idtr_limit : ℕ
  pub idtr_base : ℕ
  pub handlers : ℕ → ℕ

-- The flags and device identities of src/driver/ps2.c.
pub record Ps2State : Type 0 where
  pub port_0_operational : Bool
  pub port_1_operational : Bool
  pub dual_channel : Bool
  pub port0_id : ℕ
  pub port1_id : ℕ

-- `_vector` and `_port` of src/driver/ps2_keyboard.c.
pub record KeyboardState : Type 0 where
  pub vector : ℕ
  pub port : ℕ

-- `rsdp` and `xsdp` of src/acpi/rsdp.c, the roots of src/acpi/rsdt.c, `fadt` and `madt`: addresses, of
-- which the null pointer is 0.
pub record AcpiState : Type 0 where
  pub rsdp : ℕ
  pub xsdp : ℕ
  pub roots : Roots
  pub fadt : ℕ
  pub madt : ℕ

pub record Machine : Type 0 where
  pub screen : Screen
  pub trace : Trace
  pub pic : PicState
  pub interrupts : IdtState
  pub ps2 : Ps2State
  pub keyboard : KeyboardState
  pub acpi : AcpiState

-- A computation on the machine. `none` is one that does not come to its end: a loop that runs out
-- of the rounds given, or undefined behaviour.
abbrev pub K : Type 0 → Type 0
K A = Machine → Option (A × Machine)

abbrev pub pure : {A : Type 0} → A → K A
pure a m = some (a, m)

infixl 5 ◌>>=◌ ◌>>◌
abbrev pub ◌>>=◌ : {A B : Type 0} → K A → (A → K B) → K B
◌>>=◌ c f m = elim (c m) [ none ↦ none | some (a, m') ↦ f a m' ]

abbrev pub ◌>>◌ : {B : Type 0} → K (Unit {0}) → K B → K B
c >> k = c >>= λ _. k

-- A value out of the machine.
abbrev pub gets : {A : Type 0} → (Machine → A) → K A
gets f m = some (f m, m)

-- The computation returns, and its value and the machine behind it are as stated.
abbrev pub Returns : {A : Type 0} → Option (A × Machine) → (A → Machine → Type 0) → Type 0
Returns none P = ⊥
Returns (some (a, m)) P = P a m

-- What does not return stays so; printing changes the screen alone.
abbrev pub on_screen : (Screen → Option Screen) → K (Unit {0})
on_screen f m = elim (f m.screen) [ none ↦ none | some s ↦ some (tt, record m { screen = s }) ]

pub on_screen-none :
    {A : Type 0} (f : Screen → Option Screen) (k : K A) (m : Machine)
    → ((s : Screen) → k (record m { screen = s }) ≡ none)
    → (on_screen f >>= λ _. k) m ≡ none
on_screen-none f k m h = elim (Option-cases (f m.screen)) [
  | inl e ↦ rw (e, ◌>>=◌)
  | inr (s, e) ↦ rw (e, ◌>>=◌) (h s)
]

abbrev pub log_event : Event → Machine → Machine
log_event e m = record m { trace = e ∷ m.trace }

-- `unsigned short` ports, `unsigned char` and `unsigned short` values.
module _ (dev : Device) where
  abbrev pub read_byte : ℕ → K ℕ
  read_byte port m =
      let v : ℕ = u8 (dev m.trace (u16 port)) in some (v, log_event (read8 (u16 port) v) m)

  abbrev pub read_word : ℕ → K ℕ
  read_word port m =
      let v : ℕ = u16 (dev m.trace (u16 port)) in some (v, log_event (read16 (u16 port) v) m)

abbrev pub write_byte : ℕ → ℕ → K (Unit {0})
write_byte port v m = some (tt, log_event (write8 (u16 port) (u8 v)) m)

abbrev pub write_word : ℕ → ℕ → K (Unit {0})
write_word port v m = some (tt, log_event (write16 (u16 port) (u16 v)) m)

abbrev pub io_wait : K (Unit {0})
io_wait = write_byte 0x80 0

-- What is not C code of the kernel: the hardware behind the ports, the addresses at which the
-- functions, the stub table of src/kernel/interrupts.asm and the array `idt` are linked, a call
-- through a function pointer, and the processor's answer to an `int` instruction.
pub record Platform : Type 0 where
  pub dev : Device
  pub idt_address : ℕ
  pub generic_handler_address : ℕ
  pub generic_isr_stub_address : ℕ
  pub keyboard_handler_address : ℕ
  pub isr_stub_table : ℕ → ℕ
  pub call_pointer : ℕ → K (Unit {0})
  pub software_interrupt : ℕ → K (Unit {0})
