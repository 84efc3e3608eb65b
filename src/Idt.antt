-- ===== src/Idt.antt =====
-- src/kernel/idt.c, the interrupt descriptor table.
pub mod Gates
pub mod Handlers
pub mod Outcome
use drewos.Base.{ℕ, zero, suc, ◌+◌, ◌-◌, ◌*◌, ◌/◌, ◌%◌, ◌^◌, Bool, not, ◌&&◌, ◌==◌, if◌then◌else◌}
use drewos.Base.{u8, u16, u32, leb, none, some, codes, [], ◌∷◌}
use drewos.Machine.{IdtEntry, IdtState, Machine, Platform, K, pure, ◌>>=◌, ◌>>◌, on_screen}
use drewos.Machine.{log_event, load_idt, enable_interrupts}
use drewos.Pic.{pic_get_isr, pic_get_irr}
use drewos.Print.{int, println}

abbrev pub max_descriptors : ℕ
max_descriptors = 256

-- `IDT_DESCRIPTOR_EXTERNAL`: a 32-bit interrupt gate that is present.
abbrev pub external_gate : ℕ
external_gate = 0x8e

-- A write to `a[i]`.
abbrev pub write_at {ℓ} : {A : Type ℓ} → ℕ → A → (ℕ → A) → ℕ → A
write_at i v a j = if i == j then v else a j

-- The descriptor that `idt_set_descriptor` stores.
abbrev pub descriptor : ℕ → ℕ → IdtEntry
descriptor isr flags = record {
  isr_low = u32 isr % 2 ^ 16;
  kernel_cs = 0x08;
  reserved = 0;
  attributes = u8 flags;
  isr_high = u16 (u32 isr / 2 ^ 16);
}

abbrev pub on_table : (IdtState → IdtState) → K (Unit {0})
on_table f m = some (tt, record m { interrupts = f m.interrupts })

abbrev pub set_descriptor : ℕ → ℕ → ℕ → IdtState → IdtState
set_descriptor vector isr flags t = record t {
  idt = write_at (u8 vector) (descriptor isr flags) t.idt;
}

unfoldable pub idt_set_descriptor : ℕ → ℕ → ℕ → K (Unit {0})
idt_set_descriptor vector isr flags = on_table (set_descriptor vector isr flags)

-- The exceptions whose stub is in the table; `idt_init` gives the others the generic handler.
abbrev pub has_stub : ℕ → Bool
has_stub v = not (
    not (v == 8)
    && not (v == 10)
    && not (v == 11)
    && not (v == 12)
    && not (v == 13)
    && not (v == 14)
    && not (v == 17))

module _ (platform : Platform) where
  abbrev pub initial_isr : ℕ → ℕ
  initial_isr vector =
      if has_stub vector then platform.isr_stub_table vector else platform.generic_handler_address

  -- The loop of `idt_init` from `vector` on, with `n` rounds left.
  unfoldable pub set_exceptions : ℕ → ℕ → IdtState → IdtState
  set_exceptions zero vector t = t
  set_exceptions (suc n) vector t =
      set_exceptions n (vector + 1) (set_descriptor vector (initial_isr vector) 0x8e t)

  -- `sizeof(idt_entry_t)` is 8.
  unfoldable pub idt_init : K (Unit {0})
  idt_init m =
      let limit : ℕ = u16 (8 * max_descriptors - 1) in
      let base : ℕ = u32 platform.idt_address in
      let t : IdtState = record m.interrupts { idtr_base = base; idtr_limit = limit } in
      let loaded : Machine = record m { interrupts = set_exceptions 32 0 t } in
      some (tt, log_event enable_interrupts (log_event (load_idt limit base) loaded))

  unfoldable pub idt_install_irq_handler : ℕ → ℕ → K (Unit {0})
  idt_install_irq_handler vector handler = do
    on_table (λ t. record t { handlers = write_at (u8 vector) handler t.handlers })
    idt_set_descriptor vector platform.generic_isr_stub_address external_gate

  -- The call of an attached handler. The format wants an argument, and none is given.
  unfoldable pub call_attached : ℕ → K (Unit {0})
  call_attached handler = do
    on_screen
        (println (some (codes "A handler has been attached to vector %x and will be invoked.")) [])
    platform.call_pointer handler

  -- An index behind the end of `handlers` is undefined.
  unfoldable pub call_handler : ℕ → K (Unit {0})
  call_handler vector m =
      let handler = m.interrupts.handlers vector in
      if leb max_descriptors vector
      then none
      else if handler == 0
      then some (tt, m)
      else call_attached handler m

  -- The message about the interrupt, and the call of its handler.
  unfoldable pub report_and_call : ℕ → ℕ → ℕ → K (Unit {0})
  report_and_call vector isr irr = do
    on_screen (
        println (some (codes "INTERRUPT %d (%x), isr = %x, irr = %x"))
          (int vector ∷ int vector ∷ int isr ∷ int irr ∷ []))
    call_handler vector

  unfoldable pub generic_handler : ℕ → K (Unit {0})
  generic_handler vector = do
    isr ← pic_get_isr platform.dev
    irr ← pic_get_irr platform.dev
    report_and_call vector isr irr

unfoldable pub idt_uninstall_irq_handler : ℕ → K (Unit {0})
idt_uninstall_irq_handler vector =
    on_table (λ t. record t { handlers = write_at (u8 vector) 0 t.handlers })
