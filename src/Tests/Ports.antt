-- ===== src/Tests/Ports.antt =====
-- src/kernel/pic.c and src/kernel/idt.c at fixed inputs.
use drewos.Base.{refl, ◌<◌, ◌≤◌, ◌≡◌, ◌⊎◌, arith, some, [], ◌∷◌}
use drewos.Machine.{Device, Platform, Returns, enable_interrupts, load_idt}
use drewos.Pic.{pic_remap, pic_init, pic_get_vector, irq_set_mask, irq_clear_mask}
use drewos.Base.{true, false}
use drewos.Pic.Chip.{Chip, ready, initialised, after_trace, pic_remap_lem}
use drewos.Pic.Mask.{Masks, irq_masks_lem}
use drewos.Idt.{idt_init, idt_install_irq_handler}
use drewos.Idt.Gates.{IsGate, idt_init_lem}
use drewos.Tests.Data.{machine, fresh, platform_with}
use drewos.Idt.{write_at, descriptor, set_exceptions, idt_set_descriptor}
use drewos.Idt.Handlers.{Reach, here, next, install, IsRouted, idt_init-IsRouted}
use drewos.Machine.{Machine, log_event}

-- Every port answers with 0xb8.
abbrev constant : Device
constant t p = 0xb8

abbrev reset_chip : Chip
reset_chip = record {
  stage = ready;
  is_single = true;
  has_icw4 = false;
  vector_base = 0;
  wiring = 0;
  mode = 0;
  mask = 0;
}

abbrev platform : Platform
platform = platform_with constant

pic_remap_lem_example : Returns (pic_remap constant 0x20 0x28 machine) λ _ m'.
    (after_trace 0x20 reset_chip m'.trace ≡ initialised 0x20 4 0xb8)
    × (after_trace 0xa0 reset_chip m'.trace ≡ initialised 0x28 2 0xb8)
    × (m'.pic ≡ record { offset0 = 0x20; offset1 = 0x28 })
    × (m'.screen ≡ machine.screen)
    × (m'.interrupts ≡ machine.interrupts)
    × (m'.ps2 ≡ machine.ps2)
    × (m'.keyboard ≡ machine.keyboard)
    × (m'.acpi ≡ machine.acpi)
pic_remap_lem_example = pic_remap_lem constant 0x20 0x28 machine reset_chip reset_chip

irq_masks_lem_example :
    Masks constant 1 9 1 machine (irq_set_mask constant 9)
    × Masks constant 0 9 1 machine (irq_clear_mask constant 9)
irq_masks_lem_example = irq_masks_lem constant 9 1 machine (omega arith) (omega arith)

vector_of_line_9 : Returns (pic_init constant machine) λ _ m'. pic_get_vector 9 m' ≡ some (0x29, m')
unfolding pic_init pic_remap pic_get_vector
vector_of_line_9 = refl

idt_init_lem_example : Returns (idt_init platform machine) λ _ m'.
    ((14 < 32) × IsGate (m'.interrupts.idt 14) 0x300e
      ⊎ (32 ≤ 14) × (m'.interrupts.idt 14 ≡ machine.interrupts.idt 14))
    × (m'.interrupts.handlers ≡ machine.interrupts.handlers)
    × (m'.trace ≡ enable_interrupts ∷ load_idt 2047 0x8000 ∷ [])
idt_init_lem_example = idt_init_lem platform machine 14 (omega arith)

abbrev with_gates : Machine
with_gates = log_event enable_interrupts (
    log_event (load_idt 2047 0x8000) (record fresh {
      interrupts =
          set_exceptions platform 32 0
            (record fresh.interrupts { idtr_base = 0x8000; idtr_limit = 2047 });
    }))

gates_set : idt_init platform fresh ≡ some (tt, with_gates)
unfolding idt_init
gates_set = refl

abbrev with_handler : Machine
with_handler = record with_gates {
  interrupts = record with_gates.interrupts {
    handlers = write_at 0x21 0x5000 with_gates.interrupts.handlers;
    idt = write_at 0x21 (descriptor 0x23456 0x8e) with_gates.interrupts.idt;
  };
}

handler_installed : Reach platform with_gates with_handler
unfolding idt_install_irq_handler idt_set_descriptor
handler_installed = next here (install 0x21 0x5000 refl)

idt_init-IsRouted_example : IsRouted platform with_handler.interrupts
idt_init-IsRouted_example =
    idt_init-IsRouted platform (omega arith) fresh (λ v. refl) gates_set handler_installed
