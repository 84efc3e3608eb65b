-- ===== src/Tests/Interrupts.antt =====
-- src/kernel/interrupts.asm and src/kernel/isr.c at fixed inputs.
use drewos.Base.{◌%◌, ◌+◌, ◌≡◌, refl, arith, none, some, [], ◌∷◌}
use drewos.Machine.{Device, Platform, Machine, log_event, enable_interrupts, load_idt}
use drewos.Idt.{idt_init, set_exceptions, write_at, descriptor, idt_install_irq_handler}
use drewos.Idt.{idt_set_descriptor, generic_handler}
use drewos.Idt.Handlers.{Reach, here, next, install}
use drewos.Idt.Outcome.{Handled, generic_handler-Handled}
use drewos.Isr.{Cpu, Scratch, generic_isr_stub, enter, run, deliver, pop_all, push_all}
use drewos.Isr.Stub.{Served, generic_isr_stub-Served}
use drewos.Isr.Delivery.{IsLinked, Trapped, deliver-lost, deliver-Trapped}
use drewos.Tests.Data.{fresh, platform_with}

-- Every port answers with 0x55.
abbrev steady : Device
steady t p = 0x55

abbrev platform : Platform
platform = record (platform_with steady) { isr_stub_table = λ v. 0x3000 + v % 32 }

linked : IsLinked platform
linked = record {
  stub_fits = omega arith;
  handler_fits = omega arith;
  table_fits = λ v. omega arith;
  handler_apart = λ h. absurd (omega arith);
  stub_apart = λ v h. absurd (omega arith);
  table_apart = λ v h. absurd (omega arith);
}

-- The processor in the kernel at 0x1234, with three double words on the stack and interrupts
-- enabled.
abbrev pub cpu : Cpu
cpu = record {
  eax = 0xaabbccdd;
  ecx = 2;
  edx = 3;
  ebx = 4;
  ebp = 0x90000;
  esi = 5;
  edi = 6;
  eip = 0x1234;
  cs = 8;
  eflags = 0x202;
  stack_base = 0x90000;
  stack = 7 ∷ 8 ∷ 9 ∷ [];
}

abbrev pub scratch : Machine → Scratch
scratch m = record { eax = 10; ecx = 11; edx = 12; eflags = 0x46; argument = 13 }

-- All registers come back from the stack.
popped : pop_all (record cpu { ebx = 0; esi = 0 }) (push_all cpu).stack ≡ some cpu
popped = refl

-- Code that is interrupted at address 16, which is a vector.
abbrev low_cpu : Cpu
low_cpu = record cpu { eip = 16 }

generic_handler-Handled_example : Handled platform 0x30 fresh (generic_handler platform 0x30 fresh)
generic_handler-Handled_example = generic_handler-Handled platform 0x30 fresh

generic_isr_stub-Served_example :
    Served platform scratch low_cpu fresh
      (run platform scratch generic_isr_stub (enter (descriptor 0x23456 0x8e) none low_cpu) fresh)
generic_isr_stub-Served_example =
    generic_isr_stub-Served platform scratch (descriptor 0x23456 0x8e) low_cpu fresh

abbrev with_gates : Machine
with_gates = log_event enable_interrupts (
    log_event (load_idt 2047 0x8000) (record fresh {
      interrupts =
          set_exceptions platform 32 0
            (record fresh.interrupts { idtr_base = 0x8000; idtr_limit = 2047 });
    }))

gates_set : idt_init platform fresh ≡ some (tt, with_gates)
unfolding idt_init
gates_set = refl

abbrev with_handler : Machine
with_handler = record with_gates {
  interrupts = record with_gates.interrupts {
    handlers = write_at 0x21 0x5000 with_gates.interrupts.handlers;
    idt = write_at 0x21 (descriptor 0x23456 0x8e) with_gates.interrupts.idt;
  };
}

handler_installed : Reach platform with_gates with_handler
unfolding idt_install_irq_handler idt_set_descriptor
handler_installed = next here (install 0x21 0x5000 refl)

deliver-lost_example : deliver platform scratch 0x21 none cpu with_handler ≡ none
deliver-lost_example =
    deliver-lost platform scratch linked fresh 0x21 cpu (λ v. refl) gates_set handler_installed
      (omega arith) (omega arith)

-- A page fault, with its error code.
deliver-Trapped_example :
    Trapped platform scratch linked 14
      (some 2)
      cpu
      with_gates
      (deliver platform scratch 14 (some 2) cpu with_gates)
deliver-Trapped_example =
    deliver-Trapped platform scratch linked fresh 14 (some 2) cpu (λ v. refl) gates_set
      (omega arith) refl (omega arith)
