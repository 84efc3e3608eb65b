-- ===== src/Tests/Data.antt =====
-- A machine for the tests.
use drewos.Base.{◌+◌, false, [], ◌==◌, if◌then◌else◌}
use drewos.Machine.{Device, Machine, Platform, pure}

-- The keyboard's vector has a handler.
abbrev pub machine : Machine
machine = record {
  screen = record { mem = λ p. 0; x = 0; y = 0 };
  trace = [];
  pic = record { offset0 = 0; offset1 = 0 };
  interrupts = record {
    idt = λ v. record { isr_low = 0; kernel_cs = 0; reserved = 0; attributes = 0; isr_high = 0 };
    idtr_limit = 0;
    idtr_base = 0;
    handlers = λ v. if v == 0x21 then 0x5000 else 0;
  };
  ps2 = record {
    port_0_operational = false;
    port_1_operational = false;
    dual_channel = false;
    port0_id = 0;
    port1_id = 0;
  };
  keyboard = record { vector = 0; port = 0 };
  acpi = record { rsdp = 0; xsdp = 0; roots = record { rsdt = 0; xsdt = 0 }; fadt = 0; madt = 0 };
}

-- The machine at the start of the kernel: no driver is installed, and the EBDA is at 0x90000.
abbrev pub fresh : Machine
fresh = record machine {
  screen = record { mem = λ p. if p == 0x40f then 0x90 else 0; x = 0; y = 0 };
  interrupts = record {
    idt = λ v. record { isr_low = 0; kernel_cs = 0; reserved = 0; attributes = 0; isr_high = 0 };
    idtr_limit = 0;
    idtr_base = 0;
    handlers = λ v. 0;
  };
}

-- A platform whose interrupts do nothing.
abbrev pub platform_with : Device → Platform
platform_with device = record {
  dev = device;
  idt_address = 0x8000;
  generic_handler_address = 0x12345;
  generic_isr_stub_address = 0x23456;
  keyboard_handler_address = 0x5000;
  isr_stub_table = λ v. 0x3000 + v;
  call_pointer = λ address. pure tt;
  software_interrupt = λ vector. pure tt;
}
