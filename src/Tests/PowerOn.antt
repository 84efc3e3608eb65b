-- ===== src/Tests/PowerOn.antt =====
-- The whole program at fixed inputs.
use drewos.Base.{List, [], codes, ℕ, ◌≡◌, refl, true, Option, none, some}
use drewos.Machine.{Device, Machine}
use drewos.Machine.Comes.{Comes}
use drewos.Boot.{print, print_start, print_lf, println, clrscr, hex_loop, print_hex, println_hex}
use drewos.Boot.{End, returned, hung, unfinished}
use drewos.Boot.Text.{written}
use drewos.Boot.Load.{disk_load, load_kernel, start}
use drewos.Boot.Protected.{Protected, boot, begin_pm, print_pm_loop}
use drewos.Tests.Data.{fresh}
use drewos.Tests.Loader.{labels, bios, at_boot, memory}

-- Every port answers with 0x55.
abbrev steady : Device
steady t p = 0x55

abbrev result_or : Protected → Option Protected → Protected
result_or p none = p
result_or p (some q) = q

abbrev unbooted : Protected
unbooted = record {
  eip = 0;
  esp = 0;
  cs = 0;
  ds = 0;
  ss = 0;
  es = 0;
  fs = 0;
  gs = 0;
  cr0 = 0;
  interrupts = true;
  gdtr_limit = 0;
  gdtr_base = 0;
  mem = memory;
}

abbrev handed : Protected
unfolding boot begin_pm print_pm_loop start load_kernel disk_load clrscr println print print_start
    print_lf println_hex print_hex hex_loop
handed = result_or unbooted (boot bios labels 0x1005 0x10 20 4 at_boot)

abbrev kernel_start : Machine
kernel_start = record fresh { screen = record { mem = handed.mem; x = 0; y = 0 } }

-- What is typed in real mode, by the computation of the whole boot sector.
abbrev written_by : End → List ℕ
written_by (returned r) = written r.calls
written_by (hung r) = []
written_by unfinished = []

typed :
    written_by (start bios labels 20 4 at_boot) ≡ codes "Started\r\nLoading kernel\r\n0x8b8a\r\n"
unfolding start load_kernel disk_load clrscr println print print_start print_lf println_hex
    print_hex hex_loop
typed = refl
