-- ===== src/Kernel/PowerOn.antt =====
-- The whole program: the boot loader, and `main` on the memory that it leaves.
use drewos.Machine.{Machine}
use drewos.Machine.Comes.{Comes}
use drewos.Boot.Protected.{Protected}
