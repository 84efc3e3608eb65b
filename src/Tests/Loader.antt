-- ===== src/Tests/Loader.antt =====
-- src/boot at fixed inputs.
use drewos.Base.{
  ℕ, ◌+◌, ◌-◌, ◌*◌, ◌%◌, ◌<◌, ◌≡◌, refl, arith, Bool, true, false, ◌==◌, ◌&&◌, not, leb, ltb,
  if◌then◌else◌,
}
use drewos.Base.{some, List, [], ◌∷◌, ◌++◌, codes, get_or, u8}
use drewos.Memory.{Memory}
use drewos.Boot.{Bios, Labels, Real, print_hex}
use drewos.Boot.Disk.{HasMessages, IsDisk, Loaded, disk_load-Loaded}
use drewos.Boot.Text.{HasText, IsVideo, Prints}
use drewos.Boot.Start.{IsBootSector}
use drewos.Boot.Handover.{IsHandedOver, boot-IsHandedOver}
use drewos.Boot.Image.{IsHealthy}
use drewos.Boot.Protected.{Protected, boot}
use drewos.Boot.Load.{disk_load}
use drewos.Boot.Hex.{print_hex-Prints}

-- The data of a boot sector from 0x7d00 on, and an EBDA at 0x90000.
abbrev pub labels : Labels
labels = record {
  boot_drive = 0x7d00;
  msg_real_mode = 0x7d01;
  msg_prot_mode = 0x7d09;
  msg_load_kernel = 0x7d13;
  disk_error_msg = 0x7d22;
  disk_error_msg_ctx = 0x7d32;
  err_unknown = 0x7d35;
  gdt_start = 0x7e00;
  begin_pm = 0x7c80;
}

abbrev bytes : List ℕ
bytes =
    0 ∷ codes "Started"
    ++ 0 ∷ codes "Protected"
    ++ 0 ∷ codes "Loading kernel"
    ++ 0 ∷ codes "Disk read error"
    ++ 0 ∷ codes ": "
    ++ 0 ∷ []

abbrev pub memory : Memory
memory p = if p == 0x40f then 0x90 else if ltb p 0x7d00 then 0 else get_or bytes (p - 0x7d00) 0

abbrev finds_text : Memory → ℕ → List ℕ → Bool
finds_text mem p [] = u8 (mem p) == 0
finds_text mem p (c ∷ text) = u8 (mem p) == c && not (c == 0) && finds_text mem (p + 1) text

finds_text-HasText :
    (mem : Memory) (p : ℕ) (text : List ℕ) → finds_text mem p text ≡ true → HasText mem p text
finds_text-HasText mem p [] e = ground arith
finds_text-HasText mem p (c ∷ text) e =
    (ground arith, ground arith, finds_text-HasText mem (p + 1) text (ground arith))

-- A processor that prints 0xbeef, and one at the start of the boot from drive 0x80.
abbrev real : Real
real = record { ax = 1; bx = 2; cx = 3; dx = 0xbeef; carry = false; mem = memory; calls = [] }

abbrev pub at_boot : Real
at_boot = record real { dx = 0x0080 }

abbrev pub images : ℕ → ℕ → ℕ
images drive i = (drive + i) % 251

-- The disks answer, and the screen takes each character.
abbrev pub bios : Bios
bios = record {
  video = λ r. r;
  disk = λ r. record r {
    carry = false;
    mem = λ p.
        if leb r.bx p && ltb p (r.bx + 512 * u8 r.ax)
        then images (u8 r.dx) (512 * (u8 r.cx - 1) + (p - r.bx))
        else r.mem p;
  };
}

pub video : IsVideo bios
video r h = record { ax = refl; bx = refl; cx = refl; dx = refl; mem = λ p lo hi. refl }

-- The disks do not answer.
abbrev timeout : Bios
timeout = record bios { disk = λ r. record r { ax = 0x8000; carry = true } }

print_hex-Prints_example : Prints (codes "0xbeef") real (print_hex bios labels 20 4 real)
print_hex-Prints_example = print_hex-Prints bios labels video 20 4 real (omega arith) (omega arith)

messages : HasMessages labels memory
messages = record {
  message = record {
    above = omega arith;
    below = omega arith;
    has = finds_text-HasText memory 0x7d22 (codes "Disk read error") refl;
  };
  context = record {
    above = omega arith;
    below = omega arith;
    has = finds_text-HasText memory 0x7d32 (codes ": ") refl;
  };
}

timeout-IsDisk : IsDisk timeout
timeout-IsDisk = record {
  bx = λ r. refl;
  cx = λ r. refl;
  dx = λ r. refl;
  mem = λ r p lo hi h. refl;
}

-- 32 sectors for 0x1000.
abbrev request : Real
request = record at_boot { bx = 0x1000; dx = 0x2080 }

disk_load-Loaded_example :
    Loaded timeout labels video request (disk_load timeout labels 20 4 request)
disk_load-Loaded_example =
    disk_load-Loaded timeout labels video 20 4 request timeout-IsDisk (omega arith) (omega arith)
      messages (omega arith) (omega arith)

pub bios-IsDisk : IsDisk bios
bios-IsDisk = record {
  bx = λ r. refl;
  cx = λ r. refl;
  dx = λ r. refl;
  mem = λ r p lo hi h. ground arith;
}

inside : (i a b : ℕ) → i < b → (leb a (a + i) && ltb (a + i) (a + b)) ≡ true
inside i a b h = ground arith

back : (i a : ℕ) → a + i - a ≡ i
back i a = omega arith

at_place :
    (i a b : ℕ) (m : Memory) (f : ℕ → ℕ)
    → i < b
    → (if leb a (a + i) && ltb (a + i) (a + b) then f (a + i - a) else m (a + i)) ≡ f i
at_place i a b m f h = rw (inside i a b h, back i a) refl

pub bios-IsHealthy : IsHealthy bios images
bios-IsHealthy = record {
  success = λ r. refl;
  sectors = λ r i function cylinder head below.
      at_place i r.bx (512 * u8 r.ax) r.mem (λ j. images (u8 r.dx) (512 * (u8 r.cx - 1) + j)) below;
}

pub boot_sector : IsBootSector labels memory
boot_sector = record {
  drive = omega arith;
  started = record {
    above = omega arith;
    below = omega arith;
    has = finds_text-HasText memory 0x7d01 (codes "Started") refl;
  };
  started_behind = omega arith;
  loading = record {
    above = omega arith;
    below = omega arith;
    has = finds_text-HasText memory 0x7d13 (codes "Loading kernel") refl;
  };
  loading_behind = omega arith;
  protected = record {
    above = omega arith;
    below = omega arith;
    has = finds_text-HasText memory 0x7d09 (codes "Protected") refl;
  };
  protected_behind = omega arith;
}

boot-IsHandedOver_example :
    (p : Protected) × (boot bios labels 0x1005 0x10 20 4 at_boot ≡ some p)
    × IsHandedOver labels images 0x80 0x1005 p
boot-IsHandedOver_example =
    boot-IsHandedOver bios labels video images bios-IsDisk bios-IsHealthy 0x1005 0x10 20 4 at_boot
      (omega arith) (omega arith) boot_sector
