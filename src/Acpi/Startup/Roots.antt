-- ===== src/Acpi/Startup/Roots.antt =====
-- The roots and tables that `init_rsdp` leaves in the variables.
use drewos.Base.{
  ℕ, ◌+◌, ◌<◌, ◌≡◌, ◌≢◌, ◌∙◌, refl, ap, arith, ◌==◌, Bool, true, [], List, codes, if◌then◌else◌,
}
use drewos.Machine.{Device, Machine, AcpiState, ◌>>=◌}
use drewos.Machine.Quiet.{SameVariables, IsText}
use drewos.Machine.Ends.{Ends, Ends-post, Ends-quiet, Ends-bool, Ends-run}
use drewos.Print.Format.{render, expand}
use mathlib.Core.Path.{subst}
use drewos.Memory.{Memory}
use drewos.Acpi.{read32, get_sdt}
use drewos.Acpi.Search.{byte_at, ebda_start}
use drewos.Acpi.Search.Areas.{Located, locate_sdp-Located}
use drewos.Acpi.Startup.{is_broken, located, rsdt_init, use_sdp, init_rsdp}
use drewos.Ps2.{say}
use drewos.Acpi.Startup.Tables.{Others, Others-same, Others-behind, told, tables_lem}

-- A root that is there has a sum other than 0 modulo 256.
abbrev pub any_broken : Memory → ℕ → ℕ → Bool
any_broken mem r x = if is_broken mem r then true else is_broken mem x

-- The four pointers, and the FADT that they lead to: it is looked up if no root is broken.
pub record Leads (m n : Machine) (rsdp xsdp r x : ℕ) : Type 0 where
  pub rsdp_is : n.acpi.rsdp ≡ rsdp
  pub xsdp_is : n.acpi.xsdp ≡ xsdp
  pub rsdt_is : n.acpi.roots.rsdt ≡ r
  pub xsdt_is : n.acpi.roots.xsdt ≡ x
  pub fadt_is : n.acpi.fadt ≡ (
      if any_broken m.screen.mem r x
      then m.acpi.fadt
      else get_sdt m.screen.mem (record { rsdt = r; xsdt = x }) (codes "FACP"))
  pub others : Others m n

-- The pointers to the root are set in front.
Leads-behind :
    (m : Machine) {s : AcpiState} {n : Machine} {rsdp xsdp r x : ℕ}
    → s.fadt ≡ m.acpi.fadt
    → Leads (record m { acpi = s }) n rsdp xsdp r x
    → Leads m n rsdp xsdp r x
Leads-behind m {s} {r = r} {x = x} same l = record {
  rsdp_is = l.rsdp_is;
  xsdp_is = l.xsdp_is;
  rsdt_is = l.rsdt_is;
  xsdt_is = l.xsdt_is;
  fadt_is = l.fadt_is ∙ rw same refl;
  others = Others-behind m l.others;
}

-- What `init_rsdp` does, by the root pointer that there is and its revision.
pub data Started (m n : Machine) : Type 0 where
  absent : Located m.screen.mem 0 → SameVariables m n → Started m n
  extended :
      (p : ℕ)
      → p ≢ 0
      → Located m.screen.mem p
      → byte_at m.screen.mem p 15 ≡ 2
      → Leads m n 0 p 0 (read32 m.screen.mem (p + 24))
      → Started m n
  plain :
      (p : ℕ)
      → p ≢ 0
      → Located m.screen.mem p
      → byte_at m.screen.mem p 15 ≢ 2
      → Leads m n p 0 (read32 m.screen.mem (p + 16)) 0
      → Started m n

module _ (dev : Device) where
  -- With a message about a broken root nothing is looked up.
  broken-Leads :
      (r x : ℕ) (msg : List ℕ) (m : Machine)
      → IsText (render msg [])
      → any_broken m.screen.mem r x ≡ true
      → Ends
          (say dev msg [])
          (record m { acpi = record m.acpi { roots = record { rsdt = r; xsdt = x } } })
          (λ _ n. Leads m n m.acpi.rsdp m.acpi.xsdp r x)
  broken-Leads r x msg m h broken =
      Ends-post
        (Ends-quiet (record m { acpi = record m.acpi { roots = record { rsdt = r; xsdt = x } } })
          (told dev msg h))
        λ _ n p. record {
          rsdp_is = ap (λ a. a.rsdp) p.1.acpi;
          xsdp_is = ap (λ a. a.xsdp) p.1.acpi;
          rsdt_is = ap (λ a. a.roots.rsdt) p.1.acpi;
          xsdt_is = ap (λ a. a.roots.xsdt) p.1.acpi;
          fadt_is = ap (λ a. a.fadt) p.1.acpi ∙ rw broken refl;
          others = Others-behind m (Others-same p.1);
        }

  rsdt_init-Leads :
      (r x : ℕ) (m : Machine)
      → Ends (rsdt_init dev r x) m (λ _ n. Leads m n m.acpi.rsdp m.acpi.xsdp r x)
  unfolding rsdt_init
  rsdt_init-Leads r x m =
      Ends-run
        (Ends-bool (is_broken m.screen.mem r)
          (λ e.
            broken-Leads r x (codes "Invalid RSDT checksum") m (unfold render expand in tt)
              (rw e refl))
          (λ e.
            Ends-bool (is_broken m.screen.mem x)
              (λ e'.
                broken-Leads r x (codes "Invalid XSDT checksum") m (unfold render expand in tt)
                  (rw (e, e') refl))
              (λ e'.
                Ends-post
                  (tables_lem dev
                    (record m { acpi = record m.acpi { roots = record { rsdt = r; xsdt = x } } }))
                  λ _ n p. record {
                    rsdp_is = p.0;
                    xsdp_is = p.1;
                    rsdt_is = ap (λ a. a.rsdt) p.2;
                    xsdt_is = ap (λ a. a.xsdt) p.2;
                    fadt_is = p.3 ∙ rw (e, e') refl;
                    others = Others-behind m p.4;
                  })))
        refl

  use_sdp-Started :
      (p : ℕ) (m : Machine)
      → p ≢ 0
      → Located m.screen.mem p
      → Ends (use_sdp dev p) m (λ _. Started m)
  unfolding use_sdp
  use_sdp-Started p m h at =
      Ends-run
        (Ends-bool (byte_at m.screen.mem p 15 == 2)
          (λ e.
            Ends-run
              (Ends-post
                (rsdt_init-Leads 0 (read32 m.screen.mem (p + 24))
                  (record m { acpi = record m.acpi { rsdp = 0; xsdp = p } }))
                λ _ n l. extended p h at (ground arith) (Leads-behind m refl l))
              refl)
          (λ e.
            Ends-run
              (Ends-post
                (rsdt_init-Leads (read32 m.screen.mem (p + 16)) 0
                  (record m { acpi = record m.acpi { rsdp = p; xsdp = 0 } }))
                λ _ n l. plain p h at (ground arith) (Leads-behind m refl l))
              refl))
        refl

  -- For every device and memory, if the BIOS has left a segment of the EBDA that is not 0, `init_rsdp`
  -- returns. If no place has a root pointer, the variables are as before. If the first one has
  -- revision 2, it becomes the XSDP, the RSDP is null and the XSDT is at its 64-bit address taken
  -- modulo 2 ^ 32; otherwise it becomes the RSDP, the XSDP is null and the RSDT is at its 32-bit
  -- address. The FADT is then the one that `get_sdt` finds from this root, unless the root is there
  -- with a wrong sum. The variables of the other drivers are as before, and so is the memory outside
  -- of the video buffer, if the column was one of the screen.
  pub init_rsdp-Started :
      (m : Machine) → 0 < ebda_start m.screen.mem → Ends (init_rsdp dev) m (λ _. Started m)
  unfolding init_rsdp
  init_rsdp-Started m ebda =
      let (p, e, at) = locate_sdp-Located m.screen.mem ebda in
      Ends-run
        (Ends-bool (p == 0)
          (λ none_there.
            Ends-post
              (Ends-quiet m (
                told dev (codes "Failed to locate valid RSDP/XSDP signature")
                  (unfold render expand in tt)))
              λ _ n s. absent (subst (Located m.screen.mem) (ground arith) at) s.1)
          (λ there. use_sdp-Started p m (ground arith) at))
        (rw (e, located, ◌>>=◌) refl)
