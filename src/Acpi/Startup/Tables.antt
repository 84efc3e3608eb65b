-- ===== src/Acpi/Startup/Tables.antt =====
-- The lookup of the FADT and the MADT behind `rsdt_init`.
use drewos.Base.{ℕ, ◌≡◌, ◌∙◌, refl, ap, ◌==◌, Bool, true, false, [], List, codes}
use drewos.Machine.{Device, Machine, AcpiState, pure, ◌>>=◌}
use drewos.Machine.Quiet.{
  Quietly, Quietly-println, Anything, SameVariables, SameVariables-refl, IsText,
}
use drewos.Screen.Frame.{KeepsMemory, KeepsMemory-trans}
use drewos.Machine.Ends.{Ends, Ends-pure, Ends-post, Ends-quiet, Ends-bool, Ends-bind, Ends-run}
use drewos.Print.Format.{render, expand}
use drewos.Acpi.Fadt.{fadt_init, madt_init, fadt_signature, madt_signature, find_sdt}
use drewos.Ps2.{say}

-- The variables of the drivers are the same, but for those of ACPI.
pub record Others (m n : Machine) : Type 0 where
  pub pic : n.pic ≡ m.pic
  pub interrupts : n.interrupts ≡ m.interrupts
  pub ps2 : n.ps2 ≡ m.ps2
  pub keyboard : n.keyboard ≡ m.keyboard
  pub memory : KeepsMemory m.screen n.screen

pub Others-trans : {m n k : Machine} → Others m n → Others n k → Others m k
Others-trans p q = record {
  pic = q.pic ∙ p.pic;
  interrupts = q.interrupts ∙ p.interrupts;
  ps2 = q.ps2 ∙ p.ps2;
  keyboard = q.keyboard ∙ p.keyboard;
  memory = KeepsMemory-trans p.memory q.memory;
}

pub Others-same : {m n : Machine} → SameVariables m n → Others m n
Others-same s = record {
  pic = s.pic;
  interrupts = s.interrupts;
  ps2 = s.ps2;
  keyboard = s.keyboard;
  memory = s.memory;
}

-- The variables of ACPI are left out.
pub Others-behind :
    (m : Machine) {s : AcpiState} {n : Machine} → Others (record m { acpi = s }) n → Others m n
Others-behind m p = record {
  pic = p.pic;
  interrupts = p.interrupts;
  ps2 = p.ps2;
  keyboard = p.keyboard;
  memory = p.memory;
}

-- The variables of ACPI become those given, and all others are the same.
record Becomes (s : AcpiState) (m n : Machine) : Type 0 where
  acpi : n.acpi ≡ s
  others : Others m n

module _ (dev : Device) where
  pub told : (msg : List ℕ) → IsText (render msg []) → Quietly Anything (say dev msg [])
  told msg h = Quietly-println msg [] tt h

  -- A message, or nothing.
  told_if :
      (b : Bool) (msg : List ℕ) (s : AcpiState) (m : Machine)
      → IsText (render msg [])
      → Ends
          (elim b [ true ↦ say dev msg [] | false ↦ pure tt ])
          (record m { acpi = s })
          (λ _. Becomes s m)
  told_if b msg s m h =
      Ends-bool b
        (λ _.
          Ends-post (Ends-quiet (record m { acpi = s }) (told msg h))
            λ _ n p. record { acpi = p.1.acpi; others = Others-behind m (Others-same p.1) })
        (λ _.
          Ends-pure tt (record m { acpi = s })
            (record {
              acpi = refl;
              others = Others-behind m (Others-same (SameVariables-refl (record m { acpi = s })));
            }))

  fadt_init-Becomes :
      (m : Machine)
      → Ends (fadt_init dev) m (λ _. Becomes (record m.acpi { fadt = find_sdt fadt_signature m }) m)
  unfolding fadt_init
  fadt_init-Becomes m =
      Ends-run
        (told_if (find_sdt fadt_signature m == 0) (codes "Failed to locate FADT")
          (record m.acpi { fadt = find_sdt fadt_signature m }) m (unfold render expand in tt))
        refl

  madt_init-Becomes :
      (m : Machine)
      → Ends (madt_init dev) m (λ _. Becomes (record m.acpi { madt = find_sdt madt_signature m }) m)
  unfolding madt_init
  madt_init-Becomes m =
      Ends-run
        (told_if (find_sdt madt_signature m == 0) (codes "Failed to locate MADT")
          (record m.acpi { madt = find_sdt madt_signature m }) m (unfold render expand in tt))
        refl

  -- The two tables are looked up, the MADT behind the message that the FADT may give.
  pub tables_lem :
      (m : Machine)
      → Ends (fadt_init dev >>= λ _. madt_init dev) m (λ _ n.
        (n.acpi.rsdp ≡ m.acpi.rsdp)
        × (n.acpi.xsdp ≡ m.acpi.xsdp)
        × (n.acpi.roots ≡ m.acpi.roots)
        × (n.acpi.fadt ≡ find_sdt fadt_signature m)
        × Others m n)
  tables_lem m = Ends-bind (fadt_init-Becomes m) λ _ n b. Ends-post (madt_init-Becomes n) λ _ k c. (
    ap (λ a. a.rsdp) c.acpi ∙ ap (λ a. a.rsdp) b.acpi,
    ap (λ a. a.xsdp) c.acpi ∙ ap (λ a. a.xsdp) b.acpi,
    ap (λ a. a.roots) c.acpi ∙ ap (λ a. a.roots) b.acpi,
    ap (λ a. a.fadt) c.acpi ∙ ap (λ a. a.fadt) b.acpi,
    Others-trans b.others c.others,
  )
