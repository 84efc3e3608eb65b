-- ===== src/Ps2/Config/Flags.antt =====
-- The flags of the configuration, one by one.
use drewos.Base.{ℕ, ◌^◌, ◌<◌, ◌≡◌, refl, ◌==◌, ◌&&◌, ◌||◌, Bool, true, false, not, if◌then◌else◌}
use drewos.Base.Bytes.{passes_below, passes_below_at}
use drewos.Ps2.Config.{get_flag, initial_config, second_port_config, interrupts_config}

abbrev pub agree : Bool → Bool → Bool
agree true b = b
agree false b = not b

pub agree-eq : (a b : Bool) → agree a b ≡ true → a ≡ b
agree-eq true true h = refl
agree-eq true false h = cc
agree-eq false true h = cc
agree-eq false false h = refl

-- The flag in a place, if `changed` says what becomes of those that are assigned.
abbrev initial_flag : ℕ → ℕ → Bool
initial_flag config place =
    if place == 0 then true else if place == 4 || place == 6 then false else get_flag place config

abbrev second_flag : ℕ → ℕ → Bool
second_flag config place = if place == 1 || place == 5 then false else get_flag place config

abbrev interrupts_flag : Bool → Bool → ℕ → ℕ → Bool
interrupts_flag first second config place =
    first && place == 0 || second && place == 1 || get_flag place config

abbrev on_flags : (ℕ → ℕ → Bool) → Bool
on_flags test = passes_below (λ config. passes_below (test config) 8) 256

on_flags_at :
    (test : ℕ → ℕ → Bool) (config place : ℕ)
    → config < 256
    → place < 8
    → on_flags test ≡ true
    → test config place ≡ true
on_flags_at test config place hc hp passed =
    passes_below_at (test config) 8 hp
      (passes_below_at (λ c. passes_below (test c) 8) 256 hc passed)

initial_table : on_flags (λ c p. agree (get_flag p (initial_config c)) (initial_flag c p)) ≡ true
unfolding passes_below
initial_table = refl

second_table : on_flags (λ c p. agree (get_flag p (second_port_config c)) (second_flag c p)) ≡ true
unfolding passes_below
second_table = refl

interrupts_table :
    (first second : Bool)
    → on_flags (λ c p.
      agree (get_flag p (interrupts_config first second c)) (interrupts_flag first second c p))
      ≡ true
unfolding passes_below
interrupts_table true true = refl
interrupts_table true false = refl
interrupts_table false true = refl
interrupts_table false false = refl

-- The three changes of the configuration, at every byte and flag. The first sets the interrupt of
-- port 0 and clears its clock and translation flags, the second clears the interrupt and the clock
-- flag of port 1, the third sets the interrupts of the ports that work; each leaves all other flags
-- as they are.
configs_lem :
    (config place : ℕ) (first second : Bool)
    → config < 2 ^ 8
    → place < 8
    → (get_flag place (initial_config config) ≡ (
        if place == 0
        then true
        else if place == 4 || place == 6
        then false
        else get_flag place config))
      × (get_flag place (second_port_config config)
          ≡ (if place == 1 || place == 5 then false else get_flag place config))
      × (get_flag place (interrupts_config first second config)
          ≡ (first && place == 0 || second && place == 1 || get_flag place config))
configs_lem config place first second hc hp = (
  agree-eq _ _ (on_flags_at _ config place hc hp initial_table),
  agree-eq _ _ (on_flags_at _ config place hc hp second_table),
  agree-eq _ _ (on_flags_at _ config place hc hp (interrupts_table first second)),
)
