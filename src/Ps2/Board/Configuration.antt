-- ===== src/Ps2/Board/Configuration.antt =====
-- What becomes of the configuration byte of the controller.
use drewos.Base.{ℕ, ◌^◌, ◌<◌, ◌≡◌, refl, ◌==◌, Bool, true, false, not, arith, u8}
use drewos.Base.Bytes.{passes_below, passes_below_at}
use drewos.Ps2.Config.{
  get_flag, set_flag, clock_0, clock_1, port_0_interrupt, port_1_interrupt, initial_config,
  second_port_config, interrupts_config,
}

-- The configuration when both ports are disabled.
abbrev pub disabled : ℕ → ℕ
disabled config = set_flag clock_1 true (set_flag clock_0 true config)

-- What `ps2_init` first makes of it.
abbrev pub configured : ℕ → ℕ
configured config = initial_config (disabled config)

on_bytes :
    (test : ℕ → Bool) (config : ℕ)
    → config < 2 ^ 8
    → passes_below test 256 ≡ true
    → test config ≡ true
on_bytes test config h passed = passes_below_at test 256 h passed

not-false : (b : Bool) → not b ≡ true → b ≡ false
not-false true h = cc
not-false false h = refl

module _ (config : ℕ) (byte : config < 2 ^ 8) where
  pub disabled_byte : u8 (disabled config) ≡ disabled config
  unfolding passes_below
  disabled_byte =
      let t = on_bytes (λ c. u8 (disabled c) == disabled c) config byte refl in ground (arith, t)

  pub configured_byte : u8 (configured config) ≡ configured config
  unfolding passes_below
  configured_byte =
      let t = on_bytes (λ c. u8 (configured c) == configured c) config byte refl in
      ground (arith, t)

  -- There is no clock at a second port, and there is one at the first.
  pub no_second_clock : get_flag clock_1 (configured config) ≡ true
  unfolding passes_below
  no_second_clock = on_bytes (λ c. get_flag clock_1 (configured c)) config byte refl

  pub first_clock : not (get_flag clock_0 (configured config)) ≡ true
  unfolding passes_below
  first_clock = on_bytes (λ c. not (get_flag clock_0 (configured c))) config byte refl

  -- The first port is enabled already, and so is its interrupt.
  pub enabled_already : set_flag clock_0 false (configured config) ≡ configured config
  unfolding passes_below
  enabled_already =
      let t =
        on_bytes (λ c. set_flag clock_0 false (configured c) == configured c) config byte refl in
      ground (arith, t)

  pub interrupts_already : interrupts_config true false (configured config) ≡ configured config
  unfolding passes_below
  interrupts_already =
      let t =
        on_bytes (λ c. interrupts_config true false (configured c) == configured c) config byte
          refl in
      ground (arith, t)

  -- Read as an answer, it is none of those that mean something.
  pub no_ack : (configured config == 0xfa) ≡ false
  unfolding passes_below
  no_ack = not-false _ (on_bytes (λ c. not (configured c == 0xfa)) config byte refl)

  pub no_resend : (configured config == 0xfe) ≡ false
  unfolding passes_below
  no_resend = not-false _ (on_bytes (λ c. not (configured c == 0xfe)) config byte refl)

  pub no_fail : (configured config == 0xfc) ≡ false
  unfolding passes_below
  no_fail = not-false _ (on_bytes (λ c. not (configured c == 0xfc)) config byte refl)

  pub no_zero : (configured config == 0) ≡ false
  unfolding passes_below
  no_zero = not-false _ (on_bytes (λ c. not (configured c == 0)) config byte refl)

-- With a second port: the configuration when it is opened, the one that is then written, and the last
-- one.
abbrev pub opened : ℕ → ℕ
opened config = set_flag clock_1 false (configured config)

abbrev pub dual : ℕ → ℕ
dual config = second_port_config (opened config)

abbrev pub both_on : ℕ → ℕ
both_on config = interrupts_config true true (dual config)

module _ (config : ℕ) (byte : config < 2 ^ 8) where
  pub opened_byte : u8 (opened config) ≡ opened config
  unfolding passes_below
  opened_byte =
      let t = on_bytes (λ c. u8 (opened c) == opened c) config byte refl in ground (arith, t)

  pub second_clock : get_flag clock_1 (opened config) ≡ false
  unfolding passes_below
  second_clock = not-false _ (on_bytes (λ c. not (get_flag clock_1 (opened c))) config byte refl)

  pub dual_byte : u8 (dual config) ≡ dual config
  unfolding passes_below
  dual_byte = let t = on_bytes (λ c. u8 (dual c) == dual c) config byte refl in ground (arith, t)

  -- Both clocks are on.
  pub dual_first : not (get_flag clock_0 (dual config)) ≡ true
  unfolding passes_below
  dual_first = on_bytes (λ c. not (get_flag clock_0 (dual c))) config byte refl

  pub dual_second : not (get_flag clock_1 (dual config)) ≡ true
  unfolding passes_below
  dual_second = on_bytes (λ c. not (get_flag clock_1 (dual c))) config byte refl

  pub dual_first_already : set_flag clock_0 false (dual config) ≡ dual config
  unfolding passes_below
  dual_first_already =
      let t = on_bytes (λ c. set_flag clock_0 false (dual c) == dual c) config byte refl in
      ground (arith, t)

  pub dual_second_already : set_flag clock_1 false (dual config) ≡ dual config
  unfolding passes_below
  dual_second_already =
      let t = on_bytes (λ c. set_flag clock_1 false (dual c) == dual c) config byte refl in
      ground (arith, t)

  pub both_on_byte : u8 (both_on config) ≡ both_on config
  unfolding passes_below
  both_on_byte =
      let t = on_bytes (λ c. u8 (both_on c) == both_on c) config byte refl in ground (arith, t)

  pub both_on_first : not (get_flag clock_0 (both_on config)) ≡ true
  unfolding passes_below
  both_on_first = on_bytes (λ c. not (get_flag clock_0 (both_on c))) config byte refl

  pub both_on_second : not (get_flag clock_1 (both_on config)) ≡ true
  unfolding passes_below
  both_on_second = on_bytes (λ c. not (get_flag clock_1 (both_on c))) config byte refl

  pub both_on_interrupts :
      (get_flag port_0_interrupt (both_on config) ≡ true)
      × (get_flag port_1_interrupt (both_on config) ≡ true)
  unfolding passes_below
  both_on_interrupts = (
    on_bytes (λ c. get_flag port_0_interrupt (both_on c)) config byte refl,
    on_bytes (λ c. get_flag port_1_interrupt (both_on c)) config byte refl,
  )
