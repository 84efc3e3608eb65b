-- ===== src/Ps2/Init/Steps.antt =====
-- The steps of `ps2_init` that talk to the controller alone.
use drewos.Base.{ℕ, ◌==◌, [], codes, if_holds, List}
use drewos.Machine.{Device}
use drewos.Machine.Quiet.{Quietly, Quietly-pure, Quietly-bind, Quietly-gets, Quietly-read_byte}
use drewos.Machine.Quiet.{Quietly-println, Quietly-print, Anything, IsByte, IsText}
use drewos.Print.Format.{render, expand}
use drewos.Ps2.{Port, port0, port1, say}
use drewos.Ps2.Resend.{send_command-Quietly, send_data-Quietly, read_data-Quietly}
use drewos.Ps2.Config.{
  ps2_get_config, ps2_set_config, print_port_error_msg, interrupts_config, initial_config,
  second_port_config,
}
use drewos.Ps2.Init.{prepare, self_test, restore, try_second, disable_second, report_port, ask_port}
use drewos.Ps2.Init.{enable_port, enable_ports, test_command, enable_command, operational}

module _ (dev : Device) where
  get_config-Quietly : Quietly IsByte (ps2_get_config dev)
  unfolding ps2_get_config
  get_config-Quietly = Quietly-bind (send_command-Quietly dev 0x20) λ _ _. read_data-Quietly dev

  set_config-Quietly : (config : ℕ) → Quietly Anything (ps2_set_config dev config)
  unfolding ps2_set_config
  set_config-Quietly config =
      Quietly-bind (send_command-Quietly dev 0x60) λ _ _. send_data-Quietly dev config

  pub said-Quietly : (msg : List ℕ) → IsText (render msg []) → Quietly Anything (say dev msg [])
  said-Quietly msg h = Quietly-println msg [] tt h

  error_msg-Quietly : (status : ℕ) → Quietly Anything (print_port_error_msg dev status)
  unfolding print_port_error_msg
  error_msg-Quietly status =
      if_holds (Quietly Anything) (status == 0x01)
        (said-Quietly (codes "Clock line stuck low") (unfold render expand in tt))
        (if_holds (Quietly Anything) (status == 0x02)
          (said-Quietly (codes "Clock line stuck high") (unfold render expand in tt))
          (if_holds (Quietly Anything) (status == 0x03)
            (said-Quietly (codes "Data line stuck low") (unfold render expand in tt))
            (if_holds (Quietly Anything) (status == 0x04)
              (said-Quietly (codes "Data line stuck high ") (unfold render expand in tt))
              (said-Quietly (codes "Unknown error") (unfold render expand in tt)))))

  pub prepare-Quietly : Quietly Anything (prepare dev)
  unfolding prepare
  prepare-Quietly = Quietly-bind (send_command-Quietly dev 0xad) λ _ _.
      Quietly-bind (send_command-Quietly dev 0xa7) λ _ _.
        Quietly-bind (Quietly-read_byte dev 0x60) λ _ _.
          Quietly-bind (get_config-Quietly) λ config _.
            Quietly-bind (set_config-Quietly (initial_config config))
              λ _ _. Quietly-pure (initial_config config) tt

  pub self_test-Quietly : Quietly IsByte (self_test dev)
  unfolding self_test
  self_test-Quietly = Quietly-bind (send_command-Quietly dev 0xaa) λ _ _. read_data-Quietly dev

  pub restore-Quietly : (config : ℕ) → Quietly Anything (restore dev config)
  unfolding restore
  restore-Quietly config = Quietly-bind (get_config-Quietly) λ new_config _.
      if_holds (Quietly Anything) (new_config == config) (Quietly-pure tt tt)
        (set_config-Quietly config)

  pub try_second-Quietly : Quietly IsByte (try_second dev)
  unfolding try_second
  try_second-Quietly = Quietly-bind (send_command-Quietly dev 0xa8) λ _ _. get_config-Quietly

  pub disable_second-Quietly : (config : ℕ) → Quietly Anything (disable_second dev config)
  unfolding disable_second
  disable_second-Quietly config =
      Quietly-bind (send_command-Quietly dev 0xa7)
        λ _ _. set_config-Quietly (second_port_config config)

  pub report_port-Quietly : (port : Port) (resp : ℕ) → Quietly Anything (report_port dev port resp)
  unfolding report_port
  report_port-Quietly port0 resp =
      Quietly-bind
        (Quietly-print (codes "PS/2 port 0 is faulty: ") [] tt (unfold render expand in tt))
        (λ _ _. error_msg-Quietly resp)
  report_port-Quietly port1 resp =
      Quietly-bind
        (Quietly-print (codes "PS/2 port 1 is faulty: ") [] tt (unfold render expand in tt))
        (λ _ _. error_msg-Quietly resp)

  pub ask_port-Quietly : (port : Port) → Quietly IsByte (ask_port dev port)
  unfolding ask_port
  ask_port-Quietly port =
      Quietly-bind (send_command-Quietly dev (test_command port)) λ _ _. read_data-Quietly dev

  enable_port-Quietly : (port : Port) → Quietly Anything (enable_port dev port)
  unfolding enable_port
  enable_port-Quietly port = Quietly-bind (Quietly-gets (λ m. m.ps2)) λ s _.
      if_holds (Quietly Anything) (operational port s)
        (send_command-Quietly dev (enable_command port)) (Quietly-pure tt tt)

  pub enable_ports-Quietly : Quietly Anything (enable_ports dev)
  unfolding enable_ports
  enable_ports-Quietly = Quietly-bind (enable_port-Quietly port0) λ _ _.
      Quietly-bind (enable_port-Quietly port1) λ _ _. Quietly-bind (get_config-Quietly) λ config _.
        Quietly-bind (Quietly-gets (λ m. m.ps2)) λ s _.
          set_config-Quietly (interrupts_config s.port_0_operational s.port_1_operational config)
