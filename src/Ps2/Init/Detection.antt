-- ===== src/Ps2/Init/Detection.antt =====
-- Which ports `ps2_init` finds in order.
use drewos.Base.{◌≡◌, ◌∙◌, sym, arith, ◌==◌, Bool, true, not}
use drewos.Machine.{Platform, Machine, Ps2State}
use drewos.Machine.Ends.{Ends, Ends-bool, Ends-gets}
use drewos.Ps2.{Port, port0, port1}
use drewos.Ps2.Config.{get_flag, clock_1}
use drewos.Ps2.Init.{set_operational}
use drewos.Ps2.Init.{detect_second, test_port, test_ports}
use drewos.Ps2.Init.Steps.{
  try_second-Quietly, disable_second-Quietly, report_port-Quietly, ask_port-Quietly,
}
use drewos.Ps2.Init.After.{Fresh, After, After-then, After-quiet, After-pure, After-set}

-- Behind the tests of the ports.
pub record Tested (s : Ps2State) : Type 0 where
  pub second : s.port_1_operational ≡ true → s.dual_channel ≡ true
  pub no_first : s.port0_id ≡ 0
  pub no_second : s.port1_id ≡ 0

module _ (platform : Platform) where
  pub detect_second-Fresh :
      (m : Machine) → Fresh m.ps2 → Ends (detect_second platform.dev) m (λ _. After Fresh m)
  unfolding detect_second
  detect_second-Fresh m fresh =
      After-then {P = Fresh} (After-quiet m fresh (try_second-Quietly platform.dev)) λ config n p.
        After-then {P = Fresh}
          (After-set (λ s. record s { dual_channel = not (get_flag clock_1 config) }) n
            (record { second = p.second; no_first = p.no_first; no_second = p.no_second }))
          λ _ k q.
            Ends-bool (get_flag clock_1 config) (λ _. After-pure tt k q)
              (λ _. After-quiet k q (disable_second-Quietly platform.dev config))

  -- The test of a port keeps what holds for either result.
  test_port-After :
      {Q : Ps2State → Type 0} (port : Port) (m : Machine)
      → ((ok : Bool) → Q (set_operational port ok m.ps2))
      → Ends (test_port platform.dev port) m (λ _. After Q m)
  unfolding test_port
  test_port-After {Q} port m h =
      After-then {P = λ s. (ok : Bool) → Q (set_operational port ok s)}
        (After-quiet m h (ask_port-Quietly platform.dev port))
        λ resp n p.
          After-then (After-set (set_operational port (resp == 0)) n (p (resp == 0))) λ _ k q.
            Ends-bool (resp == 0) (λ _. After-pure tt k q)
              (λ _. After-quiet k q (report_port-Quietly platform.dev port resp))

  pub test_ports-Tested :
      (m : Machine) → Fresh m.ps2 → Ends (test_ports platform.dev) m (λ _. After Tested m)
  unfolding test_ports
  test_ports-Tested m fresh =
      After-then {P = Fresh}
        (test_port-After port0 m λ ok. record {
          second = fresh.second;
          no_first = fresh.no_first;
          no_second = fresh.no_second;
        })
        λ _ n p.
          Ends-gets (λ m'. m'.ps2.dual_channel)
            λ dual e.
              Ends-bool dual
                (λ on. test_port-After port1 n λ ok. record {
                  second = λ _. sym e ∙ on;
                  no_first = p.no_first;
                  no_second = p.no_second;
                })
                (λ _. After-pure tt n (record {
                  second = λ t. absurd (ground (arith, p.second, t));
                  no_first = p.no_first;
                  no_second = p.no_second;
                }))
