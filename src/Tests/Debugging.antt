-- ===== src/Tests/Debugging.antt =====
-- The theorems about the debug controller after a pause was requested, and at a call one deep.
use arazzo_cli.Base.{
  ◌≡◌, refl, String, Bool, false, Option, none, some, [], length, get_elem?, arith,
}
use arazzo_cli.Env.{StepCheckpoint}
use arazzo_cli.Debug.Breakpoints.{Site, first_matching_breakpoint}
use arazzo_cli.Debug.Stack.{
  DebugStackFrame, upsert_stack_frame, HasDepths, upsert_stack_frame-HasDepths,
}
use arazzo_cli.Debug.Controller.{ControllerState, initial, request_pause, gate_step, stopped}
use arazzo_cli.Debug.Runs.{Reachable, starts, moves, pauses, IsSound, Reachable-IsSound}
use arazzo_cli.Debug.Stepping.{gate_step-stops}

abbrev no_value : Unit {0} → String → Option Bool
no_value f condition = none

abbrev at_login : Site
at_login = record {
  workflow_id = "main";
  step_id = "login";
  checkpoint = StepCheckpoint.step;
  depth = 1;
}

abbrev first_state : ControllerState (Unit {0})
first_state = initial tt

abbrev pausing : ControllerState (Unit {0})
unfolding request_pause
pausing = request_pause first_state

pausing-Reachable : Reachable no_value pausing
unfolding pausing
pausing-Reachable = moves first_state (request_pause first_state) (starts tt) (pauses first_state)

Reachable-IsSound_example : IsSound pausing
Reachable-IsSound_example = Reachable-IsSound no_value pausing pausing-Reachable

gate_step-stops_example : (gate_step no_value pausing at_login tt false false).0 ≡ stopped
unfolding pausing first_matching_breakpoint
gate_step-stops_example =
    gate_step-stops no_value pausing at_login tt pausing-Reachable (omega arith) refl

upsert_stack_frame-HasDepths_example :
    HasDepths 0 (upsert_stack_frame [] "main" "login" 1)
    × (length (upsert_stack_frame [] "main" "login" 1) ≡ 2)
    × ((f : DebugStackFrame) × (get_elem? (upsert_stack_frame [] "main" "login" 1) 1 ≡ some f)
        × (f.workflow_id ≡ "main")
        × (f.step_id ≡ "login"))
upsert_stack_frame-HasDepths_example = upsert_stack_frame-HasDepths [] "main" "login" 1 tt
