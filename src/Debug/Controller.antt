-- ===== src/Debug/Controller.antt =====
-- crates/arazzo-runtime/src/debug/controller.rs: the state of the controller, its commands, and
-- the debug gate. Each definition is what one holder of the lock does; the gate gives the lock back
-- while it waits, so it is two: the arrival, and the departure when it wakes for good.
use arazzo_cli.Base.{
  ℕ, ◌+◌, ◌-◌, min, String, Bool, true, false, ◌&&◌, Option, none, some, List, [], ◌∷◌, ◌++◌, ltb,
  leb, take, if◌then◌else◌,
}
use arazzo_cli.Debug.Breakpoints.{
  StepBreakpoint, Site, first_matching_breakpoint, reported_condition,
}
use arazzo_cli.Debug.Stack.{DebugStackFrame, upsert_stack_frame}

pub data RunMode : Type 0 where
  continue : RunMode
  step_in : (origin_seq : ℕ) → RunMode
  step_over : (origin_seq origin_depth : ℕ) → RunMode
  step_out : (origin_seq target_depth : ℕ) → RunMode

pub data DebugStopReason : Type 0 where
  breakpoint pause step : DebugStopReason

pub record DebugStopEvent : Type 0 where
  pub seq : ℕ
  pub site : Site
  pub reason : DebugStopReason
  pub breakpoint_condition : Option String

-- The scopes and the evaluation context of an arrival are one value of a type `F`. The collected
-- output diagnostics are left out.
pub record ControllerState (F : Type 0) : Type 0 where
  pub breakpoints : List StepBreakpoint
  pub pause_requested : Bool
  pub run_mode : RunMode
  pub waiting : Bool
  pub continue_permit : Bool
  -- The latest first.
  pub stop_events : List DebugStopEvent
  pub next_seq : ℕ
  pub current_stack : List DebugStackFrame
  pub current : F
  pub frames : List F

abbrev pub u64_max : ℕ
u64_max = 18446744073709551615

unfoldable pub should_stop_for_step_mode : RunMode → (candidate_seq depth : ℕ) → Bool
should_stop_for_step_mode continue seq depth = false
should_stop_for_step_mode (step_in origin) seq depth = ltb origin seq
should_stop_for_step_mode (step_over origin origin_depth) seq depth =
    ltb origin seq && leb depth origin_depth
should_stop_for_step_mode (step_out origin target_depth) seq depth =
    ltb origin seq && leb depth target_depth

-- How an arrival ends: it passes, it stops and waits, or a breakpoint's condition has an error.
pub data Gate : Type 0 where
  passed stopped failed : Gate

abbrev pub mode_in : DebugStopEvent → RunMode
mode_in e = step_in e.seq

abbrev pub mode_over : DebugStopEvent → RunMode
mode_over e = step_over e.seq e.site.depth

abbrev pub mode_out : DebugStopEvent → RunMode
mode_out e = step_out e.seq (e.site.depth - 1)

abbrev pub candidate : ℕ → ℕ
candidate next_seq = min (next_seq + 1) u64_max

module _ {F : Type 0} where
  abbrev pub initial : F → ControllerState F
  initial f = record {
    breakpoints = [];
    pause_requested = false;
    run_mode = continue;
    waiting = false;
    continue_permit = false;
    stop_events = [];
    next_seq = 0;
    current_stack = [];
    current = f;
    frames = [];
  }

  -- The writes before the breakpoints are read.
  abbrev pub enter : ControllerState F → Site → F → ControllerState F
  enter st site f = record st {
    frames = take site.depth st.frames ++ (f ∷ []);
    current = f;
    current_stack = upsert_stack_frame st.current_stack site.workflow_id site.step_id site.depth;
  }

  unfoldable pub stop_info :
      ControllerState F → ℕ → Option StepBreakpoint → Option (DebugStopReason × Option String)
  unfolding should_stop_for_step_mode
  stop_info st depth (some b) = some (breakpoint, reported_condition b)
  stop_info st depth none =
      if st.pause_requested
      then some (pause, none)
      else if should_stop_for_step_mode st.run_mode (candidate st.next_seq) depth
      then some (step, none)
      else none

  abbrev pub stop : ControllerState F → Site → DebugStopReason × Option String → ControllerState F
  stop st site (reason, condition) = record st {
    next_seq = candidate st.next_seq;
    stop_events =
        record {
          seq = candidate st.next_seq;
          site = site;
          reason = reason;
          breakpoint_condition = condition;
        }
        ∷ st.stop_events;
    pause_requested = false;
    run_mode = continue;
    waiting = true;
  }

  -- `cancelled` is the second look at the token.
  abbrev pub settle :
      ControllerState F
      → Site
      → (cancelled : Bool) → Option (DebugStopReason × Option String)
      → Gate × ControllerState F
  settle st site cancelled none = (passed, st)
  settle st site true (some info) = (passed, st)
  settle st site false (some info) = (stopped, stop st site info)

  abbrev pub by_breakpoint :
      ControllerState F → Site → Bool → Option (Option StepBreakpoint) → Gate × ControllerState F
  by_breakpoint st site cancelled none = (failed, st)
  by_breakpoint st site cancelled (some matched) =
      settle st site cancelled (stop_info st site.depth matched)

  -- `gate_step` up to its wait, without the diagnostics of an output. The two flags are what it
  -- sees of the token.
  unfoldable pub gate_step :
      (evaluate : F → String → Option Bool)
      → ControllerState F
      → Site
      → F
      → (cancelled cancelled_later : Bool) → Gate × ControllerState F
  gate_step evaluate st site f true later = (passed, st)
  gate_step evaluate st site f false later =
      by_breakpoint (enter st site f) site later
        (first_matching_breakpoint (evaluate f) st.breakpoints site)

  -- What follows the wait, which a permit or a cancellation ends.
  unfoldable pub depart : ControllerState F → ControllerState F
  depart st = record st { continue_permit = false; waiting = false }

  unfoldable pub set_breakpoints : List StepBreakpoint → ControllerState F → ControllerState F
  set_breakpoints bs st = record st { breakpoints = bs }

  unfoldable pub request_pause : ControllerState F → ControllerState F
  request_pause st = record st { pause_requested = true }

  abbrev pub armed : RunMode → ControllerState F → ControllerState F
  armed mode st = record st { run_mode = mode; pause_requested = false; continue_permit = true }

  -- `none` is an error, which changes nothing.
  unfoldable pub arm_run_mode : RunMode → ControllerState F → Option (ControllerState F)
  arm_run_mode mode st = if st.waiting then some (armed mode st) else none

  abbrev pub armed_from :
      (DebugStopEvent → RunMode)
      → ControllerState F
      → List DebugStopEvent
      → Option (ControllerState F)
  armed_from mode st [] = none
  armed_from mode st (last ∷ rest) = some (armed (mode last) st)

  unfoldable pub arm_run_mode_from_stop :
      (DebugStopEvent → RunMode) → ControllerState F → Option (ControllerState F)
  arm_run_mode_from_stop mode st = if st.waiting then armed_from mode st st.stop_events else none

  unfoldable pub force_resume : ControllerState F → ControllerState F
  force_resume st = if st.waiting then armed continue st else st

  -- `take_stop_events` and `clear_stop_events`.
  unfoldable pub drop_stop_events : ControllerState F → ControllerState F
  drop_stop_events st = record st { stop_events = [] }
