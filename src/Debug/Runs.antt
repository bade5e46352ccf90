-- ===== src/Debug/Runs.antt =====
-- The runs of the debug controller (crates/arazzo-runtime/src/debug/controller.rs), as a step
-- relation. One gate waits at a time: with a debugger attached the engine runs its steps one after
-- the other.
use arazzo_cli.Base.{
  ℕ, ◌≤◌, ◌≡◌, refl, subst, String, Bool, true, false, Option, none, some, List, [], ◌∷◌,
  if◌then◌else◌, arith,
}
use arazzo_cli.Debug.Breakpoints.{StepBreakpoint, Site, first_matching_breakpoint}
use arazzo_cli.Debug.Stack.{HasDepths, HasDepths-upsert}
use arazzo_cli.Debug.Controller.{
  RunMode, continue, step_in, step_over, step_out, DebugStopReason, DebugStopEvent, ControllerState,
  u64_max, candidate, initial, enter, stop_info, settle, by_breakpoint, gate_step, depart,
  set_breakpoints, request_pause, armed, arm_run_mode, armed_from, arm_run_mode_from_stop, mode_in,
  mode_over, mode_out, force_resume, drop_stop_events,
}

module _ {F : Type 0} (evaluate : F → String → Option Bool) where
  -- What a holder of the lock may do, from one state to the next.
  pub data Moves : ControllerState F → ControllerState F → Type 0 where
    arrives :
        (st : ControllerState F) (site : Site) (f : F) (cancelled later : Bool)
        → st.waiting ≡ false
        → Moves st (gate_step evaluate st site f cancelled later).1
    -- On a permit or a cancellation.
    departs : (st : ControllerState F) → st.waiting ≡ true → Moves st (depart st)
    sets : (st : ControllerState F) (bs : List StepBreakpoint) → Moves st (set_breakpoints bs st)
    pauses : (st : ControllerState F) → Moves st (request_pause st)
    resumes : (st st' : ControllerState F) → arm_run_mode continue st ≡ some st' → Moves st st'
    steps_in :
        (st st' : ControllerState F) → arm_run_mode_from_stop mode_in st ≡ some st' → Moves st st'
    steps_over :
        (st st' : ControllerState F) → arm_run_mode_from_stop mode_over st ≡ some st' → Moves st st'
    steps_out :
        (st st' : ControllerState F) → arm_run_mode_from_stop mode_out st ≡ some st' → Moves st st'
    forced : (st : ControllerState F) → Moves st (force_resume st)
    drops : (st : ControllerState F) → Moves st (drop_stop_events st)

  pub data Reachable : ControllerState F → Type 0 where
    starts : (f : F) → Reachable (initial f)
    moves : (st st' : ControllerState F) → Reachable st → Moves st st' → Reachable st'

abbrev pub OriginWithin : ℕ → RunMode → Type 0
OriginWithin n continue = Unit
OriginWithin n (step_in origin) = origin ≤ n
OriginWithin n (step_over origin depth) = origin ≤ n
OriginWithin n (step_out origin depth) = origin ≤ n

abbrev pub AllWithin : ℕ → List DebugStopEvent → Type 0
AllWithin n [] = Unit
AllWithin n (e ∷ es) = (e.seq ≤ n) × AllWithin n es

-- A permit is only there for a gate that waits; no stop and no stepping mode is of a later number
-- than the last that was given; the stack's frames hold their positions.
pub record IsSound {F : Type 0} (st : ControllerState F) : Type 0 where
  pub permit_waits : st.continue_permit ≡ true → st.waiting ≡ true
  pub numbered : st.next_seq ≤ u64_max
  pub origin_within : OriginWithin st.next_seq st.run_mode
  pub events_within : AllWithin st.next_seq st.stop_events
  pub depths : HasDepths 0 st.current_stack

abbrev OnSome : {A : Type 0} → (A → Type 0) → Option A → Type 0
OnSome P none = Unit
OnSome P (some a) = P a

if_cases :
    {A : Type 0} (P : A → Type 0) (b : Bool) {x y : A}
    → (b ≡ true → P x)
    → (b ≡ false → P y)
    → P (if b then x else y)
if_cases P true hx hy = hx refl
if_cases P false hx hy = hy refl

AllWithin-later : (n m : ℕ) (es : List DebugStopEvent) → n ≤ m → AllWithin n es → AllWithin m es
AllWithin-later n m [] le h = h
AllWithin-later n m (e ∷ es) le (p, h) = (omega (arith, p), AllWithin-later n m es le h)

module _ {F : Type 0} (evaluate : F → String → Option Bool) where
  enter-IsSound :
      (st : ControllerState F) (site : Site) (f : F) → IsSound st → IsSound (enter st site f)
  enter-IsSound st site f h = record {
    permit_waits = h.permit_waits;
    numbered = h.numbered;
    origin_within = h.origin_within;
    events_within = h.events_within;
    depths = HasDepths-upsert st.current_stack site.workflow_id site.step_id site.depth h.depths;
  }

  settle-IsSound :
      (st : ControllerState F) (site : Site) (cancelled : Bool)
      (info : Option (DebugStopReason × Option String))
      → IsSound st
      → IsSound (settle st site cancelled info).1
  settle-IsSound st site cancelled none h = h
  settle-IsSound st site true (some info) h = h
  settle-IsSound st site false (some (reason, condition)) h = record {
    permit_waits = λ p. refl;
    numbered = omega arith;
    origin_within = tt;
    events_within = (
      omega arith,
      AllWithin-later st.next_seq (candidate st.next_seq) st.stop_events (omega (arith, h.numbered))
          h.events_within,
    );
    depths = h.depths;
  }

  gate_step-IsSound :
      (st : ControllerState F) (site : Site) (f : F) (cancelled later : Bool)
      → IsSound st
      → IsSound (gate_step evaluate st site f cancelled later).1
  unfolding gate_step
  gate_step-IsSound st site f true later h = h
  gate_step-IsSound st site f false later h =
      by_match (first_matching_breakpoint (evaluate f) st.breakpoints site)
    where
      by_match :
          (m : Option (Option StepBreakpoint))
          → IsSound (by_breakpoint (enter st site f) site later m).1
      by_match none = enter-IsSound st site f h
      by_match (some matched) =
          settle-IsSound (enter st site f) site later
            (stop_info (enter st site f) site.depth matched) (enter-IsSound st site f h)

  armed-IsSound :
      (mode : RunMode) (st : ControllerState F)
      → st.waiting ≡ true
      → OriginWithin st.next_seq mode
      → IsSound st
      → IsSound (armed mode st)
  armed-IsSound mode st waits origin h = record {
    permit_waits = λ p. waits;
    numbered = h.numbered;
    origin_within = origin;
    events_within = h.events_within;
    depths = h.depths;
  }

  continue-IsSound :
      (st : ControllerState F) → IsSound st → OnSome IsSound (arm_run_mode continue st)
  unfolding arm_run_mode
  continue-IsSound st h =
      if_cases (OnSome IsSound) st.waiting (λ e. armed-IsSound continue st e tt h) (λ e. tt)

  from_stop-IsSound :
      (mode : DebugStopEvent → RunMode) (st : ControllerState F)
      → ((e : DebugStopEvent) → e.seq ≤ st.next_seq → OriginWithin st.next_seq (mode e))
      → IsSound st
      → OnSome IsSound (arm_run_mode_from_stop mode st)
  unfolding arm_run_mode_from_stop
  from_stop-IsSound mode st origin h =
      if_cases (OnSome IsSound) st.waiting (λ e. by_events e st.stop_events h.events_within)
        (λ e. tt)
    where
      by_events :
          st.waiting ≡ true
          → (es : List DebugStopEvent) → AllWithin st.next_seq es
          → OnSome IsSound (armed_from mode st es)
      by_events e [] w = tt
      by_events e (x ∷ es) (le, w) = armed-IsSound (mode x) st e (origin x le) h

  forced-IsSound : (st : ControllerState F) → IsSound st → IsSound (force_resume st)
  unfolding force_resume
  forced-IsSound st h = if_cases IsSound st.waiting (λ e. armed-IsSound continue st e tt h) (λ e. h)

  Moves-IsSound : (st st' : ControllerState F) → Moves evaluate st st' → IsSound st → IsSound st'
  unfolding depart set_breakpoints request_pause drop_stop_events
  Moves-IsSound _ _ (arrives st site f cancelled later w) h =
      gate_step-IsSound st site f cancelled later h
  Moves-IsSound _ _ (departs st w) h = record {
    permit_waits = λ p. absurd (cc);
    numbered = h.numbered;
    origin_within = h.origin_within;
    events_within = h.events_within;
    depths = h.depths;
  }
  Moves-IsSound _ _ (sets st bs) h = record {
    permit_waits = h.permit_waits;
    numbered = h.numbered;
    origin_within = h.origin_within;
    events_within = h.events_within;
    depths = h.depths;
  }
  Moves-IsSound _ _ (pauses st) h = record {
    permit_waits = h.permit_waits;
    numbered = h.numbered;
    origin_within = h.origin_within;
    events_within = h.events_within;
    depths = h.depths;
  }
  Moves-IsSound _ _ (resumes st st' e) h = subst (OnSome IsSound) e (continue-IsSound st h)
  Moves-IsSound _ _ (steps_in st st' e) h =
      subst (OnSome IsSound) e (from_stop-IsSound mode_in st (λ x le. le) h)
  Moves-IsSound _ _ (steps_over st st' e) h =
      subst (OnSome IsSound) e (from_stop-IsSound mode_over st (λ x le. le) h)
  Moves-IsSound _ _ (steps_out st st' e) h =
      subst (OnSome IsSound) e (from_stop-IsSound mode_out st (λ x le. le) h)
  Moves-IsSound _ _ (forced st) h = forced-IsSound st h
  Moves-IsSound _ _ (drops st) h = record {
    permit_waits = h.permit_waits;
    numbered = h.numbered;
    origin_within = h.origin_within;
    events_within = tt;
    depths = h.depths;
  }

  -- In every state that the controller can reach, a permit is only there while a gate waits, the
  -- numbers of the stop events and of the stepping mode are at most the last one given, which fits
  -- in a `u64`, and each stack frame holds its position as its depth.
  pub Reachable-IsSound : (st : ControllerState F) → Reachable evaluate st → IsSound st
  Reachable-IsSound _ (starts f) = record {
    permit_waits = λ p. absurd (cc);
    numbered = omega arith;
    origin_within = tt;
    events_within = tt;
    depths = tt;
  }
  Reachable-IsSound _ (moves st st' r m) = Moves-IsSound st st' m (Reachable-IsSound st r)
