-- ===== src/Debug/Stepping.antt =====
-- When an arrival stops: the stepping modes of crates/arazzo-runtime/src/debug/controller.rs.
use arazzo_cli.Base.{
  ℕ, ◌<◌, ◌≡◌, refl, String, Bool, true, false, ◌||◌, Option, none, some, leb, lt→ltb,
  if◌then◌else◌, arith,
}
use arazzo_cli.Debug.Breakpoints.{Site, first_matching_breakpoint}
use arazzo_cli.Debug.Controller.{
  RunMode, continue, step_in, step_over, step_out, pause, step, ControllerState, u64_max,
  should_stop_for_step_mode, passed, stopped, candidate, enter, stop_info, settle, gate_step,
}
use arazzo_cli.Debug.Runs.{Reachable, OriginWithin, IsSound, Reachable-IsSound}

-- At which depths a stepping mode stops.
abbrev pub steps_at : RunMode → ℕ → Bool
steps_at continue depth = false
steps_at (step_in origin) depth = true
steps_at (step_over origin origin_depth) depth = leb depth origin_depth
steps_at (step_out origin target_depth) depth = leb depth target_depth

module _ {F : Type 0} (evaluate : F → String → Option Bool) where
  step_mode-eq :
      (mode : RunMode) (n depth : ℕ)
      → OriginWithin n mode
      → n < u64_max
      → should_stop_for_step_mode mode (candidate n) depth ≡ steps_at mode depth
  unfolding should_stop_for_step_mode
  step_mode-eq continue n depth h lt = refl
  step_mode-eq (step_in origin) n depth h lt = lt→ltb origin (candidate n) (omega arith)
  step_mode-eq (step_over origin origin_depth) n depth h lt =
      rw (lt→ltb origin (candidate n) (omega arith)) refl
  step_mode-eq (step_out origin target_depth) n depth h lt =
      rw (lt→ltb origin (candidate n) (omega arith)) refl

  -- In every state that the controller can reach before its numbers are used up, an arrival that
  -- no breakpoint matches and that is not cancelled stops exactly if a pause is requested or the
  -- stepping mode stops at its depth: the test of the stop numbers never keeps it from stopping.
  pub gate_step-stops :
      (st : ControllerState F) (site : Site) (f : F)
      → Reachable evaluate st
      → st.next_seq < u64_max
      → first_matching_breakpoint (evaluate f) st.breakpoints site ≡ some none
      → (gate_step evaluate st site f false false).0
        ≡ (if st.pause_requested || steps_at st.run_mode site.depth then stopped else passed)
  unfolding gate_step stop_info
  gate_step-stops st site f reachable lt none_matches =
      rw (none_matches, step_mode-eq st.run_mode st.next_seq site.depth sound.origin_within lt)
        (by_tests st.pause_requested (steps_at st.run_mode site.depth))
    where
      sound : IsSound st
      sound = Reachable-IsSound evaluate st reachable

      by_tests :
          (p t : Bool)
          → (settle
              (enter st site f)
              site
              false
              (if p then some (pause, none) else if t then some (step, none) else none)).0
            ≡ (if p || t then stopped else passed)
      by_tests true t = refl
      by_tests false true = refl
      by_tests false false = refl
