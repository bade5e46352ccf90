-- ===== src/Env/Interrupts.antt =====
-- When an action's answer is the one that it gives undisturbed: the rules that follow the
-- checks of runtime_core/control.rs through a sequence of actions.
use arazzo_cli.Base.{
  ℕ, true, some, ◌≡◌, refl, inl, inr, ◌==◌, Bool-cases, Option-cases, if◌then◌else◌,
}
use arazzo_cli.Errors.{RuntimeErrorKind}
use arazzo_cli.Env.{
  Env, M, Outcome, done, cut_off, out_of_fuel, ◌>>=◌, ◌>>◌, and_then, gate_result, StepCheckpoint,
  cancellation_error, check_cancelled, debug_gate, sleep_with_cancel, pure,
}

-- The errors by which an environment cuts a run off: a cancellation that was observed, or an
-- error of the debugger.
pub data Interrupts (env : Env) (e : RuntimeErrorKind) : Type 0 where
  by_token : (n : ℕ) → env.cancelled n ≡ true → e ≡ cancellation_error env n → Interrupts env e
  by_debugger : (c : StepCheckpoint) (n : ℕ) → env.gate c n ≡ some e → Interrupts env e

abbrev pub Ends : {A : Type 0} → Env → (A → Type 0) → Outcome A → Type 0
Ends env P (done a) = P a
Ends env P (cut_off e) = Interrupts env e
Ends env P out_of_fuel = ⊥

-- From every moment, `m` ends with a value in `P` or with an interrupt, and never runs out of
-- fuel.
pub record Refines {A : Type 0} (env : Env) (P : A → Type 0) (m : M A) : Type 0 where
  pub at : (n : ℕ) → Ends env P (m.run n).0

pub Refines-bind :
    {A B : Type 0} {env : Env} (P : A → Type 0) {Q : B → Type 0} {m : M A} {f : A → M B}
    → Refines env P m
    → ((a : A) → P a → Refines env Q (f a))
    → Refines env Q (m >>= f)
Refines-bind {A} {B} {env} P {Q} {m} {f} hm hf = record { at = λ n. go (m.run n) (hm.at n) }
  where
    go : (r : Outcome A × ℕ) → Ends env P r.0 → Ends env Q (and_then r f).0
    go (done a, k) h = (hf a h).at k
    go (cut_off e, k) h = h
    go (out_of_fuel, k) h = absurd h

pub Refines-pure : {A : Type 0} {env : Env} {P : A → Type 0} (a : A) → P a → Refines env P (pure a)
Refines-pure a h = record { at = λ _. h }

pub Refines-then :
    {B : Type 0} {env : Env} {Q : B → Type 0} {m : M (Unit {0})} {k : M B}
    → Refines env (λ _. Unit {0}) m
    → Refines env Q k
    → Refines env Q (m >> k)
Refines-then hm hk = Refines-bind (λ _. Unit) hm (λ _ _. hk)

pub Refines-weaken :
    {A : Type 0} {env : Env} (P Q : A → Type 0) {m : M A}
    → ((a : A) → P a → Q a)
    → Refines env P m
    → Refines env Q m
Refines-weaken {A} {env} P Q {m} f h = record { at = λ n. go (m.run n).0 (h.at n) }
  where
    go : (r : Outcome A) → Ends env P r → Ends env Q r
    go (done a) p = f a p
    go (cut_off e) p = p
    go out_of_fuel p = absurd p

pub Refines-check : (env : Env) → Refines env (λ _. Unit {0}) (check_cancelled env)
unfolding check_cancelled
Refines-check env = record {
  at = λ n. elim (Bool-cases (env.cancelled n)) [
    | inl e ↦ rw (e, Ends) (by_token n e refl)
    | inr e ↦ rw (e, Ends) tt
  ];
}

pub Refines-gate : (env : Env) (c : StepCheckpoint) → Refines env (λ _. Unit {0}) (debug_gate env c)
unfolding debug_gate
Refines-gate env c = record {
  at = λ n. elim (Option-cases (env.gate c n)) [
    | inl e ↦ rw (e, Ends, gate_result) tt
    | inr (a, e) ↦ rw (e, Ends, gate_result) (by_debugger c n e)
  ];
}

pub Refines-sleep :
    (env : Env) (delay : ℕ) → Refines env (λ _. Unit {0}) (sleep_with_cancel env delay)
unfolding sleep_with_cancel
Refines-sleep env delay = Refines-then (Refines-check env) rest
  where
    rest : Refines env (λ _. Unit {0}) (if delay == 0 then pure tt else check_cancelled env)
    rest = elim (Bool-cases (delay == 0)) [
      | inl e ↦ rw e (Refines-pure tt tt)
      | inr e ↦ rw e (Refines-check env)
    ]
