-- ===== src/Invocation/Monad.antt =====
-- The engine's actions on the state of an invocation: a new state, and a result or an error.
use arazzo_cli.Base.{◌≡◌, refl, Bool, true, false, if◌then◌else◌}
use arazzo_cli.Errors.{RuntimeErrorKind, Result, ok, err}

pub record Exec (W A : Type 0) : Type 0 where
  pub run : W → Result A × W

abbrev pub and_then : {W A B : Type 0} → Result A × W → (A → Exec W B) → Result B × W
and_then (ok a, s) f = (f a).run s
and_then (err e, s) f = (err e, s)

infixl 5 ◌>>=◌ ◌>>◌
abbrev pub ◌>>=◌ : {W A B : Type 0} → Exec W A → (A → Exec W B) → Exec W B
m >>= f = record { run = λ s. and_then (m.run s) f }

abbrev pub ◌>>◌ : {W B : Type 0} → Exec W (Unit {0}) → Exec W B → Exec W B
m >> k = m >>= λ _. k

abbrev pub pure : {W A : Type 0} → A → Exec W A
pure a = record { run = λ s. (ok a, s) }

abbrev pub raise : {W A : Type 0} → RuntimeErrorKind → Exec W A
raise e = record { run = λ s. (err e, s) }

-- The result as a value, for code that looks at an error before it returns it.
abbrev pub tried : {W A : Type 0} → Exec W A → Exec W (Result A)
tried m = record { run = λ s. (ok (m.run s).0, (m.run s).1) }

abbrev pub On : {A : Type 0} → (A → Type 0) → Result A → Type 0
On P (ok a) = P a
On P (err e) = Unit

-- From every state, a value that `m` returns is in `P`.
pub record Ensures {W A : Type 0} (P : A → Type 0) (m : Exec W A) : Type 0 where
  pub at : (s : W) → On P (m.run s).0

pub Ensures-bind :
    {W A B : Type 0} (P : A → Type 0) {Q : B → Type 0} {m : Exec W A} {f : A → Exec W B}
    → Ensures P m
    → ((a : A) → P a → Ensures Q (f a))
    → Ensures Q (m >>= f)
Ensures-bind {W} {A} {B} P {Q} {m} {f} hm hf = record { at = λ s. go (m.run s) (hm.at s) }
  where
    go : (r : Result A × W) → On P r.0 → On Q (and_then r f).0
    go (ok a, s) h = (hf a h).at s
    go (err e, s) h = tt

pub Ensures-any : {W A : Type 0} {m : Exec W A} → Ensures (λ _. Unit {0}) m
Ensures-any {W} {A} {m} = record { at = λ s. go (m.run s).0 }
  where
    go : (r : Result A) → On (λ _. Unit {0}) r
    go (ok a) = tt
    go (err e) = tt

pub Ensures-then :
    {W B : Type 0} {Q : B → Type 0} (m : Exec W (Unit {0})) {k : Exec W B}
    → Ensures Q k
    → Ensures Q (m >> k)
Ensures-then m h = Ensures-bind (λ _. Unit) Ensures-any (λ _ _. h)

pub Ensures-pure : {W A : Type 0} {P : A → Type 0} (a : A) → P a → Ensures {W = W} P (pure a)
Ensures-pure a h = record { at = λ _. h }

pub Ensures-raise :
    {W A : Type 0} {P : A → Type 0} (e : RuntimeErrorKind) → Ensures {W = W} P (raise e)
Ensures-raise e = record { at = λ _. tt }

-- Where nothing is known of what an action returns.
pub Ensures-seq :
    {W A B : Type 0} {Q : B → Type 0} (m : Exec W A) {f : A → Exec W B}
    → ((a : A) → Ensures Q (f a))
    → Ensures Q (m >>= f)
Ensures-seq m hf = Ensures-bind (λ _. Unit) Ensures-any (λ a _. hf a)

pub Ensures-if :
    {W A : Type 0} {P : A → Type 0} (b : Bool) {m k : Exec W A}
    → (b ≡ true → Ensures P m)
    → (b ≡ false → Ensures P k)
    → Ensures P (if b then m else k)
Ensures-if true hm hk = hm refl
Ensures-if false hm hk = hk refl
