-- ===== src/Base/Results.antt =====
-- A result with an error of any type, and what is done with the value of one.
use mathlib.Core.Path.{◌≡◌, refl}
use mathlib.Core.Logic.{◌⊎◌, inl, inr}

pub data Fallible (E A : Type 0) : Type 0 where
  fine : A → Fallible E A
  failed : E → Fallible E A

-- The operator `?`: an error ends the enclosing function.
abbrev pub and_then : {E A B : Type 0} → Fallible E A → (A → Fallible E B) → Fallible E B
and_then (fine a) f = f a
and_then (failed e) f = failed e

abbrev pub map_fine : {E A B : Type 0} → (A → B) → Fallible E A → Fallible E B
map_fine f (fine a) = fine (f a)
map_fine f (failed e) = failed e

abbrev pub map_err : {E F A : Type 0} → (E → F) → Fallible E A → Fallible F A
map_err f (fine a) = fine a
map_err f (failed e) = failed (f e)

pub Fallible-cases :
    {E A : Type 0} (r : Fallible E A) → ((a : A) × (r ≡ fine a)) ⊎ ((e : E) × (r ≡ failed e))
Fallible-cases (fine a) = inl (a, refl)
Fallible-cases (failed e) = inr (e, refl)
