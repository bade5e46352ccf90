-- ===== src/RegexCache.antt =====
-- crates/arazzo-runtime/src/runtime_core/regex_cache.rs: compiled patterns, shared by the steps of
-- an engine. The map's lock is held for a lookup and for a publication, and not in between.
pub mod Uncached
use Prim.Native.String.{len}
use arazzo_cli.Base.{
  ℕ, String, Bool, true, false, not, Option, none, some, List, [], ◌∷◌, ◌==◌, leb, length, str_eq,
  if◌then◌else◌, Fallible, map_fine,
}

abbrev pub capacity : ℕ
capacity = 256

abbrev pub max_pattern_bytes : ℕ
max_pattern_bytes = 4096

-- The map: every key once.
abbrev pub Cache : Type 0 → Type 0
Cache A = List (String × A)

abbrev pub retain : String → Bool
retain pattern = leb (len pattern) max_pattern_bytes

abbrev pub get : {A : Type 0} → String → Cache A → Option A
get pattern [] = none
get pattern ((key, a) ∷ cache) = if str_eq pattern key then some a else get pattern cache

-- `cache.clear()` at the capacity.
abbrev pub with_room : {A : Type 0} → Cache A → Cache A
with_room cache = if length cache == capacity then [] else cache

abbrev kept_or_added : {A : Type 0} → String → A → Cache A → Option A → A × Cache A
kept_or_added pattern fresh cache (some existing) = (existing, cache)
kept_or_added pattern fresh cache none = (fresh, (pattern, fresh) ∷ with_room cache)

-- The second critical section: the answer, and the map that it leaves.
unfoldable pub publish : {A : Type 0} → String → A → Cache A → A × Cache A
publish pattern fresh cache = kept_or_added pattern fresh cache (get pattern cache)

abbrev or_else : {A : Type 0} → A × Cache A → Cache A → Option A → A × Cache A
or_else missed at_lookup none = missed
or_else missed at_lookup (some hit) = (hit, at_lookup)

-- `compiled`, where the map is `at_lookup` when it is looked up and `at_publish` when a result is
-- published: other threads may have published in between.
unfoldable pub compiled :
    {A : Type 0}
    → (compile : String → A) (pattern : String) (at_lookup at_publish : Cache A) → A × Cache A
unfolding publish
compiled compile pattern at_lookup at_publish =
    if retain pattern
    then or_else (publish pattern (compile pattern) at_publish) at_lookup (get pattern at_lookup)
    else (compile pattern, at_publish)

-- `is_match`, over a compiler that may refuse the pattern.
unfoldable pub is_match :
    {E R : Type 0}
    → (compile : String → Fallible E R) (matches : R → String → Bool) (pattern text : String)
      (at_lookup at_publish : Cache (Fallible E R))
    → Fallible E Bool
unfolding compiled
is_match compile matches pattern text at_lookup at_publish =
    map_fine (λ regex. matches regex text) (compiled compile pattern at_lookup at_publish).0
