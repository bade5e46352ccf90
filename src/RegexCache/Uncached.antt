-- ===== src/RegexCache/Uncached.antt =====
-- The shared map of regex_cache.rs against compiling each pattern anew.
use Prim.Native.String.{len}
use arazzo_cli.Base.{
  ◌≤◌, ◌≡◌, refl, sym, ap, ◌∙◌, unwrap_or, String, Bool, true, some, [], ◌∷◌, ◌==◌, length, str_eq,
  Fallible, map_fine, arith, Bool-cases, Option-cases, inl, inr, eq_iff, leb→le, All,
}
use arazzo_cli.RegexCache.{
  Cache, capacity, max_pattern_bytes, get, publish, compiled, is_match, retain,
}

module _ {E R : Type 0} (compile : String → Fallible E R) where
  -- The maps that the threads may see: every publication that takes place, in any order and of
  -- any patterns that are retained.
  pub data Reachable : Cache (Fallible E R) → Type 0 where
    new : Reachable []
    published :
        (pattern : String) (cache : Cache (Fallible E R))
        → retain pattern ≡ true
        → Reachable cache
        → Reachable (publish pattern (compile pattern) cache).1

  -- An entry is what its key compiles to, and its key is short.
  abbrev pub IsCompiled : String × Fallible E R → Type 0
  IsCompiled (key, value) = (value ≡ compile key) × (len key ≤ max_pattern_bytes)

  pub record IsValid (cache : Cache (Fallible E R)) : Type 0 where
    pub entries : All IsCompiled cache
    pub bounded : length cache ≤ capacity

  get-compile :
      (pattern : String) (cache : Cache (Fallible E R)) (hit : Fallible E R)
      → All IsCompiled cache
      → get pattern cache ≡ some hit
      → hit ≡ compile pattern
  get-compile pattern [] hit all h = absurd (ground arith)
  get-compile pattern ((key, value) ∷ cache) hit all h = elim (Bool-cases (str_eq pattern key)) [
    | inl e ↦
        ap (unwrap_or hit) (sym (rw e at h)) ∙ all.0.0 ∙ ap compile (sym ((eq_iff pattern key).0 e))
    | inr e ↦ get-compile pattern cache hit all.1 (rw e at h)
  ]

  publish-IsValid :
      (pattern : String) (cache : Cache (Fallible E R))
      → retain pattern ≡ true
      → IsValid cache
      → IsValid (publish pattern (compile pattern) cache).1
  unfolding publish
  publish-IsValid pattern cache r v = elim (Option-cases (get pattern cache)) [
    | inr (hit, h) ↦ rw h v
    | inl h ↦ rw h (elim (Bool-cases (length cache == capacity)) [
      | inl full ↦ rw full (record {
        entries = ((refl, leb→le (len pattern) max_pattern_bytes r), tt);
        bounded = omega arith;
      })
      | inr room ↦ rw room (record {
        entries = ((refl, leb→le (len pattern) max_pattern_bytes r), v.entries);
        bounded = ground arith;
      })
    ])
  ]

  Reachable-IsValid : (cache : Cache (Fallible E R)) → Reachable cache → IsValid cache
  Reachable-IsValid [] new = record { entries = tt; bounded = omega arith }
  Reachable-IsValid _ (published pattern cache r before) =
      publish-IsValid pattern cache r (Reachable-IsValid cache before)

  published_answer :
      (pattern : String) (cache : Cache (Fallible E R))
      → IsValid cache
      → (publish pattern (compile pattern) cache).0 ≡ compile pattern
  unfolding publish
  published_answer pattern cache v = elim (Option-cases (get pattern cache)) [
    | inl h ↦ rw h refl
    | inr (hit, h) ↦ rw h (get-compile pattern cache hit v.entries h)
  ]

  compiled-compile :
      (pattern : String) (at_lookup at_publish : Cache (Fallible E R))
      → IsValid at_lookup
      → IsValid at_publish
      → ((compiled compile pattern at_lookup at_publish).0 ≡ compile pattern)
        × IsValid (compiled compile pattern at_lookup at_publish).1
  unfolding compiled
  compiled-compile pattern at_lookup at_publish l p = elim (Bool-cases (retain pattern)) [
    | inr long ↦ rw long (refl, p)
    | inl short ↦ elim (Option-cases (get pattern at_lookup)) [
      | inr (hit, h) ↦ rw (short, h) (get-compile pattern at_lookup hit l.entries h, l)
      | inl h ↦
          rw (short, h)
            (published_answer pattern at_publish p, publish-IsValid pattern at_publish short p)
    ]
  ]

  -- Whatever the threads have published before the lookup and before the publication, a match
  -- answers as a new compilation of its pattern does, refusals included, and what the map keeps
  -- then is at most 256 patterns of at most 4096 bytes, each with what it compiles to.
  pub is_match-compile :
      (matches : R → String → Bool) (pattern text : String)
      (at_lookup at_publish : Cache (Fallible E R))
      → Reachable at_lookup
      → Reachable at_publish
      → (is_match compile matches pattern text at_lookup at_publish
          ≡ map_fine (λ regex. matches regex text) (compile pattern))
        × IsValid (compiled compile pattern at_lookup at_publish).1
  unfolding is_match
  is_match-compile matches pattern text at_lookup at_publish l p =
      let done =
        compiled-compile pattern at_lookup at_publish (Reachable-IsValid at_lookup l)
          (Reachable-IsValid at_publish p) in
      (ap (map_fine (λ regex. matches regex text)) done.0, done.1)
