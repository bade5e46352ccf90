-- ===== src/Deps/Levels/Sets.antt =====
-- What a level and its release do to the sets and flags of the loop.
use arazzo_cli.Base.{
  ℕ, zero, suc, ◌+◌, ◌-◌, ◌≡◌, refl, ◌∙◌, Bool, true, false, not, ◌&&◌, ◌||◌, List, [], ◌∷◌, length,
  ◌==◌, ltb, leb, if◌then◌else◌, arith, Bool-cases, inl, inr,
}
use arazzo_cli.Deps.IndexSet.{
  contains, distinct, contains-remove, distinct-remove, length-remove_absent, length-remove_member,
}
use arazzo_cli.Deps.Levels.{Work, release, release_all, is_ready, level_from}

-- The arrays agree: the sets have no repetition, and `indegree` holds their sizes.
pub record Agrees (st : Work) : Type 0 where
  pub distinct_at : (d : ℕ) → distinct (st.deps d) ≡ true
  pub size_at : (d : ℕ) → st.indegree d ≡ length (st.deps d)

release-Agrees : (st : Work) (idx : ℕ) → Agrees st → Agrees (release st idx)
release-Agrees st idx h = record {
  distinct_at = λ d. distinct-remove idx (st.deps d) (h.distinct_at d);
  size_at = λ d. elim (Bool-cases (contains idx (st.deps d))) [
    | inl e ↦
        rw e (omega (arith, h.size_at d, length-remove_member idx (st.deps d) (h.distinct_at d) e))
    | inr e ↦ rw e (omega (arith, h.size_at d, length-remove_absent idx (st.deps d) e))
  ];
}

pub release_all-Agrees : (st : Work) (level : List ℕ) → Agrees st → Agrees (release_all st level)
release_all-Agrees st [] h = h
release_all-Agrees st (idx ∷ level) h =
    release_all-Agrees (release st idx) level (release-Agrees st idx h)

pub release_all-assigned :
    (st : Work) (level : List ℕ) (i : ℕ)
    → (release_all st level).assigned i ≡ (contains i level || st.assigned i)
release_all-assigned st [] i = refl
release_all-assigned st (idx ∷ level) i =
    rw (release_all-assigned (release st idx) level i)
      (or_swap (contains i level) (i == idx) (st.assigned i))
  where
    or_swap : (a b c : Bool) → (a || (b || c)) ≡ ((b || a) || c)
    or_swap true true c = refl
    or_swap true false c = refl
    or_swap false b c = ground arith

pub release_all-deps :
    (st : Work) (level : List ℕ) (d x : ℕ)
    → contains x ((release_all st level).deps d)
      ≡ (not (contains x level) && contains x (st.deps d))
release_all-deps st [] d x = refl
release_all-deps st (idx ∷ level) d x =
    rw (release_all-deps (release st idx) level d x, contains-remove x idx (st.deps d))
      (and_swap (contains x level) (x == idx) (contains x (st.deps d)))
  where
    and_swap : (a b c : Bool) → (not a && (not b && c)) ≡ (not (b || a) && c)
    and_swap a b c = ground arith

pub release_all-remaining :
    (st : Work) (level : List ℕ) → (release_all st level).remaining ≡ st.remaining - length level
release_all-remaining st [] = omega arith
release_all-remaining st (idx ∷ level) = omega (arith, release_all-remaining (release st idx) level)

pub contains-level_from :
    (st : Work) (left b i : ℕ)
    → contains i (level_from st left b) ≡ ((leb b i && ltb i (b + left)) && is_ready st i)
contains-level_from st zero b i = ground arith
contains-level_from st (suc left) b i =
    in_cons (is_ready st b) (level_from st left (b + 1))
    ∙ rw (contains-level_from st left (b + 1) i) (
        chosen (i == b) (is_ready st b) (is_ready st i) (leb (b + 1) i && ltb i (b + 1 + left))
          (leb b i && ltb i (b + suc left)) (λ e. rw (same e) refl) (λ e. below (same e))
          (λ e. at_b (same e)) above)
  where
    in_cons :
        (r : Bool) (rest : List ℕ)
        → contains i (if r then b ∷ rest else rest)
          ≡ (if r then (i == b || contains i rest) else contains i rest)
    in_cons true rest = refl
    in_cons false rest = refl

    chosen :
        (e rb ri lo' lo : Bool)
        → (e ≡ true → rb ≡ ri)
        → (e ≡ true → lo' ≡ false)
        → (e ≡ true → lo ≡ true)
        → (e ≡ false → lo' ≡ lo)
        → (if rb then (e || (lo' && ri)) else (lo' && ri)) ≡ (lo && ri)
    chosen true rb ri lo' lo p q r s = rw (p refl, q refl, r refl) (ground arith)
    chosen false rb ri lo' lo p q r s = rw (s refl) (ground arith)

    same : (i == b) ≡ true → i ≡ b
    same e = ground arith

    below : i ≡ b → (leb (b + 1) i && ltb i (b + 1 + left)) ≡ false
    below e = ground arith

    at_b : i ≡ b → (leb b i && ltb i (b + suc left)) ≡ true
    at_b e = ground arith

    above :
        (i == b) ≡ false
        → (leb (b + 1) i && ltb i (b + 1 + left)) ≡ (leb b i && ltb i (b + suc left))
    above e = ground arith

pub distinct-level_from : (st : Work) (left b : ℕ) → distinct (level_from st left b) ≡ true
distinct-level_from st zero b = refl
distinct-level_from st (suc left) b =
    ground (arith, distinct-level_from st left (b + 1), contains-level_from st left (b + 1) b)
