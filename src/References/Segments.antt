-- ===== src/References/Segments.antt =====
-- How a reference is split into its segments (source_reference.rs).
use Prim.Native.Char.{code, char, Char}
use text.Mathlib.TextEquality.{Char-path}
use arazzo_cli.Base.{
  ℕ, ◌≡◌, refl, sym, ap, String, Bool, true, false, not, ◌&&◌, Option, none, some, ◌==◌, ==_iff,
  is_empty, Fallible, fine, failed, Bool-cases, Option-cases, inl, inr, arith, unwrap_or,
}
use arazzo_cli.References.{
  strip_prefix, is_dot, on_first, split_once, is_identifier_char, all_identifier,
  is_identifier_strict, is_source_reference_id, SourceReference, SourceReferenceError,
  parse_source_reference,
}

abbrev pub joined : String → String → String
joined String.[] t = t
joined (String.◌∷◌ c s) t = String.◌∷◌ c (joined s t)

-- A reference as it is written, behind the namespace and a dot.
abbrev pub reference_text : String → String → String
reference_text name id = joined name (joined "." id)

cons : {c d : Char} {s t : String} → c ≡ d → s ≡ t → String.◌∷◌ c s ≡ String.◌∷◌ d t
cons p q = λ i. String.◌∷◌ (p i) (q i)

pub joined-strip_prefix : (p v rest : String) → strip_prefix p v ≡ some rest → v ≡ joined p rest
joined-strip_prefix String.[] v rest h = ap (unwrap_or v) h
joined-strip_prefix (String.◌∷◌ c p) String.[] rest h = absurd (cc)
joined-strip_prefix (String.◌∷◌ c p) (String.◌∷◌ d v) rest h =
    elim (Bool-cases (code c == code d)) [
      | inl e ↦
          cons (sym (Char-path c d ((==_iff (code c) (code d)).0 e)))
            (joined-strip_prefix p v rest (rw e at h))
      | inr e ↦ absurd (no_rest (rw e at h))
    ]
  where
    no_rest : none ≡ some rest → ⊥
    no_rest e = absurd (cc)

abbrev dot : Char
dot = char 46 tt

joined-split_once :
    (v first rest : String) → split_once v ≡ some (first, rest) → v ≡ reference_text first rest
joined-split_once String.[] first rest h = absurd (cc)
joined-split_once (String.◌∷◌ c v) first rest h = elim (Bool-cases (is_dot c)) [
  | inl e ↦
      let parts = some_parts "" first v rest (rw e at h) in
      rw (sym parts.0, sym parts.1) (cons (Char-path c dot ((==_iff (code c) 46).0 e)) refl)
  | inr e ↦ elim (Option-cases (split_once v)) [
    | inl n ↦ absurd (no_parts (rw (e, n) at h))
    | inr ((a, b), at) ↦
        let parts = some_parts (String.◌∷◌ c a) first b rest (rw (e, at) at h) in
        rw (sym parts.0, sym parts.1) (cons refl (joined-split_once v a b at))
  ]
]
  where
    some_parts :
        (a a' b b' : String)
        → ◌≡◌ {A = Option (String × String)} (some (a, b)) (some (a', b'))
        → (a ≡ a') × (b ≡ b')
    some_parts a a' b b' e = (
      ap (λ (o : Option (String × String)). (unwrap_or (a, b) o).0) e,
      ap (λ (o : Option (String × String)). (unwrap_or (a, b) o).1) e,
    )

    no_parts : ◌≡◌ {A = Option (String × String)} none (some (first, rest)) → ⊥
    no_parts e = absurd (cc)

identifier_char-no_dot :
    (n : ℕ) (c : Char) → code c ≡ n → is_identifier_char c ≡ true → (n == 46) ≡ false
identifier_char-no_dot n c e h = ground arith

split_once-joined :
    (name id : String)
    → all_identifier name ≡ true
    → split_once (reference_text name id) ≡ some (name, id)
split_once-joined String.[] id h = refl
split_once-joined (String.◌∷◌ c name) id h =
    rw (identifier_char-no_dot (code c) c refl (ground arith))
      (ap (on_first c) (split_once-joined name id (ground arith)))

parts_true : (x y : Bool) → (x && y) ≡ true → (x ≡ true) × (y ≡ true)
parts_true x y h = ground arith

identifier_strict-all :
    (name : String) → is_identifier_strict name ≡ true → all_identifier name ≡ true
unfolding is_identifier_strict
identifier_strict-all name h = (parts_true (not (is_empty name)) (all_identifier name) h).1

-- The two segments of a reference, each by its own rule.
abbrev pub AreSegments : String → String → Type 0
AreSegments name id = (is_identifier_strict name ≡ true) × (is_source_reference_id id ≡ true)

pub parse_source_reference-joined :
    (name id : String)
    → AreSegments name id
    → parse_source_reference (reference_text name id)
      ≡ fine (record { source_name = name; reference_id = id })
unfolding parse_source_reference
parse_source_reference-joined name id h =
    rw (split_once-joined name id (identifier_strict-all name h.0), h.0, h.1) refl

-- What a parse that succeeds has read.
unfoldable pub IsReadFrom : String → Fallible SourceReferenceError SourceReference → Type 0
IsReadFrom text (failed e) = Unit
IsReadFrom text (fine r) =
    (text ≡ reference_text r.source_name r.reference_id) × AreSegments r.source_name r.reference_id

pub parse_source_reference-IsReadFrom :
    (text : String) → IsReadFrom text (parse_source_reference text)
unfolding parse_source_reference IsReadFrom
parse_source_reference-IsReadFrom text = elim (Option-cases (split_once text)) [
  | inl h ↦ rw h tt
  | inr ((name, id), h) ↦ elim (Bool-cases (is_identifier_strict name)) [
    | inr n ↦ rw (h, n) tt
    | inl n ↦ elim (Bool-cases (is_source_reference_id id)) [
      | inr i ↦ rw (h, n, i) tt
      | inl i ↦ rw (h, n, i) (joined-split_once text name id h, (n, i))
    ]
  ]
]
