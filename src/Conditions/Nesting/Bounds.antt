-- ===== src/Conditions/Nesting/Bounds.antt =====
-- The depth that `check_nesting` (syntax.rs) counts: no underflow, and what it accepts.
use Prim.Native.Char.{code, Char, len_utf8}
use arazzo_cli.Base.{
  ℕ, suc, ◌+◌, ◌≤◌, ◌<◌, ◌≡◌, refl, String, Bool, true, false, not, ◌&&◌, ◌||◌, Option, List, [],
  ◌∷◌, ◌==◌, ltb, leb, if◌then◌else◌, arith, ltb→lt, ltb→ge, Bool-cases, inl, inr,
}
use arazzo_cli.Conditions.Nesting.{
  limit, Scan, Scanned, within, too_deep, underflow, end_unary_operand, punctuation, peek,
  takes_next, scan_char, scan, initial, check_nesting, is_negation, deeper, subtracted, close,
  is_operator, is_quote, continued,
}

-- The levels that the frames hold: the operands of each, and one for every group that is open.
abbrev pub levels : List ℕ → ℕ
levels [] = 0
levels (unaries ∷ []) = unaries
levels (unaries ∷ outer ∷ frames) = unaries + suc (levels (outer ∷ frames))

abbrev HasFrame : List ℕ → Type 0
HasFrame [] = ⊥
HasFrame (unaries ∷ frames) = Unit

-- The depth is what the frames hold, there is a frame, and the limit is kept.
pub record IsCounted (st : Scan) : Type 0 where
  pub depth_is : st.depth ≡ levels st.frames
  pub has_one : HasFrame st.frames
  pub kept : st.depth ≤ limit

-- Whether a character opens a level.
abbrev pub opens : Char → Option Char → ℕ
opens c next = if code c == 40 || is_negation c next then 1 else 0

-- The opening characters of a text, quoted or not.
abbrev pub openers : String → ℕ
openers String.[] = 0
openers (String.◌∷◌ c rest) = opens c (peek rest) + openers rest

-- What a round may end in: a counted state that is at most one level deeper, or the limit, which it is
-- only past when this character opens a level.
Kept : ℕ → ℕ → ℕ → Scanned → Type 0
Kept depth grown offset (within st) = IsCounted st × (st.depth ≤ depth + grown)
Kept depth grown offset (too_deep at) = (at ≡ offset) × (limit < depth + grown)
Kept depth grown offset underflow = ⊥

module _ (offset depth : ℕ) (quoted : Bool) where
  abbrev at : List ℕ → Scan
  at frames = record { frames = frames; depth = depth; quoted = quoted }

  deeper-Kept :
      (frames grown : List ℕ)
      → depth ≡ levels frames
      → levels grown ≡ suc (levels frames)
      → HasFrame grown
      → Kept depth 1 offset (deeper offset grown (at frames))
  unfolding Kept
  deeper-Kept frames grown is grows one = elim (Bool-cases (ltb limit (suc depth))) [
    | inl h ↦ rw h (refl, omega (arith, ltb→lt limit (suc depth) h))
    | inr h ↦ rw h (
      (record { depth_is = omega arith; has_one = one; kept = ltb→ge limit (suc depth) h }),
      omega arith,
    )
  ]

  fits : (k : ℕ) → k ≤ depth → leb k depth ≡ true
  fits k h = ground arith

  subtracted-Kept :
      (k grown : ℕ) (frames left : List ℕ)
      → depth ≤ limit
      → k + levels left ≡ depth
      → HasFrame left
      → Kept depth grown offset (subtracted k left (at frames))
  unfolding Kept
  subtracted-Kept k grown frames left kept is one =
      rw (fits k (omega (arith, is)))
        ((record { depth_is = omega arith; has_one = one; kept = omega arith }), omega arith)

  module _ (kept : depth ≤ limit) where
    end-Kept :
        (u grown : ℕ) (frames : List ℕ)
        → depth ≡ levels (u ∷ frames)
        → Kept depth grown offset (end_unary_operand (at (u ∷ frames)))
    end-Kept u grown [] is = subtracted-Kept u grown (u ∷ []) (0 ∷ []) kept (omega arith) tt
    end-Kept u grown (v ∷ frames) is =
        subtracted-Kept u grown (u ∷ v ∷ frames) (0 ∷ v ∷ frames) kept (omega arith) tt

    close-Kept :
        (u grown : ℕ) (frames : List ℕ)
        → depth ≡ levels (u ∷ frames)
        → Kept depth grown offset (close (at (u ∷ frames)))
    close-Kept u grown [] is = end-Kept u grown [] is
    close-Kept u grown (v ∷ frames) is =
        subtracted-Kept (u + 1) grown (u ∷ v ∷ frames) (v ∷ frames) kept (omega arith) tt

    stay-Kept :
        (frames : List ℕ) (grown : ℕ)
        → depth ≡ levels frames
        → HasFrame frames
        → Kept depth grown offset (within (at frames))
    unfolding Kept
    stay-Kept frames grown is one =
        ((record { depth_is = is; has_one = one; kept = kept }), omega arith)

    levels-counted : (u : ℕ) (frames : List ℕ) → levels (suc u ∷ frames) ≡ suc (levels (u ∷ frames))
    levels-counted u [] = refl
    levels-counted u (v ∷ frames) = omega arith

    punctuation-Kept :
        (c : Char) (next : Option Char) (u : ℕ) (frames : List ℕ)
        → depth ≡ levels (u ∷ frames)
        → Kept depth (opens c next) offset (punctuation offset c next (at (u ∷ frames)))
    unfolding punctuation
    punctuation-Kept c next u frames is = elim (Bool-cases (code c == 40)) [
      | inl h ↦ rw h (deeper-Kept (u ∷ frames) (0 ∷ u ∷ frames) is (omega arith) tt)
      | inr h ↦ elim (Bool-cases (is_negation c next)) [
        | inl n ↦
            rw (h, n) (deeper-Kept (u ∷ frames) (suc u ∷ frames) is (levels-counted u frames) tt)
        | inr n ↦ elim (Bool-cases (code c == 41)) [
          | inl k ↦ rw (h, n, k) (close-Kept u 0 frames is)
          | inr k ↦ elim (Bool-cases (is_operator (code c))) [
            | inl o ↦ rw (h, n, k, o) (end-Kept u 0 frames is)
            | inr o ↦ rw (h, n, k, o) (stay-Kept (u ∷ frames) 0 is tt)
          ]
        ]
      ]
    ]

-- What the loop may end in, from a counted state.
Finished : ℕ → Scanned → Type 0
Finished most (within st) = IsCounted st × (st.depth ≤ most)
Finished most (too_deep at) = limit < most
Finished most underflow = ⊥

Finished-within : (st : Scan) → IsCounted st → Finished (st.depth + 0) (within st)
unfolding Finished
Finished-within st inv = (inv, omega arith)

outside-Kept :
    (offset depth : ℕ) (quoted : Bool) (c : Char) (next : Option Char) (frames : List ℕ)
    → IsCounted (at offset depth quoted frames)
    → Kept depth (opens c next) offset (punctuation offset c next (at offset depth quoted frames))
outside-Kept offset depth quoted c next [] inv = absurd inv.has_one
outside-Kept offset depth quoted c next (u ∷ frames) inv =
    punctuation-Kept offset depth quoted inv.kept c next u frames inv.depth_is

scan_char-Kept :
    (offset : ℕ) (c : Char) (next : Option Char) (st : Scan)
    → IsCounted st
    → Kept st.depth (opens c next) offset (scan_char offset c next st)
unfolding scan_char
scan_char-Kept offset c next st inv = elim (Bool-cases (code c == 39)) [
  | inl h ↦ elim (Bool-cases (st.quoted && is_quote next)) [
    | inl q ↦ rw (h, q) (stays st.quoted)
    | inr q ↦ rw (h, q) (stays (not st.quoted))
  ]
  | inr h ↦ elim (Bool-cases st.quoted) [
    | inl q ↦ rw (h, q) (stays true)
    | inr q ↦ rw (h, q) (outside-Kept offset st.depth false c next st.frames counted_at)
  ]
]
  where
    counted_at : IsCounted (at offset st.depth false st.frames)
    counted_at = record { depth_is = inv.depth_is; has_one = inv.has_one; kept = inv.kept }

    stays :
        (quoted : Bool)
        → Kept st.depth (opens c next) offset (within (at offset st.depth quoted st.frames))
    stays quoted =
        stay-Kept offset st.depth quoted inv.kept st.frames (opens c next) inv.depth_is inv.has_one

Finished-more : (a b : ℕ) (r : Scanned) → a ≤ b → Finished a r → Finished b r
unfolding Finished
Finished-more a b (within st) le h = (h.0, omega (arith, h.1))
Finished-more a b (too_deep at) le h = omega arith
Finished-more a b underflow le h = h

continued-Finished :
    (depth grown offset later : ℕ) (more : Scan → Scanned) (r : Scanned)
    → ((st : Scan) → IsCounted st → Finished (st.depth + later) (more st))
    → Kept depth grown offset r
    → Finished (depth + (grown + later)) (continued more r)
unfolding Finished Kept
continued-Finished depth grown offset later more (within st) rest h =
    Finished-more (st.depth + later) (depth + (grown + later)) (more st) (omega (arith, h.1))
      (rest st h.0)
continued-Finished depth grown offset later more (too_deep at) rest h = omega (arith, h.1)
continued-Finished depth grown offset later more underflow rest h = h

scan-Finished :
    (taken : Bool) (text : String) (offset : ℕ) (st : Scan)
    → IsCounted st
    → Finished (st.depth + openers text) (scan taken text offset st)
unfolding scan
scan-Finished taken String.[] offset st inv = Finished-within st inv
scan-Finished true (String.◌∷◌ c rest) offset st inv =
    Finished-more (st.depth + openers rest) (st.depth + (opens c (peek rest) + openers rest))
      (scan false rest (offset + len_utf8 c) st) (omega arith)
      (scan-Finished false rest (offset + len_utf8 c) st inv)
scan-Finished false (String.◌∷◌ c rest) offset st inv =
    continued-Finished st.depth (opens c (peek rest)) offset (openers rest)
      (scan (takes_next c (peek rest) st) rest (offset + len_utf8 c))
      (scan_char offset c (peek rest) st)
      (scan-Finished (takes_next c (peek rest) st) rest (offset + len_utf8 c))
      (scan_char-Kept offset c (peek rest) st inv)

-- What the check answers on a text with so many opening characters: a depth that the frames
-- account for, or an error that has more than 32 of them; never a subtraction below zero.
abbrev pub IsBounded : ℕ → Scanned → Type 0
IsBounded opened (within st) = IsCounted st × (st.depth ≤ opened)
IsBounded opened (too_deep at) = 32 < opened
IsBounded opened underflow = ⊥

Finished-IsBounded : (n : ℕ) (r : Scanned) → Finished (0 + n) r → IsBounded n r
unfolding Finished
Finished-IsBounded n (within st) h = (h.0, omega (arith, h.1))
Finished-IsBounded n (too_deep at) h = omega arith
Finished-IsBounded n underflow h = h

-- For every text, the depth that the check counts never goes below zero and never passes 32: it is
-- the sum of the operands in its frames and of the groups that are open, and at most the number of
-- the text's opening characters, a parenthesis or a negation each. A text is refused only when it
-- has more than 32 of them.
pub check_nesting-IsBounded : (input : String) → IsBounded (openers input) (check_nesting input)
unfolding check_nesting
check_nesting-IsBounded input = Finished-IsBounded (openers input) (scan false input 0 initial) (
    scan-Finished false input 0 initial
      (record { depth_is = refl; has_one = tt; kept = omega arith }))
