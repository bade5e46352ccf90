-- ===== src/Conditions/Nesting.antt =====
-- `check_nesting` of crates/arazzo-expr/src/simple_condition/syntax.rs: the scan that bounds the
-- nesting of a condition before it is parsed.
pub mod Bounds
use Prim.Native.Char.{code, Char, len_utf8}
use arazzo_cli.Base.{
  ℕ, zero, suc, ◌+◌, ◌-◌, String, Bool, true, false, not, ◌&&◌, ◌||◌, Option, none, some, List, [],
  ◌∷◌, ◌==◌, ltb, leb, if◌then◌else◌,
}

abbrev pub limit : ℕ
limit = 32

-- `unary_frames`, `depth` and `quoted`; the last frame is the head of the list.
pub record Scan : Type 0 where
  pub frames : List ℕ
  pub depth : ℕ
  pub quoted : Bool

-- `underflow` stands for a subtraction from `depth` that would go below zero.
pub data Scanned : Type 0 where
  within : Scan → Scanned
  too_deep : ℕ → Scanned
  underflow : Scanned

abbrev pub subtracted : ℕ → List ℕ → Scan → Scanned
subtracted k frames st =
    if leb k st.depth
    then within (record { frames = frames; depth = st.depth - k; quoted = st.quoted })
    else underflow

abbrev end_frames : List ℕ → Scan → Scanned
end_frames [] st = within st
end_frames (unaries ∷ frames) st = subtracted unaries (zero ∷ frames) st

abbrev pub end_unary_operand : Scan → Scanned
end_unary_operand st = end_frames st.frames st

abbrev close_frames : List ℕ → Scan → Scanned
close_frames (unaries ∷ outer ∷ frames) st = subtracted (unaries + 1) (outer ∷ frames) st
close_frames _ st = end_unary_operand st

-- The arm of `)`.
abbrev pub close : Scan → Scanned
close st = close_frames st.frames st

abbrev counted : List ℕ → List ℕ
counted [] = []
counted (unaries ∷ frames) = suc unaries ∷ frames

-- The arms of `(` and of `!`: the depth grows, unless the limit is reached.
abbrev pub deeper : ℕ → List ℕ → Scan → Scanned
deeper offset frames st =
    if ltb limit (suc st.depth)
    then too_deep offset
    else within (record { frames = frames; depth = suc st.depth; quoted = st.quoted })

abbrev pub is_operator : ℕ → Bool
is_operator c = c == 61 || c == 33 || c == 60 || c == 62 || c == 38 || c == 124

abbrev pub is_quote : Option Char → Bool
is_quote none = false
is_quote (some c) = code c == 39

abbrev is_equals : Option Char → Bool
is_equals none = false
is_equals (some c) = code c == 61

-- A negation is a `!` that no `=` follows.
abbrev pub is_negation : Char → Option Char → Bool
is_negation c next = code c == 33 && not (is_equals next)

-- A character outside quotes, with the one after it.
unfoldable pub punctuation : ℕ → Char → Option Char → Scan → Scanned
punctuation offset c next st =
    if code c == 40
    then deeper offset (zero ∷ st.frames) st
    else if is_negation c next
    then deeper offset (counted st.frames) st
    else if code c == 41
    then close st
    else if is_operator (code c)
    then end_unary_operand st
    else within st

abbrev pub peek : String → Option Char
peek String.[] = none
peek (String.◌∷◌ c rest) = some c

-- Whether the character takes the next one with it: a quote that is doubled inside quotes.
abbrev pub takes_next : Char → Option Char → Scan → Bool
takes_next c next st = code c == 39 && (st.quoted && is_quote next)

-- One round of the loop.
unfoldable pub scan_char : ℕ → Char → Option Char → Scan → Scanned
unfolding punctuation
scan_char offset c next st =
    if code c == 39
    then (if st.quoted && is_quote next
        then within st
        else within (record { frames = st.frames; depth = st.depth; quoted = not st.quoted }))
    else if st.quoted
    then within st
    else punctuation offset c next st

abbrev pub continued : (Scan → Scanned) → Scanned → Scanned
continued more (within st) = more st
continued more (too_deep offset) = too_deep offset
continued more underflow = underflow

-- The loop; `taken` where the round before has taken this character already.
unfoldable pub scan : Bool → String → ℕ → Scan → Scanned
unfolding scan_char
scan taken String.[] offset st = within st
scan taken (String.◌∷◌ c rest) offset st =
    let next = offset + len_utf8 c in
    if taken
    then scan false rest next st
    else continued (scan (takes_next c (peek rest) st) rest next)
        (scan_char offset c (peek rest) st)

abbrev pub initial : Scan
initial = record { frames = zero ∷ []; depth = 0; quoted = false }

unfoldable pub check_nesting : String → Scanned
unfolding scan
check_nesting input = scan false input 0 initial
