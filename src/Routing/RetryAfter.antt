-- ===== src/Routing/RetryAfter.antt =====
-- The delay before a retry: `compute_retry_after_delay` and its helpers. Durations are in
-- nanoseconds.
use Prim.Native.Char.{code}
use arazzo_cli.Base.{
  ℕ, ◌+◌, ◌-◌, ◌*◌, String, Bool, true, false, Option, none, some, List, [], ◌∷◌, ◌==◌, ◌&&◌, ◌||◌,
  ltb, leb, is_empty, if◌then◌else◌,
}
use arazzo_cli.Spec.{F64, OnAction}
use arazzo_cli.Errors.{input_validation, Result, ok, err}
use arazzo_cli.Routing.Decision.{Evaluator}

-- `retry_after.is_finite() && retry_after >= 0.0` on the bits of an IEEE 754 double: the sign bit
-- is clear and the exponent is not all ones, or the value is -0.
unfoldable pub is_finite_non_negative : F64 → Bool
is_finite_non_negative bits = ltb bits 0x7ff0000000000000 || bits == 0x8000000000000000

unfoldable pub validate_retry_after_value : F64 → Result (Unit {0})
unfolding is_finite_non_negative
validate_retry_after_value bits =
    if is_finite_non_negative bits then ok tt else err input_validation

to_lower : ℕ → ℕ
to_lower c = if leb b'A' c && leb c b'Z' then c + 32 else c

unfoldable pub eq_ignore_ascii_case : String → String → Bool
unfolding to_lower
eq_ignore_ascii_case String.[] String.[] = true
eq_ignore_ascii_case String.[] (String.◌∷◌ d t) = false
eq_ignore_ascii_case (String.◌∷◌ c s) String.[] = false
eq_ignore_ascii_case (String.◌∷◌ c s) (String.◌∷◌ d t) =
    to_lower (code c) == to_lower (code d) && eq_ignore_ascii_case s t

-- `hdrs.iter().find(..).map(..).unwrap_or("")`.
unfoldable pub retry_after_header : List (String × String) → String
unfolding eq_ignore_ascii_case
retry_after_header [] = ""
retry_after_header ((k, v) ∷ rest) =
    if eq_ignore_ascii_case k "retry-after" then v else retry_after_header rest

is_digit : ℕ → Bool
is_digit c = leb b'0' c && leb c b'9'

u64_digits : ℕ → String → Option ℕ
unfolding is_digit
u64_digits acc String.[] = some acc
u64_digits acc (String.◌∷◌ c s) =
    let acc' = acc * 10 + (code c - b'0') in
    let rest = u64_digits acc' s in
    if is_digit (code c) && ltb acc' 0x10000000000000000 then rest else none

u64_after_sign : String → Option ℕ
unfolding u64_digits
u64_after_sign String.[] = none
u64_after_sign (String.◌∷◌ c s) = u64_digits 0 (String.◌∷◌ c s)

-- `str::parse::<u64>`: decimal digits behind an optional `+`, below 2^64.
unfoldable pub parse_u64 : String → Option ℕ
unfolding u64_after_sign
parse_u64 String.[] = none
parse_u64 (String.◌∷◌ c s) =
    if code c == b'+' then u64_after_sign s else u64_after_sign (String.◌∷◌ c s)

abbrev nanoseconds : ℕ
nanoseconds = 1_000_000_000

unfoldable pub configured_retry_after_delay : Evaluator → F64 → Result ℕ
configured_retry_after_delay ev bits = elim (ev.try_from_secs_f64 bits) [
  | some delay ↦ ok delay
  | none ↦ err input_validation
]

-- `raw` is the header's value, empty if there is none.
unfoldable pub header_delay : Evaluator → F64 → String → Result ℕ
unfolding configured_retry_after_delay
header_delay ev bits raw =
    if is_empty raw then configured_retry_after_delay ev bits else elim (parse_u64 raw) [
      | some secs ↦ ok (secs * nanoseconds)
      | none ↦ configured_retry_after_delay ev bits
    ]

unfoldable pub compute_retry_after_delay :
    Evaluator → OnAction → Option (List (String × String)) → Result ℕ
unfolding header_delay
compute_retry_after_delay ev action headers = elim (validate_retry_after_value action.retry_after) [
  | err e ↦ err e
  | ok _ ↦ elim headers [
    | none ↦ configured_retry_after_delay ev action.retry_after
    | some hdrs ↦ header_delay ev action.retry_after (retry_after_header hdrs)
  ]
]
