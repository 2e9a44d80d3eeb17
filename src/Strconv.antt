-- ===== src/Strconv.antt =====
-- The decimal text of an int64, as `strconv.FormatInt(i, 10)` writes it and
-- `strconv.ParseInt(s, 10, 64)` reads it. A text is the list of its bytes.
pub mod RoundTrip
use metalife_pub.Prelude.{
  ℕ, zero, suc, ◌+◌, ◌-◌, ◌*◌, ◌/◌, ◌%◌, ◌^◌, List, [], ◌∷◌, Option, none, some, ◌==◌, ltb, leb,
  ◌&&◌, if◌then◌else◌,
}
use metalife_pub.Prelude.Int.{ℤ, pos, negsuc}

-- Digits are put in front of `rest`, the last one first. `fuel` bounds the number of digits.
format_uint : ℕ → ℕ → List ℕ → List ℕ
format_uint zero n rest = rest
format_uint (suc fuel) n rest =
    let more = format_uint fuel (n / 10) ((b'0' + n % 10) ∷ rest) in
    if ltb n 10 then (b'0' + n) ∷ rest else more

-- An int64 has at most 19 digits.
unfoldable pub format_int : ℤ → List ℕ
unfolding format_uint
format_int (pos n) = format_uint 20 n []
format_int (negsuc n) = b'-' ∷ format_uint 20 (n + 1) []

parse_digits : ℕ → List ℕ → Option ℕ
parse_digits acc [] = some acc
parse_digits acc (c ∷ s) =
    if leb b'0' c && leb c b'9' then parse_digits (acc * 10 + (c - b'0')) s else none

parse_uint : List ℕ → Option ℕ
unfolding parse_digits
parse_uint [] = none
parse_uint (c ∷ s) = parse_digits 0 (c ∷ s)

-- `none` is a syntax or range error.
parse_pos : List ℕ → Option ℤ
unfolding parse_uint
parse_pos s = elim (parse_uint s) [
  | none ↦ none
  | some n ↦ if ltb n (2 ^ 63) then some (pos n) else none
]

parse_neg : List ℕ → Option ℤ
unfolding parse_uint
parse_neg s = elim (parse_uint s) [
  | none ↦ none
  | some n ↦ if n == 0 then some (pos 0) else if leb n (2 ^ 63) then some (negsuc (n - 1)) else none
]

unfoldable pub parse_int : List ℕ → Option ℤ
unfolding parse_pos parse_neg
parse_int [] = none
parse_int (c ∷ s) =
    if c == b'-' then parse_neg s else if c == b'+' then parse_pos s else parse_pos (c ∷ s)
