-- ===== src/Strconv/RoundTrip.antt =====
-- Reading back a printed integer.
use native.Mathlib.Nat.{pow-suc}
use metalife_pub.Prelude.{
  ℕ, zero, suc, ◌+◌, ◌*◌, ◌/◌, ◌%◌, ◌^◌, ◌≤◌, ◌<◌, List, [], ◌∷◌, some, ltb, ◌≡◌, refl, arith,
  Bool-cases, inl, inr, ltb→lt, ◌∙◌, ap,
}
use metalife_pub.Prelude.Int.{ℤ, pos, negsuc}
use metalife_pub.Prelude.Int64.{IsInt64}
use metalife_pub.Strconv.{
  format_uint, format_int, parse_digits, parse_uint, parse_int, parse_pos, parse_neg,
}

parse_digits-cons :
    (acc d : ℕ) (s : List ℕ)
    → d < 10
    → parse_digits acc ((b'0' + d) ∷ s) ≡ parse_digits (acc * 10 + d) s
unfolding parse_digits
parse_digits-cons acc d s h = ground arith

parse_digits-format_uint :
    (fuel n : ℕ) (rest : List ℕ)
    → n < 10 ^ fuel
    → parse_digits 0 (format_uint fuel n rest) ≡ parse_digits n rest
unfolding format_uint
parse_digits-format_uint zero n rest h = ap (λ m. parse_digits m rest) (omega arith)
parse_digits-format_uint (suc fuel) n rest h = elim (Bool-cases (ltb n 10)) [
  | inl small ↦
      rw small (
        parse_digits-cons 0 n rest (ltb→lt n 10 small)
        ∙ ap (λ m. parse_digits m rest) (omega arith))
  | inr large ↦ rw large (
      parse_digits-format_uint fuel (n / 10) ((b'0' + n % 10) ∷ rest)
        (omega (arith, pow-suc 10 fuel))
      ∙ parse_digits-cons (n / 10) (n % 10) rest (omega arith)
      ∙ ap (λ m. parse_digits m rest) (omega arith))
]

-- What is printed begins with a digit, so with no sign.
abbrev BeginsWithDigit : List ℕ → Type 0
BeginsWithDigit [] = ⊥
BeginsWithDigit (c ∷ s) = b'0' ≤ c

format_uint-BeginsWithDigit :
    (fuel n d : ℕ) (rest : List ℕ) → b'0' ≤ d → BeginsWithDigit (format_uint fuel n (d ∷ rest))
unfolding format_uint
format_uint-BeginsWithDigit zero n d rest h = h
format_uint-BeginsWithDigit (suc fuel) n d rest h = elim (Bool-cases (ltb n 10)) [
  | inl small ↦ rw small (omega arith)
  | inr large ↦
      rw large (format_uint-BeginsWithDigit fuel (n / 10) (b'0' + n % 10) (d ∷ rest) (omega arith))
]

format-BeginsWithDigit : (n : ℕ) → BeginsWithDigit (format_uint 20 n [])
unfolding format_uint
format-BeginsWithDigit n = elim (Bool-cases (ltb n 10)) [
  | inl small ↦ rw small (omega arith)
  | inr large ↦ rw large (format_uint-BeginsWithDigit 19 (n / 10) (b'0' + n % 10) [] (omega arith))
]

parse_uint_of : (s : List ℕ) → BeginsWithDigit s → parse_uint s ≡ parse_digits 0 s
unfolding parse_uint
parse_uint_of [] h = absurd h
parse_uint_of (c ∷ s) h = refl

parse_uint-format : (n : ℕ) → n < 2 ^ 64 → parse_uint (format_uint 20 n []) ≡ some n
parse_uint-format n h =
    parse_uint_of (format_uint 20 n []) (format-BeginsWithDigit n)
    ∙ parse_digits-format_uint 20 n [] (omega arith)
    ∙ (unfold parse_digits in refl)

parse_int_of : (s : List ℕ) → BeginsWithDigit s → parse_int s ≡ parse_pos s
unfolding parse_int
parse_int_of [] h = absurd h
parse_int_of (c ∷ s) h = ground arith

-- Every int64 is read back from its decimal text.
pub parse_int-format_int : (i : ℤ) → IsInt64 i → parse_int (format_int i) ≡ some i
unfolding format_int
parse_int-format_int (pos n) h =
    parse_int_of (format_uint 20 n []) (format-BeginsWithDigit n)
    ∙ (unfold parse_pos in ground (arith, parse_uint-format n))
parse_int-format_int (negsuc n) h =
    unfold parse_int parse_neg in ground (arith, parse_uint-format (n + 1))

parse_int_samples :
    (parse_int (format_int (negsuc 41)) ≡ some (negsuc 41))
    × (parse_int (b'+' ∷ b'7' ∷ []) ≡ some (pos 7))
unfolding parse_int format_int
parse_int_samples = (refl, refl)
