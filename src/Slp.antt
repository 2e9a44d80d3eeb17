-- ===== src/Slp.antt =====
-- internal/slp/encoding.go: a list of byte strings, each with its length in front as a little-endian
-- uint16. A byte string is the list of its bytes; the input of `Decode` is a slice whose capacity is
-- its length, so that slicing past the end panics.
pub mod RoundTrip
use mathlib.Core.List.{append-nil, append_assoc}
use mathlib.Core.Option
use metalife_pub.Prelude.{
  ℕ, zero, suc, ◌+◌, ◌-◌, ◌*◌, ◌/◌, ◌%◌, ◌^◌, ◌<◌, ◌≤◌, List, [], ◌∷◌, ◌++◌, map, Memᴰ, Option,
  none, some, Bool, true, false, not, ◌==◌, ltb, leb, ◌&&◌, ◌||◌, if◌then◌else◌, ◌≡◌, ◌≢◌, ◌↔◌, ◌⊎◌,
  inl, inr, refl, sym, ap, subst, ◌∙◌, arith, Bool-cases, Option-cases, String, Eq, eqb, eqb_iff,
  eqb_refl, eqb_comm, eqb_ne, string_eq, pair_eq, bool_eq, or_else, is_some, length, take, drop,
  take-append, drop-append, length-append,
}
use metalife_pub.Prelude.Int.{ℤ, pos, negsuc, ltb_ℤ, ◌+ℤ◌}
use metalife_pub.Prelude.Int64.{to_uint64, to_int64, to_int64_id, IsInt64}
use metalife_pub.GoMap.{GoMap, lookup, insert, delete}
use metalife_pub.GoMap.Laws.{
  lookup-insert, lookup-insert_self, lookup-delete, Distinct, insert-Distinct, delete-Distinct,
  mem_of_lookup, lookup_of_mem, AllValues, insert-AllValues, overwrite_step, overwrite_step_same,
  lookup-cons_ne, lookup-cons, lookup-nil,
}

-- `encodeUint16`, appending to `out`.
encode_uint16 : List ℕ → ℕ → List ℕ
encode_uint16 out l = out ++ l % 256 ∷ l / 256 % 256 ∷ []

-- The loop of `Encode`. `none` is the error for an element that is too long.
encode_from : List ℕ → List (List ℕ) → Option (List ℕ)
unfolding encode_uint16
encode_from out [] = some out
encode_from out (elem ∷ list) =
    let more = encode_from (encode_uint16 out (length elem) ++ elem) list in
    if ltb 65535 (length elem) then none else more

unfoldable pub encode : List (List ℕ) → Option (List ℕ)
unfolding encode_from
encode list = encode_from [] list

pub data Decoded : Type 0 where
  done : List (List ℕ) → Decoded
  panicked out_of_fuel : Decoded

abbrev entry_and : List ℕ → Decoded → Decoded
entry_and entry (done out) = done (entry ∷ out)
entry_and entry panicked = panicked
entry_and entry out_of_fuel = out_of_fuel

-- `input[:entryLen]` and the rounds after it.
decode_entry : (List ℕ → Decoded) → ℕ → List ℕ → Decoded
decode_entry rest entry_len input =
    let more = entry_and (take entry_len input) (rest (drop entry_len input)) in
    if ltb (length input) entry_len then panicked else more

-- The loop of `Decode`.
decode_loop : ℕ → List ℕ → Decoded
unfolding decode_entry
decode_loop fuel [] = done []
decode_loop zero (b ∷ input) = out_of_fuel
decode_loop (suc fuel) (b ∷ []) = panicked
decode_loop (suc fuel) (b ∷ c ∷ input) = decode_entry (decode_loop fuel) (b + 256 * c) input

unfoldable pub decode : List ℕ → Decoded
unfolding decode_loop
decode input = decode_loop (length input) input
