-- ===== src/Tests/Wire.antt =====
-- Examples of the encodings.
use mathlib.Core.Option
use metalife_pub.Prelude.{
  ℕ, List, [], ◌∷◌, none, some, true, if◌then◌else◌, ◌≡◌, ◌≢◌, inr, refl, arith, String, string_eq,
  is_some, ok,
}
use metalife_pub.GoMap.{lookup}
use metalife_pub.GoMap.Laws.{Distinct, AllValues}
use metalife_pub.Ebt.{
  zero_note, NetworkFrontierMap, marshal_note, unmarshal_note, marshal_frontier, unmarshal_frontier,
}
use metalife_pub.Ebt.Codec.{IsEncodable, received, unmarshal_note-marshal_note}
use metalife_pub.Ebt.Frontier.{unmarshal_frontier-marshal_frontier}
use metalife_pub.Slp.{encode, decode, done, out_of_fuel}
use metalife_pub.Slp.RoundTrip.{Short, decode-encode, encode-decode}
use metalife_pub.Keys.{
  IdxKey, marshal_binary, unmarshal_binary, is_valid, scheme_large_symmetric_group,
}
use metalife_pub.Keys.Codec.{unmarshal_binary-marshal_binary}
use metalife_pub.Tests.{parsed, note_at, notes}

unmarshal_note-marshal_note_example :
    unmarshal_note zero_note (marshal_note (note_at 7)) ≡ ok (received zero_note (note_at 7))
unmarshal_note-marshal_note_example =
    unmarshal_note-marshal_note zero_note (note_at 7) (inr (7, refl, omega arith))

pub notes-Distinct : Distinct notes
unfolding lookup
notes-Distinct = (refl, (refl, tt))

pub notes-IsEncodable : AllValues IsEncodable notes
notes-IsEncodable = (inr (7, refl, omega arith), (inr (2, refl, omega arith), tt))

unmarshal_frontier-marshal_frontier_example :
    (theirs : NetworkFrontierMap) × (unmarshal_frontier parsed (marshal_frontier parsed notes)
      ≡ ok theirs)
    × ((feed : String)
        → lookup feed theirs ≡ (
            if is_some (parsed feed)
            then Option.map (received zero_note) (lookup feed notes)
            else none))
unmarshal_frontier-marshal_frontier_example =
    unmarshal_frontier-marshal_frontier parsed notes notes-Distinct notes-IsEncodable

abbrev two_parts : List (List ℕ)
two_parts = (1 ∷ 2 ∷ []) ∷ [] ∷ []

decode-encode_example :
    (out : List ℕ) × (encode two_parts ≡ some out) × (decode out ≡ done two_parts)
decode-encode_example = decode-encode two_parts (omega arith, (omega arith, tt))

encode-decode_example :
    (decode (2 ∷ 0 ∷ 8 ∷ 9 ∷ 0 ∷ 0 ∷ []) ≢ out_of_fuel)
    × ((out : List (List ℕ))
        → decode (2 ∷ 0 ∷ 8 ∷ 9 ∷ 0 ∷ 0 ∷ []) ≡ done out
        → Short out × (encode out ≡ some (2 ∷ 0 ∷ 8 ∷ 9 ∷ 0 ∷ 0 ∷ [])))
encode-decode_example =
    encode-decode (2 ∷ 0 ∷ 8 ∷ 9 ∷ 0 ∷ 0 ∷ [])
      (omega arith, (omega arith, (omega arith, (omega arith, (omega arith, (omega arith, tt))))))

abbrev group_key : IdxKey
group_key = record { ks = scheme_large_symmetric_group; id = 3 ∷ 4 ∷ [] }

group_key_is_valid : is_valid group_key.ks ≡ true
unfolding is_valid
group_key_is_valid = refl

unmarshal_binary-marshal_binary_example :
    (bytes : List ℕ) × (marshal_binary group_key ≡ ok bytes)
    × (unmarshal_binary [] bytes ≡ ok group_key)
unmarshal_binary-marshal_binary_example =
    unmarshal_binary-marshal_binary group_key group_key_is_valid (omega arith)
