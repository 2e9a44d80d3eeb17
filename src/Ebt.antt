-- ===== src/Ebt.antt =====
-- ebt.go: the notes of a network frontier, and their form on the wire.
pub mod Codec
pub mod Frontier
use metalife_pub.Prelude.{
  ℕ, zero, suc, ◌+◌, ◌-◌, ◌*◌, ◌/◌, ◌%◌, ◌^◌, List, [], ◌∷◌, Option, none, some, Bool, true, false,
  not, ◌==◌, ltb, leb, ◌&&◌, if◌then◌else◌, String, Eq, string_eq, Result, ok, err, ◌>>=◌, is_some,
}
use metalife_pub.Prelude.Int.{ℤ, pos, negsuc, ◌*ℤ◌, ltb_ℤ, ◌=ℤ◌}
use metalife_pub.Prelude.Int64.{to_int64, to_uint64, of_bits}
use metalife_pub.GoMap.{GoMap, insert}
use metalife_pub.Strconv.{format_int, parse_int}

-- A feed's length and some control settings.
pub record Note : Type 0 where
  pub seq : ℤ
  pub replicate : Bool
  pub receive : Bool

-- `var n Note`
abbrev pub zero_note : Note
zero_note = record { seq = pos 0; replicate = false; receive = false }

-- `i << 1`
abbrev pub shl_one : ℤ → ℤ
shl_one i = to_int64 (pos 2 *ℤ i)

-- `i |= 1`
abbrev pub or_one : ℤ → ℤ
or_one i = of_bits (to_uint64 i / 2 * 2 + 1)

-- `Note.MarshalJSON`, as the bytes of the number.
unfoldable pub marshal_note : Note → List ℕ
marshal_note s =
    let i = shl_one (if s.seq =ℤ negsuc 0 then pos 0 else s.seq) in
    if not s.replicate then b'-' ∷ b'1' ∷ [] else format_int (if s.receive then i else or_one i)

pub data NoteError : Type 0 where
  not_an_integer negative_number : NoteError

-- The rest of `Note.UnmarshalJSON`, after the integer is read: `i & 1` and `i >> 1` at an
-- integer that is not negative.
unfoldable pub set_note : Note → ℤ → Result NoteError Note
set_note s (negsuc zero) = ok (record s { replicate = false })
set_note s (negsuc (suc n)) = err negative_number
set_note s (pos i) = ok (record { seq = pos (i / 2); replicate = true; receive = not (i % 2 == 1) })

-- `Note.UnmarshalJSON`: the note that it is called on keeps what is not assigned.
unfoldable pub unmarshal_note : Note → List ℕ → Result NoteError Note
unfolding set_note
unmarshal_note s input = elim (parse_int input) [
  | none ↦ err not_an_integer
  | some i ↦ set_note s i
]

-- The key is the canonical text of a feed reference.
abbrev pub NetworkFrontierMap : Type 0
NetworkFrontierMap = GoMap String Note

-- A JSON object whose members are integers: the names with the texts of the numbers.
abbrev pub JsonObject : Type 0
JsonObject = List (String × List ℕ)

-- `json.Marshal` of a map of notes.
unfoldable pub encode_notes : NetworkFrontierMap → JsonObject
encode_notes [] = []
encode_notes ((feed, s) ∷ m) = (feed, marshal_note s) ∷ encode_notes m

-- `json.Unmarshal` into a map of notes: a later member of one name overwrites an earlier one.
unfoldable pub decode_notes : JsonObject → NetworkFrontierMap → Result NoteError NetworkFrontierMap
decode_notes [] m = ok m
decode_notes ((feed, text) ∷ o) m = elim (unmarshal_note zero_note text) [
  | err e ↦ err e
  | ok s ↦ decode_notes o (insert feed s m)
]

-- `refs.ParseFeedRef`, which belongs to another package, is the parameter.
module _ {Feed : Type 0} (parse_feed_ref : String → Option Feed) where
  -- The loop of both methods: entries whose key is no feed reference are skipped.
  unfoldable pub copy_valid : NetworkFrontierMap → NetworkFrontierMap → NetworkFrontierMap
  copy_valid [] m = m
  copy_valid ((feed, s) ∷ from) m =
      copy_valid from (if is_some (parse_feed_ref feed) then insert feed s m else m)

  -- `NetworkFrontier.MarshalJSON`
  unfoldable pub marshal_frontier : NetworkFrontierMap → JsonObject
  unfolding copy_valid encode_notes
  marshal_frontier frontier = encode_notes (copy_valid frontier [])

  -- `NetworkFrontier.UnmarshalJSON`
  unfoldable pub unmarshal_frontier : JsonObject → Result NoteError NetworkFrontierMap
  unfolding copy_valid decode_notes
  unmarshal_frontier b = elim (decode_notes b []) [
    | err e ↦ err e
    | ok dummy ↦ ok (copy_valid dummy [])
  ]
