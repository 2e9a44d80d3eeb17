-- ===== src/StateMatrix.antt =====
-- internal/statematrix/store.go: the network frontiers of all peers, in memory and on disk.
-- The frontiers that Go shares by pointer are values here: a change of one is written back to the
-- matrix where the pointer is held by it. The locks are left out.
pub mod Queries
pub mod Changes
pub mod Compare
pub mod Lists
pub mod Persist
pub mod Held
pub mod Sequences
pub mod Update
use metalife_pub.Prelude.{
  ℕ, List, [], ◌∷◌, Option, none, some, Bool, true, false, not, ◌&&◌, ◌||◌, if◌then◌else◌, ◌++◌,
  String, Eq, string_eq, bool_eq, pair_eq, eqb, Result, is_some,
}
use metalife_pub.Prelude.Int.{ℤ, pos, ltb_ℤ, ◌+ℤ◌}
use metalife_pub.Prelude.Int64.{to_int64, to_uint64}
use metalife_pub.GoMap.{GoMap, lookup, insert, delete}
use metalife_pub.Refs.{Refs}
use metalife_pub.Ebt.{
  Note, zero_note, NoteError, NetworkFrontierMap, JsonObject, encode_notes, unmarshal_frontier,
}

-- The hexadecimal storage key of the peer, the format, and whether ".new" is appended.
abbrev pub FileName : Type 0
FileName = (String × String) × Bool

-- What a file holds: a JSON object with integers for members, or what does not parse as one.
pub data File : Type 0 where
  json : JsonObject → File
  malformed : File

pub record StateMatrix : Type 0 where
  -- whoami
  pub self : String
  -- format, then peer reference
  pub open_frontiers : GoMap String (GoMap String NetworkFrontierMap)
  -- the files below `basePath`
  pub disk : GoMap FileName File

pub data Error : Type 0 where
  tfk_failed os_failed invalid_json parse_failed mixed_formats : Error
  invalid_note : NoteError → Error

-- The results of a method: a panic ends the program.
pub data Outcome {ℓ} (A : Type ℓ) : Type ℓ where
  ok : A → Outcome A
  err : Error → Outcome A
  panic : Outcome A

abbrev pub M {ℓ} : Type ℓ → Type ℓ
M A = StateMatrix → Outcome A × StateMatrix

infixl 5 ◌>>=◌
abbrev pub ◌>>=◌ {ℓ κ} : {A : Type ℓ} {B : Type κ} → M A → (A → M B) → M B
◌>>=◌ m f s =
    let (o, s') = m s in elim o [ ok a ↦ f a s' | err e ↦ (err e, s') | panic ↦ (panic, s') ]

-- Which calls of the operating system fail, for another reason than that the file is not there.
pub record Os : Type 0 where
  pub open_fails : FileName → Bool
  pub write_fails : FileName → Bool
  pub rename_fails : FileName → Bool

-- `formatMap[peer] = nf; sm.open[format] = formatMap`, with a new map for a new format.
unfoldable pub store_frontier : String → String → NetworkFrontierMap → StateMatrix → StateMatrix
store_frontier peer format nf s = elim (lookup format s.open_frontiers) [
  | none ↦ record s { open_frontiers = insert format ((peer, nf) ∷ []) s.open_frontiers }
  | some format_map ↦ record s {
    open_frontiers = insert format (insert peer nf format_map) s.open_frontiers;
  }
]

-- A change through the pointer `nf` that `loadFrontier` returned: it shows in the matrix if the
-- format has a map there.
unfoldable pub write_through : String → String → NetworkFrontierMap → StateMatrix → StateMatrix
unfolding store_frontier
write_through peer format nf s =
    if is_some (lookup format s.open_frontiers) then store_frontier peer format nf s else s

-- What the matrix holds in memory.
unfoldable pub held : String → String → StateMatrix → Option NetworkFrontierMap
held peer format s = elim (lookup format s.open_frontiers) [
  | none ↦ none
  | some format_map ↦ lookup peer format_map
]

-- `delete(sm.open[format], peer)`
unfoldable pub close_frontier : String → String → StateMatrix → StateMatrix
close_frontier peer format s = elim (lookup format s.open_frontiers) [
  | none ↦ s
  | some format_map ↦ record s {
    open_frontiers = insert format (delete peer format_map) s.open_frontiers;
  }
]

module _ (r : Refs) (os : Os) where
  open r use {Feed, string, parse_feed_ref, algo, hex_tfk, feed_ssb1, feed_gabby, feed_bendy_butt}

  -- `StateFileName`
  unfoldable pub state_file_name : Feed → String → Option FileName
  state_file_name peer format = elim (hex_tfk peer) [
    | none ↦ none
    | some hex ↦ some ((hex, format), false)
  ]

  -- `json.NewDecoder(peerFile).Decode(&curr)`
  unfoldable pub decode_file : File → Outcome NetworkFrontierMap
  decode_file malformed = err invalid_json
  decode_file (json o) = elim (unmarshal_frontier parse_feed_ref o) [
    | Result.err e ↦ err (invalid_note e)
    | Result.ok curr ↦ ok curr
  ]

  -- The part of `loadFrontier` after the matrix was found to hold no frontier of the peer. For a
  -- peer with no file the new frontier is put into the format's map, which the matrix holds only if
  -- it did before.
  unfoldable pub load_file : Feed → String → M NetworkFrontierMap
  unfolding state_file_name decode_file store_frontier write_through
  load_file peer format s = elim (state_file_name peer format) [
    | none ↦ (err tfk_failed, s)
    | some name ↦ if os.open_fails name then (err os_failed, s) else elim (lookup name s.disk) [
      | none ↦ (ok [], write_through (string peer) format [] s)
      | some file ↦ elim (decode_file file) [
        | ok curr ↦ (ok curr, store_frontier (string peer) format curr s)
        | err e ↦ (err e, s)
        | panic ↦ (panic, s)
      ]
    ]
  ]

  unfoldable pub load_frontier : Feed → String → M NetworkFrontierMap
  unfolding load_file held
  load_frontier peer format s = elim (held (string peer) format s) [
    | some curr ↦ (ok curr, s)
    | none ↦ load_file peer format s
  ]

  load_formats : Feed → M (Unit {0})
  unfolding load_frontier
  load_formats self = do
    _ ← load_frontier self feed_ssb1
    _ ← load_frontier self feed_gabby
    _ ← load_frontier self feed_bendy_butt
    λ s. (ok tt, s)

  -- `New`, over the files that are there: the three formats are loaded in turn.
  unfoldable pub new : Feed → GoMap FileName File → Outcome (Unit {0}) × StateMatrix
  unfolding load_formats
  new self disk =
      load_formats self (record { self = string self; open_frontiers = []; disk = disk })

  unfoldable pub inspect : Feed → String → M NetworkFrontierMap
  unfolding load_frontier
  inspect peer format = load_frontier peer format

  -- The frontier is written to a new file, which then replaces the old one.
  unfoldable pub save : Feed → String → M (Unit {0})
  unfolding held state_file_name
  save peer format s = elim (held (string peer) format s) [
    | none ↦ (ok tt, s)
    | some nf ↦ elim (state_file_name peer format) [
      | none ↦ (err tfk_failed, s)
      | some name ↦
          let new_name : FileName = (name.0, true) in
          let written = record s { disk = insert new_name (json (encode_notes nf)) s.disk } in
          if os.write_fails new_name
          then (err os_failed, s)
          else if os.rename_fails new_name
          then (err os_failed, written)
          else (
            ok tt,
            record s { disk = insert name (json (encode_notes nf)) (delete new_name s.disk) },
          )
    ]
  ]

  unfoldable pub save_and_close : String → String → M (Unit {0})
  unfolding save close_frontier
  save_and_close peer format s = elim (parse_feed_ref peer) [
    | none ↦ (err parse_failed, s)
    | some parsed ↦ (do _ ← save parsed format; λ s'. (ok tt, close_frontier peer format s')) s
  ]

  close_peers : String → GoMap String NetworkFrontierMap → M (Unit {0})
  unfolding save_and_close
  close_peers format [] s = (ok tt, s)
  close_peers format ((peer, nf) ∷ peers) s =
      (do _ ← save_and_close peer format; close_peers format peers) s

  close_formats : GoMap String (GoMap String NetworkFrontierMap) → M (Unit {0})
  unfolding close_peers
  close_formats [] s = (ok tt, s)
  close_formats ((format, peers) ∷ formats) s =
      (do _ ← close_peers format peers; close_formats formats) s

  -- `Close`
  unfoldable pub close : M (Unit {0})
  unfolding close_formats
  close s = close_formats s.open_frontiers s
