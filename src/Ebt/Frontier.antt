-- ===== src/Ebt/Frontier.antt =====
-- A frontier read back from its JSON object.
use mathlib.Core.Option
use metalife_pub.Prelude.{
  [], ◌∷◌, Option, none, Bool, String, string_eq, or_else, is_some, if◌then◌else◌, ok, ◌≡◌, refl,
  ◌∙◌, arith, Bool-cases, inl, inr, eqb_iff,
}
use metalife_pub.GoMap.{lookup, insert}
use metalife_pub.GoMap.Laws.{
  lookup-insert, Distinct, insert-Distinct, AllValues, insert-AllValues, overwrite_step,
  overwrite_step_same, lookup-cons_ne, lookup-nil,
}
use metalife_pub.Ebt.{
  Note, zero_note, NetworkFrontierMap, encode_notes, decode_notes, copy_valid, marshal_frontier,
  unmarshal_frontier,
}
use metalife_pub.Ebt.Codec.{IsEncodable, received, unmarshal_note-marshal_note}

-- What decoding an encoded map does to the map decoded into.
restore : NetworkFrontierMap → NetworkFrontierMap → NetworkFrontierMap
restore [] m = m
restore ((feed, s) ∷ from) m = restore from (insert feed (received zero_note s) m)

decode_notes-encode_notes :
    (from m : NetworkFrontierMap)
    → AllValues IsEncodable from
    → decode_notes (encode_notes from) m ≡ ok (restore from m)
unfolding decode_notes encode_notes restore
decode_notes-encode_notes [] m h = refl
decode_notes-encode_notes ((feed, s) ∷ from) m h =
    rw (unmarshal_note-marshal_note zero_note s h.0, decode_notes)
      (decode_notes-encode_notes from (insert feed (received zero_note s) m) h.1)

lookup-restore :
    (feed : String) (from m : NetworkFrontierMap)
    → Distinct from
    → lookup feed (restore from m)
      ≡ or_else (Option.map (received zero_note) (lookup feed from)) (lookup feed m)
unfolding restore lookup
lookup-restore feed [] m h = refl
lookup-restore feed ((f, s) ∷ from) m h =
    lookup-restore feed from (insert f (received zero_note s) m) h.1
    ∙ overwrite_step (received zero_note) feed f s from m h.0

restore-Distinct : (from m : NetworkFrontierMap) → Distinct m → Distinct (restore from m)
unfolding restore
restore-Distinct [] m h = h
restore-Distinct ((f, s) ∷ from) m h =
    restore-Distinct from (insert f (received zero_note s) m)
      (insert-Distinct f (received zero_note s) m h)

module _ {Feed : Type 0} (parse_feed_ref : String → Option Feed) where
  abbrev valid : String → Bool
  valid f = is_some (parse_feed_ref f)

  pub lookup-copy_valid :
      (feed : String) (from m : NetworkFrontierMap)
      → Distinct from
      → lookup feed (copy_valid parse_feed_ref from m)
        ≡ (if valid feed then or_else (lookup feed from) (lookup feed m) else lookup feed m)
  unfolding copy_valid
  lookup-copy_valid feed [] m h = unfold lookup in ground arith
  lookup-copy_valid feed ((f, s) ∷ from) m h = ground (
    arith,
    lookup-copy_valid feed from (insert f s m) h.1,
    lookup-copy_valid feed from m h.1,
    overwrite_step_same feed f s from m h.0,
    lookup-insert f feed s m,
    lookup-cons_ne feed f s from,
    eqb_iff f feed,
  )

  copy_valid-Distinct :
      (from m : NetworkFrontierMap) → Distinct m → Distinct (copy_valid parse_feed_ref from m)
  unfolding copy_valid
  copy_valid-Distinct [] m h = h
  copy_valid-Distinct ((f, s) ∷ from) m h = elim (Bool-cases (valid f)) [
    | inl good ↦ rw good (copy_valid-Distinct from (insert f s m) (insert-Distinct f s m h))
    | inr bad ↦ rw bad (copy_valid-Distinct from m h)
  ]

  copy_valid-AllValues :
      (P : Note → Type 0) (from m : NetworkFrontierMap)
      → AllValues P from
      → AllValues P m
      → AllValues P (copy_valid parse_feed_ref from m)
  unfolding copy_valid
  copy_valid-AllValues P [] m h g = g
  copy_valid-AllValues P ((f, s) ∷ from) m h g = elim (Bool-cases (valid f)) [
    | inl good ↦
        rw good (copy_valid-AllValues P from (insert f s m) h.1 (insert-AllValues P f s m h.0 g))
    | inr bad ↦ rw bad (copy_valid-AllValues P from m h.1 g)
  ]

  -- A frontier with encodable notes survives the network: the peer decodes the same feeds but for
  -- those whose key is no feed reference, each with the note as `received` has it.
  pub unmarshal_frontier-marshal_frontier :
      (frontier : NetworkFrontierMap)
      → Distinct frontier
      → AllValues IsEncodable frontier
      → (theirs : NetworkFrontierMap) × (unmarshal_frontier parse_feed_ref
            (marshal_frontier parse_feed_ref frontier)
          ≡ ok theirs)
        × ((feed : String)
            → lookup feed theirs ≡ (
                if is_some (parse_feed_ref feed)
                then Option.map (received zero_note) (lookup feed frontier)
                else none))
  unfolding unmarshal_frontier marshal_frontier
  unmarshal_frontier-marshal_frontier frontier d enc =
      let filtered = copy_valid parse_feed_ref frontier [] in
      let dummy = restore filtered [] in
      let decoded =
        decode_notes-encode_notes filtered []
          (copy_valid-AllValues IsEncodable frontier [] enc tt) in
      (
        copy_valid parse_feed_ref dummy [],
        rw (decoded, unmarshal_frontier),
        λ feed. ground (
          arith,
          lookup-copy_valid feed dummy [] (restore-Distinct filtered [] tt),
          lookup-restore feed filtered [] (copy_valid-Distinct frontier [] tt),
          lookup-copy_valid feed frontier [] d,
          lookup-nil {V = Note} feed,
        ),
      )

  -- Notes that were written without the filter are filtered where they are read.
  pub unmarshal_frontier-encode_notes :
      (frontier : NetworkFrontierMap)
      → Distinct frontier
      → AllValues IsEncodable frontier
      → (read : NetworkFrontierMap) × (unmarshal_frontier parse_feed_ref (encode_notes frontier)
          ≡ ok read)
        × ((feed : String)
            → lookup feed read ≡ (
                if is_some (parse_feed_ref feed)
                then Option.map (received zero_note) (lookup feed frontier)
                else none))
  unfolding unmarshal_frontier
  unmarshal_frontier-encode_notes frontier d enc =
      let dummy = restore frontier [] in
      (
        copy_valid parse_feed_ref dummy [],
        rw (decode_notes-encode_notes frontier [] enc, unmarshal_frontier),
        λ feed. ground (
          arith,
          lookup-copy_valid feed dummy [] (restore-Distinct frontier [] tt),
          lookup-restore feed frontier [] d,
          lookup-nil {V = Note} feed,
        ),
      )
