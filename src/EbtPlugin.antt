-- ===== src/EbtPlugin.antt =====
-- plugins/ebt/statetracking.go: what is sent to a peer, and the sink that keeps track of it.
-- The network below the sink is the parameter `lower`: the result of writing a packet, `none` for an
-- error. The packets written to it are kept in `sent`, the last one first.
pub mod Sink
use mathlib.Core.Option
use metalife_pub.Prelude.{
  ℕ, zero, suc, ◌+◌, ◌-◌, ◌*◌, ◌/◌, ◌%◌, ◌^◌, ◌<◌, ◌≤◌, List, [], ◌∷◌, ◌++◌, map, Memᴰ, Option,
  none, some, Bool, true, false, not, ◌==◌, ltb, leb, ◌&&◌, ◌||◌, if◌then◌else◌, ◌≡◌, ◌≢◌, ◌↔◌, ◌⊎◌,
  inl, inr, refl, sym, ap, subst, ◌∙◌, arith, Bool-cases, Option-cases, String, Eq, eqb, eqb_iff,
  eqb_refl, eqb_comm, eqb_ne, string_eq, pair_eq, bool_eq, or_else, is_some, length,
}
use metalife_pub.Prelude.Int.{ℤ, pos, negsuc, ltb_ℤ, ◌+ℤ◌}
use metalife_pub.Prelude.Int64.{to_uint64, to_int64, to_int64_id, IsInt64}
use metalife_pub.GoMap.{GoMap, lookup, insert, delete}
use metalife_pub.GoMap.Laws.{
  lookup-insert, lookup-insert_self, lookup-delete, Distinct, insert-Distinct, delete-Distinct,
  mem_of_lookup, lookup_of_mem, AllValues, insert-AllValues, overwrite_step, overwrite_step_same,
  lookup-cons_ne, lookup-cons, lookup-nil,
}
use metalife_pub.Refs.{Refs}
use metalife_pub.Ebt.{Note, NetworkFrontierMap}
use metalife_pub.StateMatrix.{StateMatrix, Outcome, ok, err, panic, Os, M, ◌>>=◌}
use metalife_pub.StateMatrix.Queries.{changed, wants_feed_with_seq}
use metalife_pub.StateMatrix.Changes.{update_sequences}

pub record World : Type 0 where
  pub matrix : StateMatrix
  pub sent : List (List ℕ)

-- The results of `Write`: the count of bytes, or an error.
pub data Written : Type 0 where
  wrote : ℕ → Written
  failed : Written
  panicked : Written

module _ (r : Refs) (os : Os) where
  open r use {Feed, string, parse_feed_ref, algo}

  pub record StateTrackingSink : Type 0 where
    pub peer : Feed
    pub author : Feed
    pub sequence : ℤ

  -- The end of `Write`, after the packet is on the network.
  track : StateTrackingSink → ℕ → World → Written × StateTrackingSink × World
  track sink n w =
      let sink' = record sink { sequence = to_int64 (sink.sequence +ℤ pos 1) } in
      let (o, matrix) =
        update_sequences r os sink.peer ((sink.author, sink'.sequence) ∷ []) w.matrix in
      let w' = record w { matrix = matrix } in
      elim o [
        | ok _ ↦ (wrote n, sink', w')
        | err _ ↦ (failed, sink', w')
        | panic ↦ (panicked, sink', w')
      ]

  -- `stateTrackingSink.Write`
  unfoldable pub write :
      (List ℕ → Option ℕ) → List ℕ → StateTrackingSink → World → Written × StateTrackingSink × World
  unfolding track
  write lower p sink w =
      let (wants, matrix) = wants_feed_with_seq r os sink.peer sink.author sink.sequence w.matrix in
      let asked = record w { matrix = matrix } in
      elim wants [
        | err _ ↦ (failed, sink, asked)
        | panic ↦ (panicked, sink, asked)
        | ok false ↦ (wrote 0, sink, asked)
        | ok true ↦ elim (lower p) [
          | none ↦ (failed, sink, asked)
          | some n ↦ track sink n (record asked { sent = p ∷ asked.sent })
        ]
      ]

  -- The packets of a stream, in order, as long as no write fails.
  unfoldable pub write_all :
      (List ℕ → Option ℕ) → List (List ℕ) → StateTrackingSink → World → StateTrackingSink × World
  unfolding write
  write_all lower [] sink w = (sink, w)
  write_all lower (p ∷ ps) sink w =
      let (n, sink', w') = write lower p sink w in
      let rest = write_all lower ps sink' w' in
      elim n [ wrote _ ↦ rest | failed ↦ (sink', w') | panicked ↦ (sink', w') ]

  -- `loadState`: what we tell a peer, where we never ask for our own feed.
  abbrev pub stop_receiving : Option Note → String → NetworkFrontierMap → NetworkFrontierMap
  stop_receiving none self m = m
  stop_receiving (some n) self m = insert self (record n { receive = false }) m

  abbrev pub without_own :
      Feed → Outcome NetworkFrontierMap × StateMatrix → Outcome NetworkFrontierMap × StateMatrix
  without_own self (ok curr, s) =
      (ok (stop_receiving (lookup (string self) curr) (string self) curr), s)
  without_own self (err e, s) = (err e, s)
  without_own self (panic, s) = (panic, s)

  unfoldable pub load_state :
      Feed → Feed → String → StateMatrix → Option (Outcome NetworkFrontierMap × StateMatrix)
  unfolding changed
  load_state self remote format s =
      Option.map (λ x. without_own self x) (changed r os self remote format s)

  -- `filterRelevantNotes`: the notes to serve, under their feeds, and the feeds that are
  -- unsubscribed, in the order of the calls. `none` is the panic on a key that is no reference.
  unfoldable pub filter_relevant_notes :
      String → NetworkFrontierMap → Option (List (Feed × Note) × List Feed)
  filter_relevant_notes format [] = some ([], [])
  filter_relevant_notes format ((key, their) ∷ all) = elim (parse_feed_ref key) [
    | none ↦ none
    | some feed ↦ elim (filter_relevant_notes format all) [
      | none ↦ none
      | some (filtered, stopped) ↦
          if not (eqb (algo feed) format)
          then some (filtered, stopped)
          else if not their.replicate
          then some (filtered, feed ∷ stopped)
          else if not their.receive
          then some (filtered, feed ∷ stopped)
          else some ((feed, their) ∷ filtered, stopped)
    ]
  ]
