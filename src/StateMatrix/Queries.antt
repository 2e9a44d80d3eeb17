-- ===== src/StateMatrix/Queries.antt =====
-- internal/statematrix/store.go: what is asked of the matrix, `HasLonger`, `WantsList`, `WantsFeed`,
-- `WantsFeedWithSeq` and `Changed`.
use metalife_pub.Prelude.{
  ℕ, List, [], ◌∷◌, Option, none, some, Bool, true, false, not, ◌&&◌, if◌then◌else◌, ◌++◌, String,
  string_eq, bool_eq, pair_eq, eqb, is_some,
}
use metalife_pub.Prelude.Int.{ℤ, pos, ltb_ℤ, ◌+ℤ◌}
use metalife_pub.Prelude.Int64.{to_int64, to_uint64}
use metalife_pub.GoMap.{GoMap, lookup, insert}
use metalife_pub.Refs.{Refs}
use metalife_pub.Ebt.{Note, zero_note, NetworkFrontierMap}
use metalife_pub.StateMatrix.{
  StateMatrix, Outcome, ok, err, panic, parse_failed, Os, M, ◌>>=◌, held, load_frontier,
}

-- `if err != nil { return nil, err }` before an append, in a loop that collects.
abbrev pub cons? {ℓ} : {A : Type ℓ} → Option A → List A → List A
cons? none xs = xs
cons? (some x) xs = x ∷ xs

abbrev pub add_entry {ℓ} : {A : Type ℓ} → Outcome (Option A) → Outcome (List A) → Outcome (List A)
add_entry (ok o) (ok xs) = ok (cons? o xs)
add_entry (ok o) (err e) = err e
add_entry (ok o) panic = panic
add_entry (err e) rest = err e
add_entry panic rest = panic

abbrev pub add_entries {ℓ} : {A : Type ℓ} → Outcome (List A) → Outcome (List A) → Outcome (List A)
add_entries (ok ys) (ok xs) = ok (ys ++ xs)
add_entries (ok ys) (err e) = err e
add_entries (ok ys) panic = panic
add_entries (err e) rest = err e
add_entries panic rest = panic

pub record HasLongerResult (Feed : Type 0) : Type 0 where
  pub peer : Feed
  pub feed : Feed
  pub len : ℕ

module _ (r : Refs) (os : Os) where
  open r use {Feed, string, parse_feed_ref, algo, hex_tfk, feed_ssb1, feed_gabby, feed_bendy_butt}

  -- The body of the loops of `HasLonger`: the entry for one peer and one feed, if there is one.
  unfoldable pub longer_entry :
      String → NetworkFrontierMap → String → Note → Outcome (Option (HasLongerResult Feed))
  longer_entry peer theirs feed note = elim (lookup feed theirs) [
    | none ↦ ok none
    | some their_note ↦
        if ltb_ℤ note.seq their_note.seq
        then elim (parse_feed_ref peer) [
          | none ↦ err parse_failed
          | some p ↦ elim (parse_feed_ref feed) [
            | none ↦ err parse_failed
            | some f ↦ ok (some (record { peer = p; feed = f; len = to_uint64 their_note.seq }))
          ]
        ]
        else ok none
  ]

  -- The loop over our own entries, and the one over the peers.
  unfoldable pub longer_feeds :
      String → NetworkFrontierMap → NetworkFrontierMap → Outcome (List (HasLongerResult Feed))
  unfolding longer_entry
  longer_feeds peer theirs [] = ok []
  longer_feeds peer theirs ((feed, note) ∷ ours) =
      add_entry (longer_entry peer theirs feed note) (longer_feeds peer theirs ours)

  unfoldable pub longer_peers :
      NetworkFrontierMap → GoMap String NetworkFrontierMap → Outcome (List (HasLongerResult Feed))
  unfolding longer_feeds
  longer_peers ours [] = ok []
  longer_peers ours ((peer, theirs) ∷ peers) =
      add_entries (longer_feeds peer theirs ours) (longer_peers ours peers)

  -- `HasLonger`: the feeds of which a peer has more messages than we have.
  unfoldable pub has_longer : String → M (List (HasLongerResult Feed))
  unfolding longer_peers
  has_longer format s = elim (lookup format s.open_frontiers) [
    | none ↦ (ok [], s)
    | some format_map ↦ elim (lookup s.self format_map) [
      | none ↦ (ok [], s)
      | some self_nf ↦ (longer_peers self_nf format_map, s)
    ]
  ]

  unfoldable pub wanted_entry : String → Note → Outcome (Option Feed)
  wanted_entry feed note =
      if note.receive
      then elim (parse_feed_ref feed) [ none ↦ err parse_failed | some f ↦ ok (some f) ]
      else ok none

  -- The loop of `WantsList`.
  unfoldable pub wanted_feeds : NetworkFrontierMap → Outcome (List Feed)
  unfolding wanted_entry
  wanted_feeds [] = ok []
  wanted_feeds ((feed, note) ∷ nf) = add_entry (wanted_entry feed note) (wanted_feeds nf)

  -- `WantsList`
  unfoldable pub wants_list : Feed → String → M (List Feed)
  unfolding load_frontier wanted_feeds
  wants_list peer format = do nf ← load_frontier r os peer format; λ s. (wanted_feeds nf, s)

  abbrev pub wanted : Option Note → Note × Bool
  wanted none = (zero_note, false)
  wanted (some n) = (n, n.receive)

  -- `WantsFeed`
  unfoldable pub wants_feed : Feed → Feed → M (Note × Bool)
  unfolding load_frontier
  wants_feed peer feed = do
    nf ← load_frontier r os peer (algo feed)
    λ s. (ok (wanted (lookup (string feed) nf)), s)

  abbrev pub wants_next : Option Note → ℤ → Bool
  wants_next none seq = true
  wants_next (some n) seq = n.receive && ltb_ℤ n.seq (to_int64 (seq +ℤ pos 1))

  -- `WantsFeedWithSeq`
  unfoldable pub wants_feed_with_seq : Feed → Feed → ℤ → M Bool
  unfolding load_frontier
  wants_feed_with_seq peer feed seq = do
    nf ← load_frontier r os peer (algo feed)
    λ s. (ok (wants_next (lookup (string feed) nf) seq), s)

  -- The loop of `Changed`. A feed that the peer has no note for reads as the zero note.
  unfoldable pub relevant :
      Feed → NetworkFrontierMap → NetworkFrontierMap → NetworkFrontierMap → NetworkFrontierMap
  relevant peer theirs [] m = m
  relevant peer theirs ((feed, my_note) ∷ ours) m =
      relevant peer theirs ours (elim (lookup feed theirs) [
        | none ↦ if my_note.receive then insert feed my_note m else m
        | some their_note ↦
            if not their_note.replicate
            then m
            else if not their_note.receive && not (eqb feed (string peer))
            then m
            else insert feed my_note m
      ])

  -- Whether `selfNf.Lock()` and `peerNf.Lock()` lock one frontier, which both loads found in memory:
  -- the second call then never returns.
  abbrev pub locks_twice : Feed → Feed → String → StateMatrix → Bool
  locks_twice self peer format s =
      eqb (string self) (string peer) && is_some (held (string self) format s)

  -- `Changed`: what we want, less what the peer does not want to hear about; `none` where it never
  -- returns.
  unfoldable pub changed :
      Feed → Feed → String → StateMatrix → Option (Outcome NetworkFrontierMap × StateMatrix)
  unfolding load_frontier relevant held
  changed self peer format s =
      let (loaded, s1) = load_frontier r os self format s in
      elim loaded [
        | err e ↦ some (err e, s1)
        | panic ↦ some (panic, s1)
        | ok self_nf ↦
            if locks_twice self peer format s1
            then none
            else some (
                (do
                  peer_nf ← load_frontier r os peer format
                  λ s2. (ok (relevant peer peer_nf self_nf []), s2))
                  s1)
      ]
