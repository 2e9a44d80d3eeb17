-- ===== src/StateMatrix/Compare.antt =====
-- What is asked of two frontiers: `Changed` and `HasLonger`.

use metalife_pub.Prelude.{
  [], ◌∷◌, Option, none, some, Bool, ◌&&◌, ◌||◌, if◌then◌else◌, ◌≡◌, inl, inr, arith, Option-cases,
  String, eqb, eqb_iff, string_eq, pair_eq, bool_eq, or_else, is_some,
}
use metalife_pub.GoMap.{lookup, insert}
use metalife_pub.GoMap.Laws.{lookup-insert, Distinct, lookup-cons, lookup-nil}
use metalife_pub.Refs.{Refs}
use metalife_pub.Ebt.{Note, NetworkFrontierMap}
use metalife_pub.StateMatrix.{StateMatrix, ok, Os, held, load_frontier}
use metalife_pub.StateMatrix.Queries.{relevant, changed}

module _ (r : Refs) (os : Os) where
  open r use {Feed, string, algo, parse_feed_ref}

  -- Whether we tell `peer` about a feed, by their note on it and ours.
  abbrev pub tells : Bool → Option Note → Note → Bool
  tells is_peer none my_note = my_note.receive
  tells is_peer (some their_note) my_note = their_note.replicate && (their_note.receive || is_peer)

  abbrev pub kept : Bool → Option Note → Option Note → Option Note
  kept is_peer theirs none = none
  kept is_peer theirs (some my_note) = if tells is_peer theirs my_note then some my_note else none

  lookup-relevant :
      (peer : Feed) (k : String) (theirs ours m : NetworkFrontierMap)
      → Distinct ours
      → lookup k (relevant r os peer theirs ours m)
        ≡ or_else (kept (eqb k (string peer)) (lookup k theirs) (lookup k ours)) (lookup k m)
  unfolding relevant
  lookup-relevant peer k theirs [] m d = ground (arith, lookup-nil {V = Note} k)
  lookup-relevant peer k theirs ((feed, mine) ∷ ours) m d =
      elim (Option-cases (lookup feed theirs)) [
        | inl missing ↦ ground (
          arith,
          missing,
          lookup-relevant peer k theirs ours m d.1,
          lookup-relevant peer k theirs ours (insert feed mine m) d.1,
          lookup-insert feed k mine m,
          lookup-cons k feed mine ours,
          eqb_iff feed k,
          d.0,
        )
        | inr (n, found) ↦ ground (
          arith,
          found,
          lookup-relevant peer k theirs ours m d.1,
          lookup-relevant peer k theirs ours (insert feed mine m) d.1,
          lookup-insert feed k mine m,
          lookup-cons k feed mine ours,
          eqb_iff feed k,
          d.0,
        )
      ]

  -- Where the loads of our frontier and then of the peer's succeed, `Changed` leaves the matrix as the
  -- loads do and returns exactly our notes on these feeds: those that the peer has no note on, if we
  -- want to receive them, and those that the peer replicates, if the peer wants to receive them or
  -- they are its own feed. Only if the peer is ourselves and our frontier is in memory after its
  -- load, `Changed` never returns, as it locks the frontier twice.
  pub changed_lem :
      (self peer : Feed) (format : String) (ours theirs : NetworkFrontierMap)
      (s s1 s2 : StateMatrix)
      → Distinct ours
      → load_frontier r os self format s ≡ (ok ours, s1)
      → load_frontier r os peer format s1 ≡ (ok theirs, s2)
      → (nf : NetworkFrontierMap) × (changed r os self peer format s ≡ (
          if eqb (string self) (string peer) && is_some (held (string self) format s1)
          then none
          else some (ok nf, s2)))
        × ((k : String)
            → lookup k nf ≡ kept (eqb k (string peer)) (lookup k theirs) (lookup k ours))
  unfolding changed
  changed_lem self peer format ours theirs s s1 s2 d h g =
      let nf = relevant r os peer theirs ours [] in
      (
        nf,
        ground (arith, h, g),
        λ k. ground (arith, lookup-relevant peer k theirs ours [] d, lookup-nil {V = Note} k),
      )
