-- ===== src/StateMatrix/Update.antt =====
-- The operations that change one frontier: `Update`, `Fill` and `UpdateSequences`.

use metalife_pub.Prelude.{
  List, [], ◌∷◌, Option, none, some, false, ◌&&◌, if◌then◌else◌, ◌≡◌, inl, inr, ◌∙◌, arith,
  Bool-cases, String, eqb, eqb_iff, eqb_refl, string_eq, pair_eq, bool_eq, or_else,
}
use metalife_pub.GoMap.{lookup, insert, delete}
use metalife_pub.GoMap.Laws.{
  lookup-insert, lookup-delete, Distinct, overwrite_step_same, lookup-cons, lookup-nil,
}
use metalife_pub.Refs.{Refs}
use metalife_pub.Ebt.{Note, NetworkFrontierMap}
use metalife_pub.StateMatrix.{StateMatrix, ok, Os, store_frontier, held, load_frontier}
use metalife_pub.StateMatrix.Changes.{overwrite, update, fill, fill_notes}
use metalife_pub.StateMatrix.Held.{held-store_frontier, held-load_frontier_ne, disk-load_frontier}

lookup-overwrite :
    (feed : String) (notes m : NetworkFrontierMap)
    → Distinct notes
    → lookup feed (overwrite notes m) ≡ or_else (lookup feed notes) (lookup feed m)
unfolding overwrite
lookup-overwrite feed [] m d = ground (arith, lookup-nil {V = Note} feed)
lookup-overwrite feed ((f, n) ∷ notes) m d =
    lookup-overwrite feed notes (insert f n m) d.1 ∙ overwrite_step_same feed f n notes m d.0

disk-store_frontier :
    (peer format : String) (nf : NetworkFrontierMap) (s : StateMatrix)
    → (store_frontier peer format nf s).disk ≡ s.disk
unfolding store_frontier
disk-store_frontier peer format nf s = ground arith

module _ (r : Refs) (os : Os) where
  open r use {Feed, string, algo}

  -- `Update` succeeds whenever the frontier of `who` can be loaded. It returns the frontier that the
  -- matrix then holds: the notes of the update, and the old ones for feeds that the update does not
  -- name. The frontiers of all other peers and formats and the files stay as they were.
  pub update_lem :
      (who : Feed) (notes old : NetworkFrontierMap) (format : String) (s s0 : StateMatrix)
      → Distinct notes
      → load_frontier r os who format s ≡ (ok old, s0)
      → (nf : NetworkFrontierMap) × (s' : StateMatrix) × (update r os who notes format s
          ≡ (ok nf, s'))
        × (held (string who) format s' ≡ some nf)
        × ((feed : String) → lookup feed nf ≡ or_else (lookup feed notes) (lookup feed old))
        × ((p f : String) → (eqb format f && eqb (string who) p) ≡ false → held p f s' ≡ held p f s)
        × (s'.disk ≡ s.disk)
  unfolding update
  update_lem who notes old format s s0 d h =
      let nf = overwrite notes old in
      (
        nf,
        store_frontier (string who) format nf s0,
        ground arith,
        ground (
          arith,
          held-store_frontier (string who) format (string who) format nf s0,
          eqb_refl (string who),
          eqb_refl format,
        ),
        λ feed. lookup-overwrite feed notes old d,
        λ p f ne. ground (
          arith,
          held-store_frontier (string who) format p f nf s0,
          held-load_frontier_ne r os who format p f old s s0 h ne,
        ),
        disk-store_frontier (string who) format nf s0
            ∙ disk-load_frontier r os who format old s s0 h,
      )

  -- The notes under their map keys.
  abbrev pub keyed : List (Feed × Note) → NetworkFrontierMap
  keyed [] = []
  keyed ((feed, note) ∷ feeds) = (string feed, note) ∷ keyed feeds

  abbrev pub filled : Option Note → Option Note → Option Note
  filled none old = old
  filled (some n) old = if n.replicate then some n else none

  lookup-fill_notes :
      (k : String) (feeds : List (Feed × Note)) (nf : NetworkFrontierMap)
      → Distinct (keyed feeds)
      → lookup k (fill_notes r os feeds nf) ≡ filled (lookup k (keyed feeds)) (lookup k nf)
  unfolding fill_notes
  lookup-fill_notes k [] nf d = ground (arith, lookup-nil {V = Note} k)
  lookup-fill_notes k ((feed, n) ∷ feeds) nf d = elim (Bool-cases n.replicate) [
    | inl keep ↦ ground (
      arith,
      keep,
      lookup-fill_notes k feeds (insert (string feed) n nf) d.1,
      lookup-insert (string feed) k n nf,
      lookup-cons k (string feed) n (keyed feeds),
      eqb_iff (string feed) k,
    )
    | inr drop ↦ ground (
      arith,
      drop,
      lookup-fill_notes k feeds (delete (string feed) nf) d.1,
      lookup-delete (string feed) k nf,
      lookup-cons k (string feed) n (keyed feeds),
      eqb_iff (string feed) k,
      d.0,
    )
  ]

  -- `Fill` with at least one feed, each named once, succeeds whenever the frontier of `who` can be
  -- loaded. A feed with a replicating note has that note afterwards, one with a note that does not
  -- replicate has none, and the other feeds, peers, formats and files stay as they were.
  pub fill_lem :
      (who feed : Feed) (note : Note) (feeds : List (Feed × Note)) (old : NetworkFrontierMap)
      (s s0 : StateMatrix)
      → Distinct (keyed ((feed, note) ∷ feeds))
      → load_frontier r os who (algo feed) s ≡ (ok old, s0)
      → (nf : NetworkFrontierMap) × (s' : StateMatrix) × (fill r os who ((feed, note) ∷ feeds) s
          ≡ (ok tt, s'))
        × (held (string who) (algo feed) s' ≡ some nf)
        × ((k : String)
            → lookup k nf ≡ filled (lookup k (keyed ((feed, note) ∷ feeds))) (lookup k old))
        × ((p f : String)
            → (eqb (algo feed) f && eqb (string who) p) ≡ false
            → held p f s' ≡ held p f s)
        × (s'.disk ≡ s.disk)
  unfolding fill
  fill_lem who feed note feeds old s s0 d h =
      let format = algo feed in
      let nf = fill_notes r os ((feed, note) ∷ feeds) old in
      (
        nf,
        store_frontier (string who) format nf s0,
        ground arith,
        ground (
          arith,
          held-store_frontier (string who) format (string who) format nf s0,
          eqb_refl (string who),
          eqb_refl format,
        ),
        λ k. lookup-fill_notes k ((feed, note) ∷ feeds) old d,
        λ p f ne. ground (
          arith,
          held-store_frontier (string who) format p f nf s0,
          held-load_frontier_ne r os who format p f old s s0 h ne,
        ),
        disk-store_frontier (string who) format nf s0
            ∙ disk-load_frontier r os who format old s s0 h,
      )
