-- ===== src/StateMatrix/Sequences.antt =====
-- `UpdateSequences`: what it changes, and when it panics.

use metalife_pub.Prelude.{
  List, [], ◌∷◌, Option, none, some, Bool, true, false, ◌&&◌, if◌then◌else◌, ◌≡◌, inl, inr, refl,
  ◌∙◌, arith, Option-cases, String, eqb, eqb_iff, eqb_refl, string_eq, pair_eq, bool_eq, is_some,
}
use metalife_pub.Prelude.Int.{ℤ}
use metalife_pub.GoMap.{GoMap, lookup, insert}
use metalife_pub.GoMap.Laws.{lookup-insert, Distinct, lookup-cons, lookup-nil}
use metalife_pub.Refs.{Refs}
use metalife_pub.Ebt.{Note, NetworkFrontierMap}
use metalife_pub.StateMatrix.{
  StateMatrix, ok, panic, Os, FileName, write_through, held, load_frontier, state_file_name,
}
use metalife_pub.StateMatrix.Changes.{set_sequences, finish_sequences, update_sequences}
use metalife_pub.StateMatrix.Held.{
  held-write_through, disk-write_through, load_missing, load_frontier_of_held, format_of_held,
}

module _ (r : Refs) (os : Os) where
  open r use {Feed, string, algo}

  abbrev pub OneFormat : String → List (Feed × ℤ) → Type 0
  OneFormat format [] = Unit
  OneFormat format ((feed, seq) ∷ feeds) = (algo feed ≡ format) × OneFormat format feeds

  -- The sequences under their map keys.
  abbrev pub sequences : List (Feed × ℤ) → GoMap String ℤ
  sequences [] = []
  sequences ((feed, seq) ∷ feeds) = (string feed, seq) ∷ sequences feeds

  abbrev pub with_seq : Option ℤ → Option Note → Option Note
  with_seq q none = none
  with_seq none (some n) = some n
  with_seq (some seq) (some n) = some (record n { seq = seq })

  set_one : Feed → ℤ → NetworkFrontierMap → NetworkFrontierMap
  set_one feed seq nf = elim (lookup (string feed) nf) [
    | none ↦ nf
    | some note ↦ insert (string feed) (record note { seq = seq }) nf
  ]

  lookup-set_one :
      (k : String) (feed : Feed) (seq : ℤ) (nf : NetworkFrontierMap)
      → lookup k (set_one feed seq nf)
        ≡ (if eqb (string feed) k then with_seq (some seq) (lookup k nf) else lookup k nf)
  unfolding set_one
  lookup-set_one k feed seq nf = elim (Option-cases (lookup (string feed) nf)) [
    | inl missing ↦ ground (arith, missing, eqb_iff (string feed) k)
    | inr (n, found) ↦ ground (
      arith,
      found,
      lookup-insert (string feed) k (record n { seq = seq }) nf,
      eqb_iff (string feed) k,
    )
  ]

  set_sequences-cons :
      (format : String) (feed : Feed) (seq : ℤ) (feeds : List (Feed × ℤ)) (nf : NetworkFrontierMap)
      → algo feed ≡ format
      → set_sequences r os format ((feed, seq) ∷ feeds) nf
        ≡ set_sequences r os format feeds (set_one feed seq nf)
  unfolding set_sequences set_one
  set_sequences-cons format feed seq feeds nf h = rw ((eqb_iff (algo feed) format).1 h)

  one_format :
      (format : String) (feeds : List (Feed × ℤ)) (nf : NetworkFrontierMap)
      → OneFormat format feeds
      → (set_sequences r os format feeds nf).1 ≡ false
  one_format format [] nf h = unfold set_sequences in refl
  one_format format ((feed, seq) ∷ feeds) nf h =
      rw (set_sequences-cons format feed seq feeds nf h.0)
        (one_format format feeds (set_one feed seq nf) h.1)

  lookup-set_sequences :
      (k format : String) (feeds : List (Feed × ℤ)) (nf : NetworkFrontierMap)
      → OneFormat format feeds
      → Distinct (sequences feeds)
      → lookup k (set_sequences r os format feeds nf).0
        ≡ with_seq (lookup k (sequences feeds)) (lookup k nf)
  lookup-set_sequences k format [] nf h d =
      unfold set_sequences in ground (arith, lookup-nil {V = ℤ} k)
  lookup-set_sequences k format ((feed, seq) ∷ feeds) nf h d = ground (
    arith,
    set_sequences-cons format feed seq feeds nf h.0,
    lookup-set_sequences k format feeds (set_one feed seq nf) h.1 d.1,
    lookup-set_one k feed seq nf,
    lookup-cons k (string feed) seq (sequences feeds),
    eqb_iff (string feed) k,
    d.0,
  )

  update_sequences_run :
      (who feed : Feed) (seq : ℤ) (feeds : List (Feed × ℤ)) (old : NetworkFrontierMap)
      (s s0 : StateMatrix)
      → load_frontier r os who (algo feed) s ≡ (ok old, s0)
      → update_sequences r os who ((feed, seq) ∷ feeds) s
        ≡ finish_sequences r os who
            (algo feed)
            (set_sequences r os (algo feed) ((feed, seq) ∷ feeds) old)
            s0
  unfolding update_sequences
  update_sequences_run who feed seq feeds old s s0 h = ground arith

  finish_sequences_lem :
      (who : Feed) (format : String) (result : NetworkFrontierMap × Bool) (s : StateMatrix)
      → result.1 ≡ false
      → finish_sequences r os who format result s ≡ (
          if is_some (lookup format s.open_frontiers)
          then (ok tt, write_through (string who) format result.0 s)
          else (panic, s))
  unfolding finish_sequences
  finish_sequences_lem who format (nf, false) s h = refl
  finish_sequences_lem who format (nf, true) s h = cc

  -- `UpdateSequences` with at least one feed, all of one format and each named once, on a matrix
  -- that holds the frontier of `who` for that format: it succeeds, gives each named feed that the
  -- frontier has a note for the new sequence, keeps the flags of that note, adds no feed, and leaves
  -- the other feeds, peers and formats and the files as they were.
  pub update_sequences_lem :
      (who feed : Feed) (seq : ℤ) (feeds : List (Feed × ℤ)) (old : NetworkFrontierMap)
      (s : StateMatrix)
      → OneFormat (algo feed) feeds
      → Distinct (sequences ((feed, seq) ∷ feeds))
      → held (string who) (algo feed) s ≡ some old
      → (nf : NetworkFrontierMap) × (s' : StateMatrix) × (update_sequences r os who
            ((feed, seq) ∷ feeds)
            s
          ≡ (ok tt, s'))
        × (held (string who) (algo feed) s' ≡ some nf)
        × ((k : String)
            → lookup k nf ≡ with_seq (lookup k (sequences ((feed, seq) ∷ feeds))) (lookup k old))
        × ((p f : String)
            → (eqb (algo feed) f && eqb (string who) p) ≡ false
            → held p f s' ≡ held p f s)
        × (s'.disk ≡ s.disk)
  update_sequences_lem who feed seq feeds old s one d h =
      let format = algo feed in
      let all = (feed, seq) ∷ feeds in
      let result = set_sequences r os format all old in
      let there = format_of_held (string who) format old s h in
      (
        result.0,
        write_through (string who) format result.0 s,
        update_sequences_run who feed seq feeds old s s
              (load_frontier_of_held r os who format old s h)
            ∙ finish_sequences_lem who format result s (one_format format all old (refl, one))
            ∙ rw there,
        ground (
          arith,
          there,
          held-write_through (string who) format (string who) format result.0 s,
          eqb_refl (string who),
          eqb_refl format,
        ),
        λ k. lookup-set_sequences k format all old (refl, one) d,
        λ p f ne. ground (arith, held-write_through (string who) format p f result.0 s),
        disk-write_through (string who) format result.0 s,
      )

  -- `UpdateSequences` with at least one feed, all of one format, panics on a matrix that has no map
  -- for the format yet, if no file is there for `who` and the file system does not fail: the new
  -- frontier is not registered, and the last assignment goes to a missing map.
  pub update_sequences_panics :
      (who feed : Feed) (seq : ℤ) (feeds : List (Feed × ℤ)) (name : FileName) (s : StateMatrix)
      → OneFormat (algo feed) feeds
      → lookup (algo feed) s.open_frontiers ≡ none
      → state_file_name r os who (algo feed) ≡ some name
      → os.open_fails name ≡ false
      → lookup name s.disk ≡ none
      → update_sequences r os who ((feed, seq) ∷ feeds) s ≡ (panic, s)
  update_sequences_panics who feed seq feeds name s one missing named opens absent =
      let all = (feed, seq) ∷ feeds in
      update_sequences_run who feed seq feeds [] s s
        (load_missing r os who (algo feed) name s missing named opens absent)
      ∙ finish_sequences_lem who (algo feed) (set_sequences r os (algo feed) all []) s
          (one_format (algo feed) all [] (refl, one))
      ∙ rw missing
