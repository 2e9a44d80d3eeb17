-- ===== src/EbtPlugin/Sink.antt =====
-- What reaches the network through a state tracking sink.

use mathlib.Core.List.{reverse, reverse-cons, append_assoc}
use metalife_pub.Prelude.{
  ℕ, suc, ◌+◌, ◌^◌, ◌<◌, List, [], ◌∷◌, ◌++◌, Option, some, true, false, ◌&&◌, ◌≡◌, refl, sym, ap,
  subst, ◌∙◌, arith, eqb_refl, string_eq, pair_eq, bool_eq, length,
}
use metalife_pub.Prelude.Int.{pos, ltb_ℤ, ◌+ℤ◌}
use metalife_pub.Prelude.Int64.{to_int64}
use metalife_pub.GoMap.{lookup}
use metalife_pub.GoMap.Laws.{lookup-cons, lookup-nil}
use metalife_pub.Refs.{Refs}
use metalife_pub.Ebt.{Note, NetworkFrontierMap}
use metalife_pub.StateMatrix.{StateMatrix, ok, Os, held}
use metalife_pub.StateMatrix.Queries.{wants_feed_with_seq}
use metalife_pub.StateMatrix.Held.{load_frontier_of_held}
use metalife_pub.StateMatrix.Sequences.{update_sequences_lem}
use metalife_pub.EbtPlugin.{World, wrote, StateTrackingSink, write, write_all}

module _ (r : Refs) (os : Os) where
  open r use {Feed, string, algo}

  -- The matrix holds the peer's frontier with this note on the author.
  pub record Tracks (sink : StateTrackingSink r os) (n : Note) (m : StateMatrix) : Type 0 where
    pub frontier : NetworkFrontierMap
    pub is_held : held (string sink.peer) (algo sink.author) m ≡ some frontier
    pub has_note : lookup (string sink.author) frontier ≡ some n

  wants_lem :
      (sink : StateTrackingSink r os) (n : Note) (m : StateMatrix)
      → Tracks sink n m
      → wants_feed_with_seq r os sink.peer sink.author sink.sequence m
        ≡ (ok (n.receive && ltb_ℤ n.seq (to_int64 (sink.sequence +ℤ pos 1))), m)
  unfolding wants_feed_with_seq
  wants_lem sink n m t = ground (
    arith,
    t.has_note,
    load_frontier_of_held r os sink.peer (algo sink.author) t.frontier m t.is_held,
  )

  -- A packet that the peer does not want, by its note on the author, is dropped: nothing is written
  -- to the network and nothing changes.
  pub write_unwanted :
      (lower : List ℕ → Option ℕ) (p : List ℕ) (sink : StateTrackingSink r os) (n : Note)
      (w : World)
      → Tracks sink n w.matrix
      → (n.receive && ltb_ℤ n.seq (to_int64 (sink.sequence +ℤ pos 1))) ≡ false
      → write r os lower p sink w ≡ (wrote 0, sink, w)
  unfolding write
  write_unwanted lower p sink n w t h = ground (arith, wants_lem sink n w.matrix t)

  abbrev next_note : Note → ℕ → Note
  next_note n k = record n { seq = pos k }

  abbrev at_seq : StateTrackingSink r os → ℕ → StateTrackingSink r os
  at_seq sink k = record sink { sequence = pos k }

  increment : (k : ℕ) → suc k < 2 ^ 63 → to_int64 (pos k +ℤ pos 1) ≡ pos (suc k)
  unfolding ◌+ℤ◌
  increment k h = ground arith

  -- A packet that the peer wants next is written once, and counted in the sink and in the matrix.
  write_wanted :
      (lower : List ℕ → Option ℕ) (p : List ℕ) (b k : ℕ) (sink : StateTrackingSink r os) (n : Note)
      (w : World)
      → Tracks (at_seq sink k) (next_note n k) w.matrix
      → n.receive ≡ true
      → suc k < 2 ^ 63
      → lower p ≡ some b
      → (m : StateMatrix) × (write r os lower p (at_seq sink k) w
          ≡ (wrote b, at_seq sink (suc k), record { matrix = m; sent = p ∷ w.sent }))
        × Tracks (at_seq sink (suc k)) (next_note n (suc k)) m
  unfolding write
  write_wanted lower p b k sink n w t rx h l =
      let next : StateTrackingSink r os = at_seq sink (suc k) in
      let (nf, m, done, holds, notes, others, _) =
        update_sequences_lem r os sink.peer sink.author (pos (suc k)) [] t.frontier w.matrix tt
          (lookup-nil (string sink.author), tt) t.is_held in
      let wanted : wants_feed_with_seq r os sink.peer sink.author (pos k) w.matrix
          ≡ (ok true, w.matrix) =
        wants_lem (at_seq sink k) (next_note n k) w.matrix t
        ∙ rw (rx, increment k h) (ground arith) in
      (
        m,
        ground (arith, wanted, l, done, increment k h),
        record {
          frontier = nf;
          is_held = holds;
          has_note = ground (
            arith,
            notes (string sink.author),
            t.has_note,
            lookup-cons (string sink.author) (string sink.author) (pos (suc k)) [],
            eqb_refl (string sink.author),
          );
        },
      )

  write_all-cons :
      (lower : List ℕ → Option ℕ) (p : List ℕ) (ps : List (List ℕ)) (b : ℕ)
      (sink sink' : StateTrackingSink r os) (w w' : World)
      → write r os lower p sink w ≡ (wrote b, sink', w')
      → write_all r os lower (p ∷ ps) sink w ≡ write_all r os lower ps sink' w'
  unfolding write_all
  write_all-cons lower p ps b sink sink' w w' h = ground arith

  -- While the peer's note on the author stands at the sink's sequence and asks to receive, and the
  -- network takes every packet, all packets of the stream are written, each once and in order, and
  -- the sink and the note end at the sequence plus the number of packets, which fits an int64.
  pub write_all_lem :
      (lower : List ℕ → Option ℕ) (sizes : List ℕ → ℕ) (ps : List (List ℕ)) (k : ℕ)
      (sink : StateTrackingSink r os) (n : Note) (w : World)
      → ((p : List ℕ) → lower p ≡ some (sizes p))
      → n.receive ≡ true
      → k + length ps < 2 ^ 63
      → Tracks (at_seq sink k) (next_note n k) w.matrix
      → (m : StateMatrix) × (write_all r os lower ps (at_seq sink k) w
          ≡ (at_seq sink (k + length ps), record { matrix = m; sent = reverse ps ++ w.sent }))
        × Tracks (at_seq sink (k + length ps)) (next_note n (k + length ps)) m
  write_all_lem lower sizes [] k sink n w takes rx h t =
      let same : k ≡ k + 0 = omega arith in
      subst
        (λ j.
          (m : StateMatrix) × (◌≡◌ {A = StateTrackingSink r os × World}
            (write_all r os lower [] (at_seq sink k) w)
            (at_seq sink j, record { matrix = m; sent = w.sent }))
          × Tracks (at_seq sink j) (next_note n j) m)
        same (w.matrix, unfold write_all in refl, t)
  write_all_lem lower sizes (p ∷ ps) k sink n w takes rx h t =
      let (m, step, t') = write_wanted lower p (sizes p) k sink n w t rx (omega arith) (takes p) in
      let w' : World = record { matrix = m; sent = p ∷ w.sent } in
      let (m', rest, t'') =
        write_all_lem lower sizes ps (suc k) sink n w' takes rx (omega arith) t' in
      let total : suc k + length ps ≡ k + suc (length ps) = omega arith in
      subst
        (λ j.
          (m : StateMatrix) × (write_all r os lower (p ∷ ps) (at_seq sink k) w
            ≡ (at_seq sink j, record { matrix = m; sent = reverse (p ∷ ps) ++ w.sent }))
          × Tracks (at_seq sink j) (next_note n j) m)
        total
        (
          m',
          write_all-cons lower p ps (sizes p) (at_seq sink k) (at_seq sink (suc k)) w w' step
              ∙ rest
              ∙ ap (λ l. (at_seq sink (suc k + length ps), record { matrix = m'; sent = l }))
                  (sym (rw (reverse-cons p ps) (append_assoc (reverse ps) (p ∷ []) w.sent))),
          t'',
        )
