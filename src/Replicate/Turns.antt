-- ===== src/Replicate/Turns.antt =====
-- What one turn of each loop of an update adds to the frontier and to the sets.

use metalife_pub.Prelude.{
  List, [], ◌∷◌, Option, none, some, Bool, true, false, not, ◌&&◌, if◌then◌else◌, ◌≡◌, inl, inr,
  refl, ap, ◌∙◌, arith, Bool-cases, String, eqb, eqb_iff, string_eq, nat_eq, list_eq, pair_eq,
  bool_eq,
}
use metalife_pub.GoMap.{lookup}
use metalife_pub.Refs.{Refs}
use metalife_pub.Ebt.{Note, NetworkFrontierMap}
use metalife_pub.StateMatrix.{StateMatrix, Outcome, ok, err, panic, Os, M, held}
use metalife_pub.StateMatrix.Queries.{wants_feed}
use metalife_pub.StateMatrix.Changes.{fill_notes}
use metalife_pub.FeedSet.{FeedSet, has_ref}
use metalife_pub.Replicate.{
  Replicator, Run, ◌>>=◌, on_matrix, block, want, unwant, new_want, old_want, block_feed,
}
use metalife_pub.Replicate.Notes.{note_of, wants_in, fill_one, fill_none, wants_held}

pub on_matrix-bind {ℓ κ} :
    {A : Type ℓ} {B : Type κ} (m : M A) (k : A → Run B) (s : Replicator) (a : A)
    → m s.ebt_state ≡ (ok a, s.ebt_state)
    → (on_matrix m >>= k) s ≡ k a s
on_matrix-bind {A} {B} m k s a h =
    ap
      (λ x.
        let (o, matrix) = x in
        elim o as (λ _. Outcome B × Replicator) [
          | ok a' ↦ k a' (record s { ebt_state = matrix })
          | err e ↦ (err e, record s { ebt_state = matrix })
          | panic ↦ (panic, record s { ebt_state = matrix })
        ])
      h

module _ (r : Refs) (os : Os) where
  open r use {Feed, string, algo}

  -- `own` gives, for the key of a feed, our frontier for the format of the feed.
  module _ (self : Feed) (own : String → NetworkFrontierMap) where
    abbrev pub Holds : StateMatrix → Type 0
    Holds m = (f : Feed) → held (string self) (algo f) m ≡ some (own (string f))

    -- Whether we ask for the feed, and our note on it.
    abbrev pub asks : String → Bool
    asks k = wants_in r os k (own k)

    abbrev pub our_note : String → Note
    our_note k = (note_of r os (lookup k (own k))).0

    -- Our note on the feed with other flags.
    abbrev pub flagged : String → Bool → Bool → Option Note
    flagged k receive replicate =
        some (record (our_note k) { receive = receive; replicate = replicate })

    wants_now :
        (f : Feed) (m : StateMatrix)
        → Holds m
        → wants_feed r os self f m ≡ (ok (note_of r os (lookup (string f) (own (string f)))), m)
    wants_now f m h = wants_held r os self f (own (string f)) m (h f)

    pub new_turn :
        (f : Feed) (s : Replicator)
        → Holds s.ebt_state
        → (ups : List (Feed × Note)) × (new_want r os self f s
            ≡ (ok ups, if has_ref s.feed_wants (string f) then s else want (string f) s))
          × ((k : String) (nf' : NetworkFrontierMap)
              → lookup k (fill_notes r os ups nf') ≡ (
                  if eqb (string f) k && (not (has_ref s.feed_wants k) && not (asks k))
                  then flagged k true true
                  else lookup k nf'))
    unfolding new_want want
    new_turn f s h = elim (Bool-cases (has_ref s.feed_wants (string f))) [
      | inl old ↦ (
        [],
        rw (old, new_want) refl,
        λ k nf'. ground (arith, fill_none r os k nf', eqb_iff (string f) k),
      )
      | inr new ↦ elim (Bool-cases (asks (string f))) [
        | inl wanted_already ↦ (
          [],
          rw (new, new_want)
              (on_matrix-bind (wants_feed r os self f)
                  (λ (note, wants) s'. (
                    ok (
                        if not wants
                        then (f, record note { receive = true; replicate = true }) ∷ []
                        else []),
                    s',
                  ))
                  (want (string f) s) (note_of r os (lookup (string f) (own (string f))))
                  (wants_now f s.ebt_state h)
                ∙ rw wanted_already refl),
          λ k nf'. ground (arith, fill_none r os k nf', eqb_iff (string f) k),
        )
        | inr unwanted ↦
            let n : Note = record (note_of r os (lookup (string f) (own (string f)))).0 {
              receive = true;
              replicate = true;
            } in
            (
              (f, n) ∷ [],
              rw (new, new_want)
                  (on_matrix-bind (wants_feed r os self f)
                      (λ (note, wants) s'. (
                        ok (
                            if not wants
                            then (f, record note { receive = true; replicate = true }) ∷ []
                            else []),
                        s',
                      ))
                      (want (string f) s) (note_of r os (lookup (string f) (own (string f))))
                      (wants_now f s.ebt_state h)
                    ∙ rw unwanted refl),
              λ k nf'. ground (arith, fill_one r os f n k nf', eqb_iff (string f) k),
            )
      ]
    ]

    pub old_turn :
        (new_set : FeedSet) (f : Feed) (s : Replicator)
        → Holds s.ebt_state
        → (ups : List (Feed × Note)) × (old_want r os self new_set f s ≡ (ok ups, s))
          × ((k : String) (nf' : NetworkFrontierMap)
              → lookup k (fill_notes r os ups nf') ≡ (
                  if eqb (string f) k && (not (has_ref new_set k) && asks k)
                  then flagged k false true
                  else lookup k nf'))
    unfolding old_want
    old_turn new_set f s h = elim (Bool-cases (has_ref new_set (string f))) [
      | inl old ↦ (
        [],
        rw (old, old_want) refl,
        λ k nf'. ground (arith, fill_none r os k nf', eqb_iff (string f) k),
      )
      | inr new ↦ elim (Bool-cases (asks (string f))) [
        | inr unwanted ↦ (
          [],
          rw (new, old_want)
              (on_matrix-bind (wants_feed r os self f)
                  (λ (note, wants) s'. (
                    ok (
                        if wants
                        then (f, record note { receive = false; replicate = true }) ∷ []
                        else []),
                    s',
                  ))
                  s (note_of r os (lookup (string f) (own (string f)))) (wants_now f s.ebt_state h)
                ∙ rw unwanted refl),
          λ k nf'. ground (arith, fill_none r os k nf', eqb_iff (string f) k),
        )
        | inl now ↦
            let n : Note = record (note_of r os (lookup (string f) (own (string f)))).0 {
              receive = false;
              replicate = true;
            } in
            (
              (f, n) ∷ [],
              rw (new, old_want)
                  (on_matrix-bind (wants_feed r os self f)
                      (λ (note, wants) s'. (
                        ok (
                            if wants
                            then (f, record note { receive = false; replicate = true }) ∷ []
                            else []),
                        s',
                      ))
                      s (note_of r os (lookup (string f) (own (string f))))
                      (wants_now f s.ebt_state h)
                    ∙ rw now refl),
              λ k nf'. ground (arith, fill_one r os f n k nf', eqb_iff (string f) k),
            )
      ]
    ]

    pub block_turn :
        (f : Feed) (s : Replicator)
        → Holds s.ebt_state
        → (ups : List (Feed × Note)) × (block_feed r os self f s
            ≡ (ok ups, unwant (string f) (block (string f) s)))
          × ((k : String) (nf' : NetworkFrontierMap)
              → lookup k (fill_notes r os ups nf')
                ≡ (if eqb (string f) k && asks k then none else lookup k nf'))
    unfolding block_feed block unwant
    block_turn f s h = elim (Bool-cases (asks (string f))) [
      | inr unwanted ↦ (
        [],
        on_matrix-bind (wants_feed r os self f)
              (λ (note, wants) s'. (
                ok (
                    if wants
                    then (f, record note { receive = false; replicate = false }) ∷ []
                    else []),
                s',
              ))
              (unwant (string f) (block (string f) s))
              (note_of r os (lookup (string f) (own (string f)))) (wants_now f s.ebt_state h)
            ∙ rw unwanted refl,
        λ k nf'. ground (arith, fill_none r os k nf', eqb_iff (string f) k),
      )
      | inl now ↦
          let n : Note = record (note_of r os (lookup (string f) (own (string f)))).0 {
            receive = false;
            replicate = false;
          } in
          (
            (f, n) ∷ [],
            on_matrix-bind (wants_feed r os self f)
                  (λ (note, wants) s'. (
                    ok (
                        if wants
                        then (f, record note { receive = false; replicate = false }) ∷ []
                        else []),
                    s',
                  ))
                  (unwant (string f) (block (string f) s))
                  (note_of r os (lookup (string f) (own (string f)))) (wants_now f s.ebt_state h)
                ∙ rw now refl,
            λ k nf'. ground (arith, fill_one r os f n k nf', eqb_iff (string f) k),
          )
    ]
