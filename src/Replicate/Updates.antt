-- ===== src/Replicate/Updates.antt =====
-- What an update makes of the sets and of our frontier.

use metalife_pub.Prelude.{
  List, [], ◌∷◌, ◌++◌, Option, some, none, Bool, false, true, eqb, eqb_refl, not, ◌&&◌, ◌||◌,
  if◌then◌else◌, ◌≡◌, ◌⊎◌, inl, inr, refl, sym, subst, ap, ◌∙◌, arith, Bool-cases, String,
  string_eq, nat_eq, list_eq, pair_eq, bool_eq,
}
use metalife_pub.GoMap.{lookup}
use metalife_pub.GoMap.Laws.{lookup-nil, lookup-cons}
use metalife_pub.Refs.{Refs}
use metalife_pub.Ebt.{Note, NetworkFrontierMap}
use metalife_pub.StateMatrix.{StateMatrix, ok, Os, held}
use metalife_pub.StateMatrix.Changes.{fill, fill_notes}
use metalife_pub.FeedSet.{FeedSet, list, has_ref}
use metalife_pub.Replicate.{
  Replicator, Run, ◌>>=◌, on_matrix, or_fail, collect, parse_all, new_want, old_want, block_feeds,
  update_with,
}
use metalife_pub.Replicate.Notes
use metalife_pub.Replicate.Turns
use metalife_pub.Replicate.Loops.{
  bind_ok, Canonical, Canonical-listed, new_loop, old_loop, block_loop, block_feeds_runs, fill_once,
}

module _ (r : Refs) (os : Os) where
  open r use {Feed, string}

  update_runs :
      (self : Feed) (new_set blk : FeedSet) (ln lc lb : List Feed)
      (ups1 ups2 ups3 : List (Feed × Note)) (s s1 s3 : Replicator) (m' : StateMatrix)
      → parse_all r os (list new_set) ≡ some ln
      → collect (new_want r os self) ln s ≡ (ok ups1, s1)
      → parse_all r os (list s1.feed_wants) ≡ some lc
      → collect (old_want r os self new_set) lc s1 ≡ (ok ups2, s1)
      → block_feeds r os self blk s1 ≡ (ok ups3, s3)
      → fill r os self (ups1 ++ (ups2 ++ ups3)) s3.ebt_state ≡ (ok tt, m')
      → update_with r os self new_set blk s ≡ (ok tt, record s3 { ebt_state = m' })
  unfolding update_with
  update_runs self new_set blk ln lc lb ups1 ups2 ups3 s s1 s3 m' pn e1 pc e2 e3 e4 =
      let fill_all : List (Feed × Note) → List (Feed × Note) → List (Feed × Note) → Run (Unit {0}) =
        λ xs ys zs. on_matrix (fill r os self (xs ++ (ys ++ zs))) in
      let blocking : List (Feed × Note) → List (Feed × Note) → Run (Unit {0}) =
        λ xs ys. block_feeds r os self blk >>= fill_all xs ys in
      let leaving : List (Feed × Note) → List Feed → Run (Unit {0}) =
        λ xs l. collect (old_want r os self new_set) l >>= blocking xs in
      let listing : Run (List Feed) = λ t. or_fail (parse_all r os (list t.feed_wants)) t in
      let entering : List Feed → Run (Unit {0}) =
        λ l. collect (new_want r os self) l >>= λ xs. listing >>= leaving xs in
      bind_ok (or_fail (parse_all r os (list new_set))) entering s s ln (ap (λ o. or_fail o s) pn)
      ∙ (bind_ok (collect (new_want r os self) ln) (λ xs. listing >>= leaving xs) s s1 ups1 e1
          ∙ (bind_ok listing (leaving ups1) s1 s1 lc (ap (λ o. or_fail o s1) pc)
              ∙ (bind_ok (collect (old_want r os self new_set) lc) (blocking ups1) s1 s1 ups2 e2
                  ∙ (bind_ok (block_feeds r os self blk) (fill_all ups1 ups2) s1 s3 ups3 e3
                      ∙ ap (λ x. let (o, m) = x in (o, record s3 { ebt_state = m })) e4))))

  module _ (self : Feed) (own : String → NetworkFrontierMap)
      (new_set blk feed_wants : FeedSet) where
    -- Whether an update makes a new note on a feed or takes its note away: a feed that was asked for
    -- and is blocked now or left the reach, and one that was not asked for and is new within reach.
    abbrev pub changes : String → Bool
    changes k =
        if Turns.asks r os self own k
        then has_ref blk k || (has_ref feed_wants k && not (has_ref new_set k))
        else has_ref new_set k && not (has_ref feed_wants k)

    -- What it makes: no note if the feed was asked for and is blocked, a note without the receive
    -- flag if it left the reach, and one with both flags if it is new; with the sequence as it was.
    abbrev pub renewed : String → Option Note
    renewed k =
        if Turns.asks r os self own k
        then (if has_ref blk k then none else Turns.flagged r os self own k false true)
        else Turns.flagged r os self own k true true

    -- The first feed that an update names is one that it changes.
    first_changes :
        (g : Feed) (n : Note) (rest ups : List (Feed × Note))
        → ups ≡ (g, n) ∷ rest
        → ((k : String) (base : NetworkFrontierMap)
            → lookup k (fill_notes r os ups base)
              ≡ (if changes k then renewed k else lookup k base))
        → changes (string g) ≡ true
    first_changes g n rest ups e formula = elim (Bool-cases (changes (string g))) [
      | inl it_does ↦ it_does
      | inr kept ↦
          let k = string g in
          let some_note : NetworkFrontierMap = (k, n) ∷ [] in
          let left : lookup k (fill_notes r os ups []) ≡ none =
            formula k [] ∙ rw kept (lookup-nil k) in
          let right : lookup k (fill_notes r os ups some_note) ≡ some n =
            formula k some_note ∙ rw kept (lookup-cons k k n [] ∙ rw (eqb_refl k) refl) in
          let same : lookup k (fill_notes r os ups []) ≡ lookup k (fill_notes r os ups some_note) =
            subst (λ u. lookup k (fill_notes r os u []) ≡ lookup k (fill_notes r os u some_note))
              (sym e) (Notes.fill_notes_first r os g n rest [] some_note) in
          absurd (ground (arith, left, right, same))
    ]

-- Where our frontiers for all formats are in memory (`own`, by the key of a feed) and the sets hold
-- canonical references: an update by the sets of feeds within reach and of blocked feeds succeeds.
-- Wanted are afterwards the feeds that were or that are within reach, less the blocked ones; blocked
-- are those that were or now are. It changes the notes on the feeds that were asked for in the frontier
-- of their own format and are blocked now (no note) or left the reach (a note without the receive
-- flag), and on those that were not asked for and are new within reach, although they may be blocked
-- (a note with both flags). All changes go into one frontier, the one for the format of a feed `g`
-- that is changed, unless the matrix stays as it was; other notes, frontiers and files stay.
pub update_with_lem :
    (r : Refs) (os : Os) (self : r.Feed) (own : String → NetworkFrontierMap) (new_set blk : FeedSet)
    (s : Replicator)
    → ((f : r.Feed) → held (r.string self) (r.algo f) s.ebt_state ≡ some (own (r.string f)))
    → Canonical r os s.feed_wants
    → Canonical r os new_set
    → Canonical r os blk
    → (s' : Replicator) × (g : r.Feed) × (nf' : NetworkFrontierMap) × (update_with r os self new_set
          blk s
        ≡ (ok tt, s'))
      × ((k : String)
          → has_ref s'.feed_wants k
            ≡ ((has_ref s.feed_wants k || has_ref new_set k) && not (has_ref blk k)))
      × ((k : String) → has_ref s'.blocked k ≡ (has_ref s.blocked k || has_ref blk k))
      × (held (r.string self) (r.algo g) s'.ebt_state ≡ some nf')
      × ((k : String)
          → lookup k nf' ≡ (
              if changes r os self own new_set blk s.feed_wants k
              then renewed r os self own new_set blk s.feed_wants k
              else lookup k (own (r.string g))))
      × ((s'.ebt_state ≡ s.ebt_state)
          ⊎ (changes r os self own new_set blk s.feed_wants (r.string g) ≡ true))
      × ((p f : String)
          → (eqb (r.algo g) f && eqb (r.string self) p) ≡ false
          → held p f s'.ebt_state ≡ held p f s.ebt_state)
      × (s'.ebt_state.disk ≡ s.ebt_state.disk)
unfolding update_with
update_with_lem r os self own new_set blk s h cw cn cb =
    let (ln, pn, in_n) = Canonical-listed r os new_set cn in
    let (lb, pb, in_b) = Canonical-listed r os blk cb in
    let (ups1, s1, e1, (m1, b1, c1, w1, n1)) = new_loop r os self own ln s h cw in
    let h1 = λ (f : r.Feed). ap (held (r.string self) (r.algo f)) m1 ∙ h f in
    let (lc, pc, in_c) = Canonical-listed r os s1.feed_wants c1 in
    let (ups2, e2, n2) = old_loop r os self own new_set lc s1 h1 in
    let (ups3, s3, e3, m3, b3, w3, n3) = block_loop r os self own lb s1 h1 in
    let h3 = λ (f : r.Feed). ap (held (r.string self) (r.algo f)) m3 ∙ h1 f in
    let ups : List (r.Feed × Note) = ups1 ++ (ups2 ++ ups3) in
    let (g, m', e4, h4, others, disk, first) = fill_once r os self own ups s3.ebt_state h3 in
    let formula : (k : String) (base : NetworkFrontierMap)
        → lookup k (fill_notes r os ups base) ≡ (
            if changes r os self own new_set blk s.feed_wants k
            then renewed r os self own new_set blk s.feed_wants k
            else lookup k base) =
      λ k base. ground (
        arith,
        Notes.fill_notes-append r os ups1 (ups2 ++ ups3) base,
        Notes.fill_notes-append r os ups2 ups3 (fill_notes r os ups1 base),
        n3 k (fill_notes r os ups2 (fill_notes r os ups1 base)),
        n2 k (fill_notes r os ups1 base),
        n1 k base,
        in_n k,
        in_b k,
        in_c k,
        w1 k,
      ) in
    (
      record s3 { ebt_state = m' },
      g,
      fill_notes r os ups (own (r.string g)),
      update_runs r os self new_set blk ln lc lb ups1 ups2 ups3 s s1 s3 m' pn e1 pc e2
          (block_feeds_runs r os self own blk lb s1 pb ∙ e3) e4,
      λ k. ground (arith, w3 k, w1 k, in_n k, in_b k),
      λ k. ground (arith, b3 k, b1, in_b k),
      h4,
      λ k. formula k (own (r.string g)),
      elim first [
        | inl same ↦ inl (same ∙ (m3 ∙ m1))
        | inr (n, rest, e) ↦
            inr (first_changes r os self own new_set blk s.feed_wants g n rest ups e formula)
      ],
      λ p f ne. others p f ne ∙ ap (held p f) (m3 ∙ m1),
      disk ∙ ap (λ m. m.disk) (m3 ∙ m1),
    )
