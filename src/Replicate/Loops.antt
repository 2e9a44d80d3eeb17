-- ===== src/Replicate/Loops.antt =====
-- What the loops of an update make of the sets and of our frontier.

use metalife_pub.Prelude.{
  List, [], ◌∷◌, ◌++◌, Option, none, some, Bool, true, false, not, ◌&&◌, ◌||◌, if◌then◌else◌, ◌≡◌,
  ◌⊎◌, inl, inr, refl, sym, ap, ◌∙◌, arith, Bool-cases, String, eqb, eqb_iff, eqb_refl, string_eq,
  nat_eq, list_eq, pair_eq, bool_eq, All,
}
use metalife_pub.GoMap.{lookup, insert}
use metalife_pub.Refs.{Refs}
use metalife_pub.Ebt.{Note, NetworkFrontierMap}
use metalife_pub.StateMatrix.{StateMatrix, Outcome, ok, err, panic, Os, held, store_frontier}
use metalife_pub.StateMatrix.Changes.{fill, fill_notes}
use metalife_pub.StateMatrix.Held.{held-store_frontier}
use metalife_pub.FeedSet.{FeedSet, add_ref, list, has_ref}
use metalife_pub.FeedSet.Laws.{has-add_ref, has-delete_ref, has-nil, has-cons}
use metalife_pub.Replicate.{
  Replicator, Run, ◌>>=◌, collect, block, want, unwant, parse_all, new_want, old_want, block_feed,
  block_feeds,
}
use metalife_pub.Replicate.Notes
use metalife_pub.Replicate.Turns
use metalife_pub.Replicate.Turns.{on_matrix-bind}

pub bind_ok {ℓ κ} :
    {A : Type ℓ} {B : Type κ} (m : Run A) (k : A → Run B) (s s' : Replicator) (a : A)
    → m s ≡ (ok a, s')
    → (m >>= k) s ≡ k a s'
bind_ok {A} {B} m k s s' a h =
    ap
      (λ x.
        let (o, t) = x in
        elim o as (λ _. Outcome B × Replicator) [
          | ok a' ↦ k a' t
          | err e ↦ (err e, t)
          | panic ↦ (panic, t)
        ])
      h

pub collect-cons {ℓ κ} :
    {A : Type ℓ} {B : Type κ} (body : A → Run (List B)) (a : A) (rest : List A)
    (s s1 s2 : Replicator) (xs ys : List B)
    → body a s ≡ (ok xs, s1)
    → collect body rest s1 ≡ (ok ys, s2)
    → collect body (a ∷ rest) s ≡ (ok (xs ++ ys), s2)
unfolding collect
collect-cons body a rest s s1 s2 xs ys h k =
    bind_ok (body a) (λ xs'. collect body rest >>= λ ys' s'. (ok (xs' ++ ys'), s')) s s1 xs h
    ∙ bind_ok (collect body rest) (λ ys' s'. (ok (xs ++ ys'), s')) s1 s2 ys k

module _ (r : Refs) (os : Os) where
  open r use {Feed, string, algo, parse_feed_ref, parse-string}

  -- Every key of the set is the canonical text of a feed.
  abbrev pub Canonical : FeedSet → Type 0
  Canonical = All (λ kv. (f : Feed) × (kv.0 ≡ string f))

  pub Canonical-listed :
      (fs : FeedSet)
      → Canonical fs
      → (l : List Feed) × (parse_all r os (list fs) ≡ some l)
        × ((k : String) → Notes.is_in r os l k ≡ has_ref fs k)
  unfolding list
  Canonical-listed [] h = ([], refl, λ k. sym (has-nil k))
  Canonical-listed ((key, u) ∷ fs) h =
      let (f, e) = h.0 in
      let (l, parsed, same) = Canonical-listed fs h.1 in
      (
        f ∷ l,
        rw e (rw (parse-string f) (rw parsed refl)),
        λ k. ground (arith, e, same k, has-cons key k fs),
      )

  pub Canonical-add : (f : Feed) (fs : FeedSet) → Canonical fs → Canonical (add_ref (string f) fs)
  unfolding add_ref insert
  Canonical-add f [] h = ((f, refl), tt)
  Canonical-add f ((key, u) ∷ fs) h = elim (Bool-cases (eqb key (string f))) [
    | inl same ↦ rw same ((f, refl), h.1)
    | inr other ↦ rw other (h.0, Canonical-add f fs h.1)
  ]

  -- `own` as for the turns.
  module _ (self : Feed) (own : String → NetworkFrontierMap) where
    abbrev Holds : StateMatrix → Type 0
    Holds = Turns.Holds r os self own

    abbrev asks : String → Bool
    asks = Turns.asks r os self own

    abbrev flagged : String → Bool → Bool → Option Note
    flagged = Turns.flagged r os self own

    -- What a turn or a loop over the feeds `inside` makes of the state, for the new want list.
    abbrev pub Wanted : (String → Bool) → Replicator → List (Feed × Note) → Replicator → Type 0
    Wanted inside s ups s' =
        (s'.ebt_state ≡ s.ebt_state)
        × (s'.blocked ≡ s.blocked)
        × Canonical s'.feed_wants
        × ((k : String) → has_ref s'.feed_wants k ≡ (has_ref s.feed_wants k || inside k))
        × ((k : String) (nf' : NetworkFrontierMap)
            → lookup k (fill_notes r os ups nf') ≡ (
                if inside k && (not (has_ref s.feed_wants k) && not (asks k))
                then flagged k true true
                else lookup k nf'))

    pub new_step :
        (f : Feed) (s : Replicator)
        → Holds s.ebt_state
        → Canonical s.feed_wants
        → (ups : List (Feed × Note)) × (s' : Replicator) × (new_want r os self f s ≡ (ok ups, s'))
          × Wanted (λ k. eqb (string f) k) s ups s'
    unfolding want
    new_step f s h c =
        let (ups, e, effect) = Turns.new_turn r os self own f s h in
        elim (Bool-cases (has_ref s.feed_wants (string f))) [
          | inl old ↦ (
            ups,
            s,
            e ∙ rw old refl,
            (refl, refl, c, λ k. ground (arith, eqb_iff (string f) k), effect),
          )
          | inr new ↦ (
            ups,
            want (string f) s,
            e ∙ rw new refl,
            (
              refl,
              refl,
              Canonical-add f s.feed_wants c,
              λ k. ground (arith, has-add_ref (string f) k s.feed_wants),
              effect,
            ),
          )
        ]

    pub new_loop :
        (fs : List Feed) (s : Replicator)
        → Holds s.ebt_state
        → Canonical s.feed_wants
        → (ups : List (Feed × Note)) × (s' : Replicator) × (collect (new_want r os self) fs s
            ≡ (ok ups, s'))
          × Wanted (Notes.is_in r os fs) s ups s'
    unfolding collect fill_notes
    new_loop [] s h c = ([], s, refl, (refl, refl, c, λ k. ground arith, λ k nf'. refl))
    new_loop (f ∷ fs) s h c =
        let (xs, s1, e, (m1, b1, c1, w1, n1)) = new_step f s h c in
        let (ys, s2, e', (m2, b2, c2, w2, n2)) =
          new_loop fs s1 (λ g. ap (held (string self) (algo g)) m1 ∙ h g) c1 in
        (
          xs ++ ys,
          s2,
          collect-cons (new_want r os self) f fs s s1 s2 xs ys e e',
          (
            m2 ∙ m1,
            b2 ∙ b1,
            c2,
            λ k. ground (arith, w1 k, w2 k),
            λ k nf'. ground (
              arith,
              Notes.fill_notes-append r os xs ys nf',
              n2 k (fill_notes r os xs nf'),
              n1 k nf',
              w1 k,
            ),
          ),
        )

    pub old_loop :
        (new_set : FeedSet) (fs : List Feed) (s : Replicator)
        → Holds s.ebt_state
        → (ups : List (Feed × Note)) × (collect (old_want r os self new_set) fs s ≡ (ok ups, s))
          × ((k : String) (nf' : NetworkFrontierMap)
              → lookup k (fill_notes r os ups nf') ≡ (
                  if Notes.is_in r os fs k && (not (has_ref new_set k) && asks k)
                  then flagged k false true
                  else lookup k nf'))
    unfolding collect fill_notes
    old_loop new_set [] s h = ([], refl, λ k nf'. refl)
    old_loop new_set (f ∷ fs) s h =
        let (xs, e, n1) = Turns.old_turn r os self own new_set f s h in
        let (ys, e', n2) = old_loop new_set fs s h in
        (
          xs ++ ys,
          collect-cons (old_want r os self new_set) f fs s s s xs ys e e',
          λ k nf'. ground (
            arith,
            Notes.fill_notes-append r os xs ys nf',
            n2 k (fill_notes r os xs nf'),
            n1 k nf',
          ),
        )

    pub block_loop :
        (fs : List Feed) (s : Replicator)
        → Holds s.ebt_state
        → (ups : List (Feed × Note)) × (s' : Replicator) × (collect (block_feed r os self) fs s
            ≡ (ok ups, s'))
          × (s'.ebt_state ≡ s.ebt_state)
          × ((k : String) → has_ref s'.blocked k ≡ (has_ref s.blocked k || Notes.is_in r os fs k))
          × ((k : String)
              → has_ref s'.feed_wants k ≡ (has_ref s.feed_wants k && not (Notes.is_in r os fs k)))
          × ((k : String) (nf' : NetworkFrontierMap)
              → lookup k (fill_notes r os ups nf')
                ≡ (if Notes.is_in r os fs k && asks k then none else lookup k nf'))
    unfolding collect fill_notes block unwant
    block_loop [] s h = ([], s, refl, refl, λ k. ground arith, λ k. ground arith, λ k nf'. refl)
    block_loop (f ∷ fs) s h =
        let (xs, e, n1) = Turns.block_turn r os self own f s h in
        let s1 : Replicator = unwant (string f) (block (string f) s) in
        let (ys, s2, e', m2, b2, w2, n2) = block_loop fs s1 h in
        (
          xs ++ ys,
          s2,
          collect-cons (block_feed r os self) f fs s s1 s2 xs ys e e',
          m2,
          λ k. ground (arith, b2 k, has-add_ref (string f) k s.blocked),
          λ k. ground (arith, w2 k, has-delete_ref (string f) k s.feed_wants),
          λ k nf'. ground (
            arith,
            Notes.fill_notes-append r os xs ys nf',
            n2 k (fill_notes r os xs nf'),
            n1 k nf',
          ),
        )

    -- `Fill` puts all notes into one frontier, for the format of the first one.
    pub fill_once :
        (ups : List (Feed × Note)) (m : StateMatrix)
        → Holds m
        → (g : Feed) × (m' : StateMatrix) × (fill r os self ups m ≡ (ok tt, m'))
          × (held (string self) (algo g) m' ≡ some (fill_notes r os ups (own (string g))))
          × ((p f : String)
              → (eqb (algo g) f && eqb (string self) p) ≡ false
              → held p f m' ≡ held p f m)
          × (m'.disk ≡ m.disk)
          × ((m' ≡ m) ⊎ ((n : Note) × (rest : List (Feed × Note)) × (ups ≡ (g, n) ∷ rest)))
    unfolding fill fill_notes store_frontier
    fill_once [] m h = (self, m, refl, h self, λ p f ne. refl, refl, inl refl)
    fill_once ((f, n) ∷ ups) m h =
        let nf = own (string f) in
        let filled = fill_notes r os ((f, n) ∷ ups) nf in
        (
          f,
          store_frontier (string self) (algo f) filled m,
          ap
              (λ x.
                let (o, m') = x in
                elim o as (λ _. Outcome (Unit {0}) × StateMatrix) [
                  | ok nf' ↦ (
                    ok tt,
                    store_frontier (string self) (algo f) (fill_notes r os ((f, n) ∷ ups) nf') m',
                  )
                  | err e ↦ (err e, m')
                  | panic ↦ (panic, m')
                ])
              (Notes.load_held r os self (algo f) nf m (h f)),
          held-store_frontier (string self) (algo f) (string self) (algo f) filled m
              ∙ rw (eqb_refl (algo f)) (rw (eqb_refl (string self)) refl),
          λ p q ne. held-store_frontier (string self) (algo f) p q filled m ∙ rw ne refl,
          ground arith,
          inr (n, ups, refl),
        )

    pub block_feeds_runs :
        (blk : FeedSet) (l : List Feed) (s : Replicator)
        → parse_all r os (list blk) ≡ some l
        → block_feeds r os self blk s ≡ collect (block_feed r os self) l s
    unfolding block_feeds
    block_feeds_runs blk l s h = rw (h, block_feeds) refl
