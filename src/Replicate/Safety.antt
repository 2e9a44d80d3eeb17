-- ===== src/Replicate/Safety.antt =====
-- What an update by the graph allows and refuses.
use mathlib.Core.Option
use metalife_pub.Prelude.{
  ℕ, zero, suc, ◌+◌, ◌*◌, ◌<◌, ◌≤◌, [], ◌∷◌, Option, none, some, Bool, true, false, ◌&&◌, ◌||◌,
  if◌then◌else◌, ◌≡◌, ◌≢◌, refl, sym, ap, ◌∙◌, arith, String, eqb, eqb_iff, eqb_refl, string_eq,
  nat_eq, list_eq, pair_eq, bool_eq,
}
use metalife_pub.GoMap.{GoMap, lookup}
use metalife_pub.GoMap.Laws.{Distinct, lookup-cons, lookup-nil}
use metalife_pub.Refs.{Refs}
use metalife_pub.Ebt.{NetworkFrontierMap}
use metalife_pub.StateMatrix.{ok, Os, held}
use metalife_pub.FeedSet.{FeedSet, add_ref, has_ref}
use metalife_pub.FeedSet.Laws.{has-add_ref, has-nil, has-cons}
use metalife_pub.Replicate.{
  Replicator, allowed, peer_blocked, authorize, update_with, make_updater, is_bendy_butt,
}
use metalife_pub.Graph.{
  Relation, rel_none, rel_following, rel_blocking, rel_metafeed, Builder, build, blocked_list,
}
use metalife_pub.Graph.Edges.{edge_for}
use metalife_pub.Graph.Blocked.{is_blocking, blocked_list_lem}
use metalife_pub.Graph.Calls.{IsCurrent, build-IsCurrent_graph}
use metalife_pub.Hops.{follows_of, subfeeds_of, metafeed_of, targets, is_following, is_metafeed}
use metalife_pub.Hops.Near.{Near, direct, metafeed, subfeed, past_subfeed, past_friend, IsRanked}
use metalife_pub.Hops.Reach.{hops_lem}
use metalife_pub.Replicate.Loops.{Canonical}
use metalife_pub.Replicate.Updates.{update_with_lem}

abbrev pub is_relation : (Relation → Bool) → Option Relation → Bool
is_relation p none = false
is_relation p (some rel) = p rel

has-targets :
    (p : Relation → Bool) (who f : String) (m : GoMap (String × String) Relation) (fs : FeedSet)
    → Distinct m
    → has_ref (targets p who m fs) f ≡ (has_ref fs f || is_relation p (lookup (who, f) m))
unfolding targets
has-targets p who f [] fs d =
    ground (arith, lookup-nil {K = String × String} {V = Relation} (who, f))
has-targets p who f (((from, to), rel) ∷ m) fs d = ground (
  arith,
  has-targets p who f m (if eqb from who && p rel then add_ref to fs else fs) d.1,
  lookup-cons (who, f) (from, to) rel m,
  has-add_ref to f fs,
  eqb_iff from who,
  eqb_iff to f,
  d.0,
)

pub has-follows_of :
    (b : Builder) (who f : String)
    → Distinct b.relations
    → has_ref (follows_of b who) f ≡ is_relation is_following (lookup (who, f) b.relations)
unfolding follows_of
has-follows_of b who f d = has-targets is_following who f b.relations [] d ∙ rw (has-nil f) refl

pub has-subfeeds_of :
    (b : Builder) (who f : String)
    → Distinct b.relations
    → has_ref (subfeeds_of b who) f ≡ is_relation is_metafeed (lookup (who, f) b.relations)
unfolding subfeeds_of
has-subfeeds_of b who f d = has-targets is_metafeed who f b.relations [] d ∙ rw (has-nil f) refl

is_relation-some :
    (p : Relation → Bool) (o : Option Relation)
    → is_relation p o ≡ true
    → (rel : Relation) × (o ≡ some rel)
is_relation-some p none h = cc
is_relation-some p (some rel) h = (rel, refl)

module _ (r : Refs) where
  open r use {Feed, string}

  abbrev pub IsName : String → Type 0
  IsName k = (f : Feed) × (k ≡ string f)

  -- What the index names as followed, blocked, subfeed or metafeed is the canonical text of a feed.
  abbrev pub Named : Builder → Type 0
  Named b =
      ((a c : String) (rel : Relation) → lookup (a, c) b.relations ≡ some rel → IsName c)
      × ((a c : String) → lookup a b.backlinks ≡ some c → IsName c)

  Near-Named :
      (is_bendy : String → Bool) (b : Builder)
      → Distinct b.relations
      → Named b
      → (d : ℕ) (who x : String) → Near is_bendy b d who x
      → IsName x
  unfolding metafeed_of
  Near-Named is_bendy b u n zero who x x3 = elim x3 [ ]
  Near-Named is_bendy b u n (suc d) who x (direct h) =
      let (rel, e) =
        is_relation-some is_following (lookup (who, x) b.relations)
          (sym (has-follows_of b who x u) ∙ h) in
      n.0 who x rel e
  Near-Named is_bendy b u n (suc d) who x (metafeed f h e) = n.1 f x e
  Near-Named is_bendy b u n (suc d) who x (subfeed g o bendy h) =
      let (rel, e) =
        is_relation-some is_metafeed (lookup (g, x) b.relations)
          (sym (has-subfeeds_of b g x u) ∙ h) in
      n.0 g x rel e
  Near-Named is_bendy b u n (suc d) who x (past_subfeed g s o bendy h near) =
      Near-Named is_bendy b u n (suc d) s x near
  Near-Named is_bendy b u n (suc d) who x (past_friend f h k near) =
      Near-Named is_bendy b u n d f x near

  Canonical-of_has :
      (os : Os) (fs : FeedSet) → ((k : String) → has_ref fs k ≡ true → IsName k) → Canonical r os fs
  Canonical-of_has os [] h = tt
  Canonical-of_has os ((key, u) ∷ fs) h = (
    h key (has-cons key key fs ∙ rw (eqb_refl key) refl),
    Canonical-of_has os fs (λ k e. h k (has-cons key k fs ∙ ground (arith, e))),
  )

  blocks_of :
      (b : Builder) (a c : String)
      → IsCurrent b
      → has_ref (blocked_list a (build b).0) c
        ≡ is_blocking (if eqb a c then none else edge_for (lookup (a, c) b.relations) none)
  blocks_of b a c h =
      ap (λ g. has_ref (blocked_list a g) c) (build-IsCurrent_graph b h)
      ∙ blocked_list_lem a c b.relations h.0

  blocked_relation :
      (a c : String) (o : Option Relation)
      → is_blocking (if eqb a c then none else edge_for o none) ≡ true
      → o ≡ some rel_blocking
  blocked_relation a c none h = ground (arith, h)
  blocked_relation a c (some rel_none) h = ground (arith, h)
  blocked_relation a c (some rel_following) h = ground (arith, h)
  blocked_relation a c (some rel_blocking) h = refl
  blocked_relation a c (some rel_metafeed) h = ground (arith, h)

-- Where our frontiers for all formats are in memory (`own`, by the key of a feed), the cached graph is
-- current, the keys are canonical references, and each subfeed that is looked at from a feed has a
-- lower rank than it, so that no subfeed leads back: with enough fuel for `Hops` an update by the
-- graph succeeds. Afterwards every feed that the index says we block is refused as blocked, and every
-- feed that it says we follow is let in, unless it was blocked before.
pub make_updater_lem :
    (r : Refs) (os : Os) (self : r.Feed) (own : String → NetworkFrontierMap) (b : Builder)
    (s : Replicator) (rank : String → ℕ) (bound fuel hop_count : ℕ)
    → ((f : r.Feed) → held (r.string self) (r.algo f) s.ebt_state ≡ some (own (r.string f)))
    → Canonical r os s.feed_wants
    → IsCurrent b
    → Named r b
    → ((f : String) → rank f ≤ bound)
    → IsRanked (is_bendy_butt r os) b rank
    → suc hop_count * suc bound + rank (r.string self) < fuel
    → (s' : Replicator) × (make_updater r os fuel self hop_count b s ≡ some (ok tt, s'))
      × ((k : String)
          → k ≢ r.string self
          → lookup (r.string self, k) b.relations ≡ some rel_blocking
          → authorize k s' ≡ peer_blocked)
      × ((k : String)
          → k ≢ r.string self
          → lookup (r.string self, k) b.relations ≡ some rel_following
          → has_ref s.blocked k ≡ false
          → authorize k s' ≡ allowed)
unfolding make_updater authorize
make_updater_lem r os self own b s rank bound fuel hop_count h cw current named bounded ranked lt =
    let me = r.string self in
    let (fs, e, _, near, all) =
      hops_lem (is_bendy_butt r os) b rank bound bounded ranked fuel hop_count me lt in
    let blk : FeedSet = blocked_list me (build b).0 in
    let blocked_now = λ (k : String). blocks_of r b me k current in
    let (s', _, _, done, wants, blocked, _, _, _, _, _) =
      update_with_lem r os self own fs blk s h cw
        (Canonical-of_has r os fs (λ k i.
          Near-Named r (is_bendy_butt r os) b current.0 named (suc hop_count) me k (near k i)))
        (Canonical-of_has r os blk (λ k i.
          named.0 me k rel_blocking
            (blocked_relation r me k (lookup (me, k) b.relations) (sym (blocked_now k) ∙ i)))) in
    (
      s',
      ap (λ o. Option.map (λ new_set. update_with r os self new_set blk s) o) e
          ∙ ap (λ x. some x) done,
      λ k other it. ground (arith, blocked k, blocked_now k, it, eqb_iff me k),
      λ k other it free. ground (
        arith,
        blocked k,
        wants k,
        blocked_now k,
        it,
        free,
        eqb_iff me k,
        all k (has-follows_of b me k current.0 ∙ rw it refl) other,
      ),
    )
