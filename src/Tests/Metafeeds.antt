-- ===== src/Tests/Metafeeds.antt =====
-- Examples of an update of the replication, with feeds of two formats.

use metalife_pub.Prelude.{
  ℕ, [], ◌∷◌, Option, none, some, true, false, not, ◌&&◌, ◌||◌, if◌then◌else◌, ◌≡◌, ◌≢◌, ◌⊎◌, inl,
  inr, refl, sym, subst, ◌∙◌, arith, Bool-cases, String, eqb, eqb_iff, string_eq, nat_eq, list_eq,
  pair_eq, bool_eq,
}
use metalife_pub.GoMap.{lookup}
use metalife_pub.Refs.{Refs}
use metalife_pub.Ebt.{NetworkFrontierMap}
use metalife_pub.StateMatrix.{StateMatrix, ok, held}
use metalife_pub.FeedSet.{FeedSet, has_ref}
use metalife_pub.Graph.{Relation, rel_following, rel_blocking, rel_metafeed, Builder}
use metalife_pub.Graph.Calls.{IsCurrent}
use metalife_pub.Hops.{follows_of, subfeeds_of}
use metalife_pub.Hops.Near.{Owner, own, followed, linked, IsRanked}
use metalife_pub.Replicate.{
  Replicator, authorize, allowed, peer_blocked, make_updater, update_with, is_bendy_butt,
}
use metalife_pub.Replicate.Updates.{update_with_lem, changes, renewed}
use metalife_pub.Replicate.Safety.{IsName, Named, make_updater_lem, has-follows_of, has-subfeeds_of}
use metalife_pub.Tests.{works, notes}

-- Ours, a blocked one, a metafeed and its subfeed.
pub data Peer : Type 0 where
  ours theirs metafeed subfeed : Peer

abbrev name_of : Peer → String
name_of ours = "@a"
name_of theirs = "@b"
name_of metafeed = "@m"
name_of subfeed = "@s"

abbrev peer_of : String → Option Peer
peer_of k =
    if eqb k "@a"
    then some ours
    else if eqb k "@b"
    then some theirs
    else if eqb k "@m"
    then some metafeed
    else if eqb k "@s"
    then some subfeed
    else none

peer_of-name_of : (f : Peer) → peer_of (name_of f) ≡ some f
peer_of-name_of ours = refl
peer_of-name_of theirs = refl
peer_of-name_of metafeed = refl
peer_of-name_of subfeed = refl

abbrev format_of : Peer → String
format_of ours = "ed25519"
format_of theirs = "ed25519"
format_of metafeed = "bendybutt"
format_of subfeed = "ed25519"

abbrev four_feeds : Refs
four_feeds = record {
  Feed = Peer;
  string = name_of;
  parse_feed_ref = peer_of;
  algo = format_of;
  feed_ssb1 = "ed25519";
  feed_gabby = "gabby";
  feed_bendy_butt = "bendybutt";
  hex_tfk = λ f. some (name_of f);
  parse-string = peer_of-name_of;
}

-- We follow a metafeed with a subfeed, and block a feed.
abbrev meta_graph : Builder
meta_graph = record {
  relations =
      (("@a", "@m"), rel_following)
      ∷ (("@m", "@s"), rel_metafeed)
      ∷ (("@a", "@b"), rel_blocking)
      ∷ [];
  backlinks = ("@s", "@m") ∷ [];
  cached_graph = none;
}

abbrev matrix : StateMatrix
matrix = record {
  self = "@a";
  open_frontiers = ("ed25519", ("@a", notes) ∷ []) ∷ ("bendybutt", ("@a", []) ∷ []) ∷ [];
  disk = [];
}

abbrev own_frontier : String → NetworkFrontierMap
own_frontier k = if eqb k "@m" then [] else notes

holds_ours : (f : Peer) → held "@a" (format_of f) matrix ≡ some (own_frontier (name_of f))
unfolding held lookup
holds_ours ours = refl
holds_ours theirs = refl
holds_ours metafeed = refl
holds_ours subfeed = refl

abbrev replicator : Replicator
replicator = record { feed_wants = []; blocked = []; ebt_state = matrix }

abbrev within : FeedSet
within = ("@m", tt) ∷ ("@s", tt) ∷ []

abbrev blocking : FeedSet
blocking = ("@b", tt) ∷ []

update_with_lem_example :
    (s' : Replicator) × (g : Peer) × (nf' : NetworkFrontierMap) × (update_with four_feeds works ours
        within blocking replicator
      ≡ (ok tt, s'))
    × ((k : String)
        → has_ref s'.feed_wants k
          ≡ ((has_ref replicator.feed_wants k || has_ref within k) && not (has_ref blocking k)))
    × ((k : String) → has_ref s'.blocked k ≡ (has_ref replicator.blocked k || has_ref blocking k))
    × (held "@a" (format_of g) s'.ebt_state ≡ some nf')
    × ((k : String)
        → lookup k nf' ≡ (
            if changes four_feeds works ours own_frontier within blocking [] k
            then renewed four_feeds works ours own_frontier within blocking [] k
            else lookup k (own_frontier (name_of g))))
    × ((s'.ebt_state ≡ matrix)
        ⊎ (changes four_feeds works ours own_frontier within blocking [] (name_of g) ≡ true))
    × ((p f : String)
        → (eqb (format_of g) f && eqb "@a" p) ≡ false
        → held p f s'.ebt_state ≡ held p f matrix)
    × (s'.ebt_state.disk ≡ matrix.disk)
update_with_lem_example =
    update_with_lem four_feeds works ours own_frontier within blocking replicator holds_ours tt
      ((metafeed, refl), ((subfeed, refl), tt)) ((theirs, refl), tt)

meta_graph-IsCurrent : IsCurrent meta_graph
unfolding lookup
meta_graph-IsCurrent = ((refl, (refl, (refl, tt))), λ g e. cc)

linked_to : (a c : String) → lookup a meta_graph.backlinks ≡ some c → c ≡ "@m"
unfolding lookup
linked_to a c h = elim (Bool-cases (eqb "@s" a)) [
  | inl here ↦ ground (arith, here)
  | inr other ↦ absurd (ground (arith, other))
]

meta_graph-Named : Named four_feeds meta_graph
unfolding lookup
meta_graph-Named = (named, λ a c h. (metafeed, linked_to a c h))
  where
    named :
        (a c : String) (rel : Relation)
        → lookup (a, c) meta_graph.relations ≡ some rel
        → IsName four_feeds c
    named a c rel h = elim (Bool-cases (eqb "@m" c)) [
      | inl here ↦ (metafeed, sym ((eqb_iff "@m" c).0 here))
      | inr not_m ↦ elim (Bool-cases (eqb "@s" c)) [
        | inl here ↦ (subfeed, sym ((eqb_iff "@s" c).0 here))
        | inr not_s ↦ elim (Bool-cases (eqb "@b" c)) [
          | inl here ↦ (theirs, sym ((eqb_iff "@b" c).0 here))
          | inr none_of_them ↦ absurd (ground (arith, not_m, not_s, none_of_them))
        ]
      ]
    ]

-- The subfeed has rank 0.
abbrev rank : String → ℕ
rank k = if eqb k "@s" then 0 else 1

only_subfeed : (g s : String) → has_ref (subfeeds_of meta_graph g) s ≡ true → eqb s "@s" ≡ true
unfolding lookup
only_subfeed g s h =
    let it = sym (has-subfeeds_of meta_graph g s meta_graph-IsCurrent.0) ∙ h in
    elim (Bool-cases (eqb "@s" s)) [
      | inl here ↦ ground (arith, eqb_iff "@s" s, eqb_iff s "@s")
      | inr other ↦ absurd (ground (arith, it, other))
    ]

follows_none : (f : String) → has_ref (follows_of meta_graph "@s") f ≡ false
unfolding lookup
follows_none f = has-follows_of meta_graph "@s" f meta_graph-IsCurrent.0

-- From the subfeed no metafeed is looked at.
owns_none :
    (who g : String) → who ≡ "@s" → Owner meta_graph who g → is_bendy_butt four_feeds works g ≢ true
owns_none who _ e own bendy =
    let it : is_bendy_butt four_feeds works "@s" ≡ true =
      subst (λ k. is_bendy_butt four_feeds works k ≡ true) e bendy in
    cc
owns_none who g e (followed h) bendy =
    let it = subst (λ k. has_ref (follows_of meta_graph k) g ≡ true) e h in
    ground (arith, it, follows_none g)
owns_none who g e (linked f h l) bendy =
    let it = subst (λ k. has_ref (follows_of meta_graph k) f ≡ true) e h in
    ground (arith, it, follows_none f)

meta_graph-IsRanked : IsRanked (is_bendy_butt four_feeds works) meta_graph rank
meta_graph-IsRanked who g s o bendy h = elim (Bool-cases (eqb who "@s")) [
  | inl at_sub ↦ absurd (owns_none who g ((eqb_iff who "@s").0 at_sub) o bendy)
  | inr other ↦ ground (arith, other, only_subfeed g s h)
]

make_updater_lem_example :
    (s' : Replicator) × (make_updater four_feeds works 6 ours 1 meta_graph replicator
      ≡ some (ok tt, s'))
    × ((k : String)
        → k ≢ "@a"
        → lookup ("@a", k) meta_graph.relations ≡ some rel_blocking
        → authorize k s' ≡ peer_blocked)
    × ((k : String)
        → k ≢ "@a"
        → lookup ("@a", k) meta_graph.relations ≡ some rel_following
        → has_ref replicator.blocked k ≡ false
        → authorize k s' ≡ allowed)
make_updater_lem_example =
    make_updater_lem four_feeds works ours own_frontier meta_graph replicator rank 1 6 1 holds_ours
      tt meta_graph-IsCurrent meta_graph-Named (λ f. ground arith) meta_graph-IsRanked (omega arith)
