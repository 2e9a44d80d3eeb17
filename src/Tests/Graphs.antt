-- ===== src/Tests/Graphs.antt =====
-- Examples of the graph, and of the feeds within reach.

use metalife_pub.Prelude.{
  List, [], ◌∷◌, none, some, Bool, true, false, not, ◌≡◌, ◌≢◌, refl, arith, String, eqb, string_eq,
  nat_eq, list_eq, pair_eq, bool_eq,
}
use metalife_pub.GoMap.{lookup, insert}
use metalife_pub.FeedSet.{FeedSet, has_ref, add_ref}
use metalife_pub.Graph.{rel_following, rel_blocking, rel_metafeed, Builder, undecodable, of_message}
use metalife_pub.Graph.Calls.{Call, contacts, building}
use metalife_pub.Hops.{follows_of, subfeeds_of, metafeed_of, hops, targets}
use metalife_pub.Hops.Near.{Near, IsRanked}
use metalife_pub.Hops.Reach.{hops_lem}
use metalife_pub.Hops.Divergence.{hops_diverges}

-- A follows b, b blocks a.
abbrev small_graph : Builder
small_graph = record {
  relations = (("@a", "@b"), rel_following) ∷ (("@b", "@a"), rel_blocking) ∷ [];
  backlinks = [];
  cached_graph = none;
}

never : String → Bool
never k = false

never-true : (k : String) → never k ≢ true
unfolding never
never-true k h = cc

small-IsRanked : IsRanked never small_graph (λ f. 0)
small-IsRanked who g s o bendy h = absurd (never-true g bendy)

hops_lem_example :
    (fs : FeedSet) × (hops never small_graph 3 "@a" 1 ≡ some fs)
    × (has_ref fs "@a" ≡ false)
    × ((x : String) → has_ref fs x ≡ true → Near never small_graph 2 "@a" x)
    × ((f : String)
        → has_ref (follows_of small_graph "@a") f ≡ true
        → f ≢ "@a"
        → has_ref fs f ≡ true)
hops_lem_example =
    hops_lem never small_graph (λ f. 0) 0 (λ f. omega arith) small-IsRanked 3 1 "@a" (omega arith)

-- A metafeed with two subfeeds, the first of which follows the second, and a stranger who follows it too.
abbrev family : Builder
family = record {
  relations =
      (("mf", "s"), rel_metafeed)
      ∷ (("mf", "f"), rel_metafeed)
      ∷ (("s", "f"), rel_following)
      ∷ (("@a", "f"), rel_following)
      ∷ [];
  backlinks = ("s", "mf") ∷ ("f", "mf") ∷ [];
  cached_graph = none;
}

is_mf : String → Bool
is_mf k = eqb k "mf"

mf_is : is_mf "mf" ≡ true
unfolding is_mf
mf_is = refl

s_is_sub : has_ref (subfeeds_of family "mf") "s" ≡ true
unfolding subfeeds_of targets has_ref add_ref lookup insert
s_is_sub = refl

s_follows : has_ref (follows_of family "s") "f" ≡ true
unfolding follows_of targets has_ref add_ref lookup insert
s_follows = refl

a_follows : has_ref (follows_of family "@a") "f" ≡ true
unfolding follows_of targets has_ref add_ref lookup insert
a_follows = refl

f_belongs : metafeed_of family "f" ≡ some "mf"
unfolding metafeed_of lookup
f_belongs = refl

hops_diverges_example : hops is_mf family 100 "@a" 2 ≡ none
hops_diverges_example =
    hops_diverges is_mf family "mf" "s" "f" "@a" "f" mf_is s_is_sub s_follows f_belongs a_follows
      f_belongs 100 2

abbrev said : Bool → Call
said f = contacts (
    of_message (record {
      author = "@a";
      author_is_bendy_butt = false;
      as_contact = some (record { contact = "@b"; following = f; blocking = not f });
      as_announcement = none;
      as_management = undecodable;
    }))

abbrev calls : List Call
calls = said true ∷ building ∷ said false ∷ []
