-- ===== src/Graph/Blocked.antt =====
-- Whom `BlockedList` lists of the graph that is built.

use metalife_pub.Prelude.{
  [], ◌∷◌, Option, none, some, Bool, true, false, if◌then◌else◌, ◌≡◌, ◌≢◌, inl, inr, refl, sym, ap,
  ◌∙◌, arith, Bool-cases, Option-cases, String, eqb, eqb_iff, string_eq, nat_eq, list_eq, pair_eq,
  bool_eq,
}
use metalife_pub.GoMap.{GoMap, lookup}
use metalife_pub.GoMap.Laws.{Distinct, insert-Distinct, lookup-cons, lookup-nil}
use metalife_pub.FeedSet.{has_ref}
use metalife_pub.FeedSet.Laws.{has-add_ref, has-nil}
use metalife_pub.Graph.{
  Relation, rel_none, rel_following, rel_blocking, rel_metafeed, Weight, one, infinity, tenth,
  Graph, add_entry, add_entries, get_edge, is_infinity, blocked_from, blocked_list,
}
use metalife_pub.Graph.Edges.{
  empty_graph, edge_for, add_entries-HasEnds, get_edge-HasEnds, built, built_edge,
}

add_entry-Distinct :
    (from to : String) (rel : Relation) (dg : Graph)
    → Distinct dg.edges
    → Distinct (add_entry from to rel dg).edges
unfolding add_entry
add_entry-Distinct from to rel_none dg d = ground (arith)
add_entry-Distinct from to rel_following dg d =
    ground (arith, insert-Distinct (from, to) one dg.edges d)
add_entry-Distinct from to rel_blocking dg d =
    ground (arith, insert-Distinct (from, to) infinity dg.edges d)
add_entry-Distinct from to rel_metafeed dg d =
    ground (arith, insert-Distinct (from, to) tenth dg.edges d)

edges-Distinct :
    (m : GoMap (String × String) Relation) (dg : Graph)
    → Distinct dg.edges
    → Distinct (add_entries m dg).edges
unfolding add_entries
edges-Distinct [] dg d = d
edges-Distinct (((from, to), rel) ∷ m) dg d =
    edges-Distinct m (add_entry from to rel dg) (add_entry-Distinct from to rel dg d)

abbrev pub is_blocking : Option Weight → Bool
is_blocking none = false
is_blocking (some w) = is_infinity w

has-blocked_from :
    (a b : String) (m : GoMap (String × String) Weight)
    → Distinct m
    → has_ref (blocked_from a m) b ≡ is_blocking (lookup (a, b) m)
unfolding blocked_from
has-blocked_from a b [] d =
    has-nil b ∙ rw (lookup-nil {K = String × String} {V = Weight} (a, b)) refl
has-blocked_from a b (((from, to), w) ∷ m) d = ground (
  arith,
  has-blocked_from a b m d.1,
  lookup-cons (a, b) (from, to) w m,
  has-add_ref to b (blocked_from a m),
  eqb_iff from a,
  eqb_iff to b,
  d.0,
)

-- `BlockedList` of the graph that is built holds whom `Blocks` names.
pub blocked_list_lem :
    (a b : String) (m : GoMap (String × String) Relation)
    → Distinct m
    → has_ref (blocked_list a (built m)) b
      ≡ is_blocking (if eqb a b then none else edge_for (lookup (a, b) m) none)
unfolding blocked_list get_edge
blocked_list_lem a b m d =
    let ends =
      add_entries-HasEnds m empty_graph
        (λ x y h. ground (arith, lookup-nil {K = String × String} {V = Weight} (x, y))) in
    let edge = sym (get_edge-HasEnds (built m) ends a b) ∙ built_edge a b m d in
    let found = has-blocked_from a b (built m).edges (edges-Distinct m empty_graph tt) in
    elim (Bool-cases (has_ref (built m).nodes a)) [
      | inl there ↦ rw (there, blocked_list) (found ∙ ap is_blocking edge)
      | inr missing ↦ elim (Option-cases (lookup (a, b) (built m).edges)) [
        | inl no_edge ↦
            rw (missing, blocked_list) (has-nil b ∙ (ap is_blocking (sym no_edge ∙ edge)))
        | inr (w, an_edge) ↦ absurd (false_ne (sym missing ∙ (ends a b (rw an_edge refl)).0))
      ]
    ]
  where
    false_ne : false ≢ true
    false_ne h = cc
