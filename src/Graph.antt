-- ===== src/Graph.antt =====
-- graph: who follows and blocks whom. The index in the key-value store, from `trust-graph` plus the
-- keys of two feeds to their relation and from `trust-graph` plus the key of a subfeed to its metafeed,
-- and the graph that is built from it and kept until the index changes.
pub mod Edges
pub mod Blocked
pub mod Calls
use mathlib.Core.Option
use mathlib.Core.List.Memᴰ
use metalife_pub.Prelude.{
  ℕ, zero, suc, ◌+◌, ◌-◌, ◌*◌, ◌/◌, ◌%◌, ◌^◌, ◌<◌, ◌≤◌, List, [], ◌∷◌, ◌++◌, map, Memᴰ, Option,
  none, some, Bool, true, false, not, ◌==◌, ltb, leb, ◌&&◌, ◌||◌, if◌then◌else◌, ◌≡◌, ◌≢◌, ◌↔◌, ◌⊎◌,
  inl, inr, refl, sym, ap, subst, ◌∙◌, arith, Bool-cases, Option-cases, String, Eq, eqb, eqb_iff,
  eqb_refl, eqb_comm, eqb_ne, string_eq, nat_eq, list_eq, pair_eq, bool_eq, or_else, is_some,
  length, Result, ok, err, All, take, drop, get_elem?, ==_iff,
}
use metalife_pub.Prelude.Int.{ℤ, pos, negsuc, ltb_ℤ, ◌+ℤ◌, ◌-ℤ◌, ◌=ℤ◌, ◌≤ℤ◌}
use metalife_pub.Prelude.Int64.{to_uint64, to_int64, to_int64_id, IsInt64}
use metalife_pub.GoMap.{GoMap, lookup, insert, delete}
use metalife_pub.GoMap.Laws.{
  lookup-insert, lookup-insert_self, lookup-delete, Distinct, insert-Distinct, delete-Distinct,
  mem_of_lookup, lookup_of_mem, AllValues, insert-AllValues, overwrite_step, overwrite_step_same,
  lookup-cons_ne, lookup-cons, lookup-nil,
}
use metalife_pub.FeedSet.{FeedSet, add_ref, has_ref}

-- `idxRelationState`
pub data Relation : Type 0 where
  rel_none rel_following rel_blocking rel_metafeed : Relation

-- The weights of edges: -∞, 1, ∞ and 0.1.
pub data Weight : Type 0 where
  minus_infinity one infinity tenth : Weight

-- `Graph`: its nodes by feed, and its edges.
pub record Graph : Type 0 where
  pub nodes : FeedSet
  pub edges : GoMap (String × String) Weight

-- `BadgerBuilder`
pub record Builder : Type 0 where
  pub relations : GoMap (String × String) Relation
  pub backlinks : GoMap String String
  pub cached_graph : Option Graph

-- `refs.Contact`
pub record Contact : Type 0 where
  pub contact : String
  pub following : Bool
  pub blocking : Bool

-- What the content of a message of a metafeed decodes to: nothing with a type, one of the three
-- types with the metafeed and the subfeed if its signature is valid, or another type.
pub data Management : Type 0 where
  undecodable unhandled : Management
  add_existing add_derived tombstone : Option (String × String) → Management

-- A message, and what the decoders make of its content.
pub record Message : Type 0 where
  pub author : String
  pub author_is_bendy_butt : Bool
  pub as_contact : Option Contact
  pub as_announcement : Option String
  pub as_management : Management

-- The value that the receive log hands to an index.
pub data Value : Type 0 where
  nulled_entry failed_entry other_type : Value
  of_message : Message → Value

-- Whether an index function returns an error.
pub data Done : Type 0 where
  fine failed : Done

abbrev pub set_relation : String → String → Relation → Builder → Builder
set_relation from to rel b = record b { relations = insert (from, to) rel b.relations }

abbrev pub relation_of : Contact → Relation
relation_of c = if c.following then rel_following else if c.blocking then rel_blocking else rel_none

-- `updateContacts`
unfoldable pub update_contacts : Value → Builder → Done × Builder
update_contacts nulled_entry b = (fine, b)
update_contacts failed_entry b = (failed, b)
update_contacts other_type b = (failed, b)
update_contacts (of_message msg) b = elim msg.as_contact [
  | none ↦ (fine, b)
  | some c ↦
      (fine, record (set_relation msg.author c.contact (relation_of c) b) { cached_graph = none })
]

-- `setMetafeedBacklink`
unfoldable pub set_metafeed_backlink : String → String → Builder → Builder
set_metafeed_backlink sub meta b = record b { backlinks = insert sub meta b.backlinks }

-- `updateAnnouncement`
unfoldable pub update_announcement : Value → Builder → Done × Builder
unfolding set_metafeed_backlink
update_announcement nulled_entry b = (fine, b)
update_announcement failed_entry b = (failed, b)
update_announcement other_type b = (failed, b)
update_announcement (of_message msg) b = elim msg.as_announcement [
  | none ↦ (fine, b)
  | some metafeed ↦
      (fine, record (set_metafeed_backlink msg.author metafeed b) { cached_graph = none })
]

-- The cases "metafeed/add/existing" and "metafeed/add/derived".
unfoldable pub add_subfeed : String → Option (String × String) → Builder → Builder
unfolding set_metafeed_backlink
add_subfeed author none b = b
add_subfeed author (some (metafeed, sub)) b =
    if not (eqb metafeed author)
    then b
    else set_relation author sub rel_metafeed (set_metafeed_backlink sub metafeed b)

-- The case "metafeed/tombstone".
unfoldable pub entomb : String → Option (String × String) → Builder → Builder
entomb author none b = b
entomb author (some (metafeed, sub)) b =
    if not (eqb metafeed author) then b else set_relation author sub rel_none b

unfoldable pub manage : String → Management → Builder → Builder
unfolding add_subfeed entomb
manage author undecodable b = b
manage author unhandled b = b
manage author (add_existing o) b = add_subfeed author o b
manage author (add_derived o) b = add_subfeed author o b
manage author (tombstone o) b = entomb author o b

-- `updateMetafeeds`
unfoldable pub update_metafeeds : Value → Builder → Done × Builder
unfolding manage
update_metafeeds nulled_entry b = (fine, b)
update_metafeeds failed_entry b = (failed, b)
update_metafeeds other_type b = (failed, b)
update_metafeeds (of_message msg) b =
    (fine, if msg.author_is_bendy_butt then manage msg.author msg.as_management b else b)

unfoldable pub delete_relations :
    String → GoMap (String × String) Relation → GoMap (String × String) Relation
delete_relations who [] = []
delete_relations who (((from, to), rel) ∷ m) =
    if eqb from who then delete_relations who m else ((from, to), rel) ∷ delete_relations who m

-- `DeleteAuthor`
unfoldable pub delete_author : String → Builder → Builder
unfolding delete_relations
delete_author who b = record {
  relations = delete_relations who b.relations;
  backlinks = delete who b.backlinks;
  cached_graph = none;
}

abbrev pub weight_of : Relation → Weight
weight_of rel_none = minus_infinity
weight_of rel_following = one
weight_of rel_blocking = infinity
weight_of rel_metafeed = tenth

abbrev pub is_minus_infinity : Weight → Bool
is_minus_infinity minus_infinity = true
is_minus_infinity one = false
is_minus_infinity infinity = false
is_minus_infinity tenth = false

-- The body of the loop of `Build`.
unfoldable pub add_entry : String → String → Relation → Graph → Graph
unfolding add_ref
add_entry from to rel dg =
    if eqb from to
    then dg
    else let dg' = record dg { nodes = add_ref to (add_ref from dg.nodes) } in
      if is_minus_infinity (weight_of rel)
      then dg'
      else record dg' { edges = insert (from, to) (weight_of rel) dg'.edges }

unfoldable pub add_entries : GoMap (String × String) Relation → Graph → Graph
unfolding add_entry
add_entries [] dg = dg
add_entries (((from, to), rel) ∷ m) dg = add_entries m (add_entry from to rel dg)

-- `Build`
unfoldable pub build : Builder → Graph × Builder
unfolding add_entries
build b = elim b.cached_graph [
  | some g ↦ (g, b)
  | none ↦
      let dg = add_entries b.relations (record { nodes = []; edges = [] }) in
      (dg, record b { cached_graph = some dg })
]

-- `getEdge`
unfoldable pub get_edge : String → String → Graph → Option Weight
unfolding has_ref
get_edge from to g =
    if not (has_ref g.nodes from)
    then none
    else if not (has_ref g.nodes to)
    then none
    else lookup (from, to) g.edges

abbrev pub is_one : Weight → Bool
is_one minus_infinity = false
is_one one = true
is_one infinity = false
is_one tenth = false

abbrev pub is_infinity : Weight → Bool
is_infinity minus_infinity = false
is_infinity one = false
is_infinity infinity = true
is_infinity tenth = false

-- `Graph.Follows`
unfoldable pub follows : String → String → Graph → Bool
unfolding get_edge
follows from to g = elim (get_edge from to g) [ none ↦ false | some w ↦ is_one w ]

-- `Graph.Blocks`
unfoldable pub blocks : String → String → Graph → Bool
unfolding get_edge
blocks from to g = elim (get_edge from to g) [ none ↦ false | some w ↦ is_infinity w ]

-- The loop of `BlockedList`, over the edges.
unfoldable pub blocked_from : String → GoMap (String × String) Weight → FeedSet
unfolding add_ref
blocked_from who [] = []
blocked_from who (((from, to), w) ∷ m) =
    let rest = blocked_from who m in if eqb from who && is_infinity w then add_ref to rest else rest

-- `BlockedList`
unfoldable pub blocked_list : String → Graph → FeedSet
unfolding blocked_from has_ref
blocked_list from g = if not (has_ref g.nodes from) then [] else blocked_from from g.edges
