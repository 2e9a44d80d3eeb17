-- ===== src/Graph/Calls.antt =====
-- The index and the graph after any sequence of calls.

use metalife_pub.Prelude.{
  List, [], ◌∷◌, Option, none, some, Bool, true, false, ◌&&◌, if◌then◌else◌, ◌≡◌, inl, inr, refl,
  ap, ◌∙◌, arith, Option-cases, String, eqb, eqb_iff, string_eq, nat_eq, list_eq, pair_eq, bool_eq,
}
use metalife_pub.GoMap.{GoMap, lookup}
use metalife_pub.GoMap.Laws.{lookup-insert, Distinct, insert-Distinct, lookup-cons, lookup-nil}
use metalife_pub.Graph.{
  Relation, rel_following, rel_blocking, Graph, Builder, Value, nulled_entry, failed_entry,
  other_type, of_message, relation_of, update_contacts, update_announcement, set_metafeed_backlink,
  delete_relations, delete_author, build,
}
use metalife_pub.Graph.Edges.{built}

-- The calls that keep the graph up to date.
pub data Call : Type 0 where
  contacts announcement : Value → Call
  building : Call
  deleting : String → Call

abbrev pub call : Call → Builder → Builder
call (contacts v) b = (update_contacts v b).1
call (announcement v) b = (update_announcement v b).1
call building b = (build b).1
call (deleting who) b = delete_author who b

abbrev pub run : List Call → Builder → Builder
run [] b = b
run (c ∷ cs) b = run cs (call c b)

abbrev pub new_builder : Builder
new_builder = record { relations = []; backlinks = []; cached_graph = none }

-- What `a` last said of `b`, unless `a` was deleted since.
abbrev pub said_in : String → String → Value → Option Relation → Option Relation
said_in a b nulled_entry o = o
said_in a b failed_entry o = o
said_in a b other_type o = o
said_in a b (of_message msg) o = elim msg.as_contact [
  | none ↦ o
  | some c ↦ if eqb msg.author a && eqb c.contact b then some (relation_of c) else o
]

abbrev pub last_said : String → String → List Call → Option Relation → Option Relation
last_said a b [] o = o
last_said a b (contacts v ∷ cs) o = last_said a b cs (said_in a b v o)
last_said a b (announcement v ∷ cs) o = last_said a b cs o
last_said a b (building ∷ cs) o = last_said a b cs o
last_said a b (deleting who ∷ cs) o = last_said a b cs (if eqb who a then none else o)

delete_relations_lem :
    (who a b : String) (m : GoMap (String × String) Relation)
    → lookup (a, b) (delete_relations who m) ≡ (if eqb who a then none else lookup (a, b) m)
unfolding delete_relations
delete_relations_lem who a b [] =
    ground (arith, lookup-nil {K = String × String} {V = Relation} (a, b))
delete_relations_lem who a b (((from, to), rel) ∷ m) = ground (
  arith,
  delete_relations_lem who a b m,
  lookup-cons (a, b) (from, to) rel m,
  lookup-cons (a, b) (from, to) rel (delete_relations who m),
  eqb_iff from who,
  eqb_iff who a,
  eqb_iff from a,
)

delete_relations-Distinct :
    (who : String) (m : GoMap (String × String) Relation)
    → Distinct m
    → Distinct (delete_relations who m)
unfolding delete_relations
delete_relations-Distinct who [] d = tt
delete_relations-Distinct who (((from, to), rel) ∷ m) d =
    ground (arith, delete_relations-Distinct who m, delete_relations_lem who from to m)

-- The cached graph is the one that would be built.
abbrev pub IsCurrent : Builder → Type 0
IsCurrent b = Distinct b.relations × ((g : Graph) → b.cached_graph ≡ some g → g ≡ built b.relations)

contacts-IsCurrent : (v : Value) (b : Builder) → IsCurrent b → IsCurrent (update_contacts v b).1
unfolding update_contacts
contacts-IsCurrent nulled_entry b h = h
contacts-IsCurrent failed_entry b h = h
contacts-IsCurrent other_type b h = h
contacts-IsCurrent (of_message msg) b h = elim (Option-cases msg.as_contact) [
  | inl skipped ↦ rw skipped h
  | inr (c, it) ↦
      rw it (insert-Distinct (msg.author, c.contact) (relation_of c) b.relations h.0, λ g e. cc)
]

announcement-IsCurrent :
    (v : Value) (b : Builder) → IsCurrent b → IsCurrent (update_announcement v b).1
unfolding update_announcement set_metafeed_backlink
announcement-IsCurrent nulled_entry b h = h
announcement-IsCurrent failed_entry b h = h
announcement-IsCurrent other_type b h = h
announcement-IsCurrent (of_message msg) b h = elim (Option-cases msg.as_announcement) [
  | inl skipped ↦ rw skipped h
  | inr (m, it) ↦ rw it (h.0, λ g e. cc)
]

build_new :
    (b : Builder)
    → b.cached_graph ≡ none
    → build b ≡ (built b.relations, record b { cached_graph = some (built b.relations) })
unfolding build
build_new b h = rw (h, build) refl

build_cached : (b : Builder) (g : Graph) → b.cached_graph ≡ some g → build b ≡ (g, b)
unfolding build
build_cached b g h =
    ap
      (λ o. elim o as (λ _. Graph × Builder) [
        | some g' ↦ (g', b)
        | none ↦ (built b.relations, record b { cached_graph = some (built b.relations) })
      ])
      h

build-IsCurrent : (b : Builder) → IsCurrent b → IsCurrent (build b).1
build-IsCurrent b h = elim (Option-cases b.cached_graph) [
  | inl none_yet ↦ rw (build_new b none_yet) (h.0, λ g e. cc)
  | inr (g, it) ↦ rw (build_cached b g it) h
]

call-IsCurrent : (c : Call) (b : Builder) → IsCurrent b → IsCurrent (call c b)
unfolding delete_author
call-IsCurrent (contacts v) b h = contacts-IsCurrent v b h
call-IsCurrent (announcement v) b h = announcement-IsCurrent v b h
call-IsCurrent building b h = build-IsCurrent b h
call-IsCurrent (deleting who) b h = (delete_relations-Distinct who b.relations h.0, λ g e. cc)

pub run-IsCurrent : (cs : List Call) (b : Builder) → IsCurrent b → IsCurrent (run cs b)
run-IsCurrent [] b h = h
run-IsCurrent (c ∷ cs) b h = run-IsCurrent cs (call c b) (call-IsCurrent c b h)

contacts_said :
    (a c : String) (v : Value) (b : Builder)
    → lookup (a, c) (update_contacts v b).1.relations ≡ said_in a c v (lookup (a, c) b.relations)
unfolding update_contacts
contacts_said a c nulled_entry b = refl
contacts_said a c failed_entry b = refl
contacts_said a c other_type b = refl
contacts_said a c (of_message msg) b = elim (Option-cases msg.as_contact) [
  | inl skipped ↦ ground (arith, skipped)
  | inr (k, it) ↦ rw it (lookup-insert (msg.author, k.contact) (a, c) (relation_of k) b.relations)
]

announcement_said : (v : Value) (b : Builder) → (update_announcement v b).1.relations ≡ b.relations
unfolding update_announcement set_metafeed_backlink
announcement_said nulled_entry b = refl
announcement_said failed_entry b = refl
announcement_said other_type b = refl
announcement_said (of_message msg) b = ground arith

build_said : (b : Builder) → (build b).1.relations ≡ b.relations
build_said b = elim (Option-cases b.cached_graph) [
  | inl none_yet ↦ rw (build_new b none_yet) refl
  | inr (g, it) ↦ rw (build_cached b g it) refl
]

pub run_said :
    (a c : String) (cs : List Call) (b : Builder)
    → lookup (a, c) (run cs b).relations ≡ last_said a c cs (lookup (a, c) b.relations)
unfolding delete_author
run_said a c [] b = refl
run_said a c (contacts v ∷ cs) b =
    run_said a c cs (update_contacts v b).1 ∙ ap (last_said a c cs) (contacts_said a c v b)
run_said a c (announcement v ∷ cs) b =
    run_said a c cs (update_announcement v b).1
    ∙ ap (λ m. last_said a c cs (lookup (a, c) m)) (announcement_said v b)
run_said a c (building ∷ cs) b =
    run_said a c cs (build b).1 ∙ ap (λ m. last_said a c cs (lookup (a, c) m)) (build_said b)
run_said a c (deleting who ∷ cs) b =
    run_said a c cs (delete_author who b)
    ∙ ap (last_said a c cs) (delete_relations_lem who a c b.relations)

pub build-IsCurrent_graph : (b : Builder) → IsCurrent b → (build b).0 ≡ built b.relations
build-IsCurrent_graph b h = elim (Option-cases b.cached_graph) [
  | inl none_yet ↦ rw (build_new b none_yet) refl
  | inr (g, it) ↦ rw (build_cached b g it) (h.1 g it)
]

abbrev pub says : Relation → Option Relation → Bool
says rel none = false
says rel_following (some rel_following) = true
says rel_blocking (some rel_blocking) = true
says rel (some rel') = false
