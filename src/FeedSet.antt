-- ===== src/FeedSet.antt =====
-- feedset.go: `StrFeedSet`, a set of feeds. A feed is its key in the storage layer, from which
-- ssb-refs restores the reference; the order of a set stands for that of one `range` loop.
pub mod Laws
use mathlib.Core.Option
use mathlib.Core.List.Memᴰ
use metalife_pub.Prelude.{
  ℕ, zero, suc, ◌+◌, ◌-◌, ◌*◌, ◌/◌, ◌%◌, ◌^◌, ◌<◌, ◌≤◌, List, [], ◌∷◌, ◌++◌, map, Memᴰ, Option,
  none, some, Bool, true, false, not, ◌==◌, ltb, leb, ◌&&◌, ◌||◌, if◌then◌else◌, ◌≡◌, ◌≢◌, ◌↔◌, ◌⊎◌,
  inl, inr, refl, sym, ap, subst, ◌∙◌, arith, Bool-cases, Option-cases, String, Eq, eqb, eqb_iff,
  eqb_refl, eqb_comm, eqb_ne, string_eq, nat_eq, list_eq, pair_eq, bool_eq, or_else, is_some,
  length, Result, ok, err, All, take, drop, get_elem?, ==_iff,
}
use metalife_pub.Prelude.Int.{ℤ, pos, negsuc, ltb_ℤ, ◌+ℤ◌, ◌-ℤ◌, ◌=ℤ◌, ◌≤ℤ◌}
use metalife_pub.Prelude.Int64.{to_uint64, to_int64, to_int64_id, IsInt64}
use metalife_pub.GoMap.{GoMap, lookup, insert, delete}
use metalife_pub.GoMap.Laws.{
  lookup-insert, lookup-insert_self, lookup-delete, Distinct, insert-Distinct, delete-Distinct,
  mem_of_lookup, lookup_of_mem, AllValues, insert-AllValues, overwrite_step, overwrite_step_same,
  lookup-cons_ne, lookup-cons, lookup-nil,
}

abbrev pub FeedSet : Type 0
FeedSet = GoMap String (Unit {0})

-- `NewFeedSet`
abbrev pub new_feed_set : FeedSet
new_feed_set = []

-- `AddRef`
unfoldable pub add_ref : String → FeedSet → FeedSet
add_ref feed fs = insert feed tt fs

-- `Delete`
unfoldable pub delete_ref : String → FeedSet → FeedSet
delete_ref feed fs = delete feed fs

-- `Count`
unfoldable pub count : FeedSet → ℕ
count fs = length fs

-- `List`
unfoldable pub list : FeedSet → List String
list [] = []
list ((feed, _) ∷ fs) = feed ∷ list fs

-- `Has`
unfoldable pub has_ref : FeedSet → String → Bool
has_ref fs feed = is_some (lookup feed fs)
