-- ===== src/Hops.antt =====
-- graph/builder.go: what the key-value store says of one feed, `Follows`, `Metafeed` and `Subfeeds`,
-- and `Hops`, the feeds within reach of one. The recursion of `recurseHops` is on fuel, `none` for no
-- fuel left.
pub mod Loops
pub mod Divergence
pub mod Near
pub mod Reach
use mathlib.Core.Option
use mathlib.Core.List.Memᴰ
use metalife_pub.Prelude.{
  ℕ, zero, suc, ◌+◌, ◌-◌, ◌*◌, ◌/◌, ◌%◌, ◌^◌, ◌<◌, ◌≤◌, List, [], ◌∷◌, ◌++◌, map, Memᴰ, Option,
  none, some, Bool, true, false, not, ◌==◌, ltb, leb, ◌&&◌, ◌||◌, if◌then◌else◌, ◌≡◌, ◌≢◌, ◌↔◌, ◌⊎◌,
  inl, inr, refl, sym, ap, subst, ◌∙◌, arith, Bool-cases, Option-cases, String, Eq, eqb, eqb_iff,
  eqb_refl, eqb_comm, eqb_ne, string_eq, nat_eq, list_eq, pair_eq, bool_eq, or_else, is_some,
  length, Result, ok, err, All, take, drop, get_elem?, ==_iff,
}
use metalife_pub.Prelude.Int.{ℤ, pos, negsuc, ltb_ℤ, ◌+ℤ◌, ◌-ℤ◌, ◌=ℤ◌, ◌≤ℤ◌}
use metalife_pub.Prelude.Int64.{to_uint64, to_int64, to_int64_id, IsInt64}
use metalife_pub.GoMap.{GoMap, lookup, insert, delete}
use metalife_pub.GoMap.Laws.{
  lookup-insert, lookup-insert_self, lookup-delete, Distinct, insert-Distinct, delete-Distinct,
  mem_of_lookup, lookup_of_mem, AllValues, insert-AllValues, overwrite_step, overwrite_step_same,
  lookup-cons_ne, lookup-cons, lookup-nil,
}
use metalife_pub.FeedSet.{FeedSet, new_feed_set, add_ref, delete_ref, list, has_ref}
use metalife_pub.Graph.{Relation, rel_none, rel_following, rel_blocking, rel_metafeed, Builder}

infixl 5 ◌>>=◌
abbrev pub ◌>>=◌ {ℓ κ} : {A : Type ℓ} {B : Type κ} → Option A → (A → Option B) → Option B
o >>= f = elim o [ none ↦ none | some a ↦ f a ]

abbrev pub is_following : Relation → Bool
is_following rel_none = false
is_following rel_following = true
is_following rel_blocking = false
is_following rel_metafeed = false

abbrev pub is_metafeed : Relation → Bool
is_metafeed rel_none = false
is_metafeed rel_following = false
is_metafeed rel_blocking = false
is_metafeed rel_metafeed = true

-- The loop over the entries below the key of `who`.
unfoldable pub targets :
    (Relation → Bool) → String → GoMap (String × String) Relation → FeedSet → FeedSet
unfolding add_ref
targets p who [] fs = fs
targets p who (((from, to), rel) ∷ m) fs =
    targets p who m (if eqb from who && p rel then add_ref to fs else fs)

-- `Follows`
unfoldable pub follows_of : Builder → String → FeedSet
unfolding targets
follows_of b who = targets is_following who b.relations new_feed_set

-- `Subfeeds`
unfoldable pub subfeeds_of : Builder → String → FeedSet
unfolding targets
subfeeds_of b meta = targets is_metafeed meta b.relations new_feed_set

-- `Metafeed`
unfoldable pub metafeed_of : Builder → String → Option String
metafeed_of b sub = lookup sub b.backlinks

-- The sets that the recursion fills.
pub record Walk : Type 0 where
  pub walked : FeedSet
  pub visited : FeedSet

abbrev pub walk_to : String → Walk → Walk
walk_to feed w = record w { walked = add_ref feed w.walked }

-- A loop whose body may run out of fuel.
unfoldable pub each : (String → Walk → Option Walk) → List String → Walk → Option Walk
each body [] w = some w
each body (f ∷ fs) w = elim (body f w) [ none ↦ none | some w' ↦ each body fs w' ]

module _ (is_bendy_butt : String → Bool) (b : Builder) where
  -- `recurseSubfeeds`, where `recurse` is the recursive call.
  unfoldable pub recurse_subfeeds :
      (String → ℕ → Walk → Option Walk) → ℕ → String → Walk → Option Walk
  unfolding each subfeeds_of add_ref list
  recurse_subfeeds recurse depth feed w = elim (is_bendy_butt feed) [
    | false ↦ some w
    | true ↦ each (λ sub w'. recurse sub depth (walk_to sub w')) (list (subfeeds_of b feed)) w
  ]

  -- The block that looks for the metafeed of a feed.
  unfoldable pub recurse_metafeed :
      (String → ℕ → Walk → Option Walk) → ℕ → String → Walk → Option Walk
  unfolding recurse_subfeeds metafeed_of add_ref
  recurse_metafeed recurse depth feed w = elim (metafeed_of b feed) [
    | none ↦ some w
    | some mf ↦ recurse_subfeeds recurse depth mf (walk_to mf w)
  ]

  -- The block that recurses to a feed that follows `who` back.
  unfoldable pub recurse_friend :
      (String → ℕ → Walk → Option Walk) → String → ℕ → String → Walk → Option Walk
  unfolding follows_of has_ref
  recurse_friend recurse who depth feed w = elim (has_ref (follows_of b feed) who) [
    | false ↦ some w
    | true ↦ recurse feed (depth - 1) w
  ]

  -- The body of the loop over the feeds that `who` follows.
  unfoldable pub recurse_follow :
      (String → ℕ → Walk → Option Walk) → String → ℕ → String → Walk → Option Walk
  unfolding recurse_subfeeds recurse_metafeed recurse_friend add_ref
  recurse_follow recurse who depth feed w = do
    w1 ← recurse_metafeed recurse depth feed (walk_to feed w)
    w2 ← recurse_subfeeds recurse depth feed w1
    recurse_friend recurse who depth feed w2

  -- `recurseHops` below its tests, for a feed that was not visited.
  unfoldable pub expand : (String → ℕ → Walk → Option Walk) → String → ℕ → Walk → Option Walk
  unfolding recurse_subfeeds recurse_follow each follows_of list add_ref
  expand recurse who depth w = do
    w1 ← recurse_subfeeds recurse depth who w
    w2 ← each (recurse_follow recurse who depth) (list (follows_of b who)) w1
    some (record w2 { visited = add_ref who w2.visited })

  -- `recurseHops`
  unfoldable pub recurse_hops : ℕ → String → ℕ → Walk → Option Walk
  unfolding expand has_ref
  recurse_hops zero who depth w = none
  recurse_hops (suc fuel) who zero w = some w
  recurse_hops (suc fuel) who (suc depth) w = elim (has_ref w.visited who) [
    | true ↦ some w
    | false ↦ expand (recurse_hops fuel) who (suc depth) w
  ]

  -- `Hops`
  unfoldable pub hops : ℕ → String → ℕ → Option FeedSet
  unfolding recurse_hops delete_ref
  hops fuel from max =
      Option.map (λ w. delete_ref from w.walked)
        (recurse_hops fuel from (suc max)
          (record { walked = new_feed_set; visited = new_feed_set }))
