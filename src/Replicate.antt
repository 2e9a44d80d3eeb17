-- ===== src/Replicate.antt =====
-- sbot/replicate.go: which feeds are wanted and which are blocked, and how both follow the graph into
-- the state matrix. A set is listed in the order of one `range` loop; the locks and the timer that
-- starts an update are left out.
pub mod Notes
pub mod Turns
pub mod Loops
pub mod Updates
pub mod Safety
use mathlib.Core.Option
use mathlib.Core.List.Memᴰ
use metalife_pub.Prelude.{
  ℕ, zero, suc, ◌+◌, ◌-◌, ◌*◌, ◌/◌, ◌%◌, ◌^◌, ◌<◌, ◌≤◌, List, [], ◌∷◌, ◌++◌, map, Memᴰ, Option,
  none, some, Bool, true, false, not, ◌==◌, ltb, leb, ◌&&◌, ◌||◌, if◌then◌else◌, ◌≡◌, ◌≢◌, ◌↔◌, ◌⊎◌,
  inl, inr, refl, sym, ap, subst, ◌∙◌, arith, Bool-cases, Option-cases, String, Eq, eqb, eqb_iff,
  eqb_refl, eqb_comm, eqb_ne, string_eq, nat_eq, list_eq, pair_eq, bool_eq, or_else, is_some,
  length, All, take, drop, get_elem?, ==_iff,
}
use metalife_pub.Prelude.Int.{ℤ, pos, negsuc, ltb_ℤ, ◌+ℤ◌, ◌-ℤ◌, ◌=ℤ◌, ◌≤ℤ◌}
use metalife_pub.Prelude.Int64.{to_uint64, to_int64, to_int64_id, IsInt64}
use metalife_pub.GoMap.{GoMap, lookup, insert, delete}
use metalife_pub.GoMap.Laws.{
  lookup-insert, lookup-insert_self, lookup-delete, Distinct, insert-Distinct, delete-Distinct,
  mem_of_lookup, lookup_of_mem, AllValues, insert-AllValues, overwrite_step, overwrite_step_same,
  lookup-cons_ne, lookup-cons, lookup-nil,
}
use metalife_pub.Refs.{Refs}
use metalife_pub.Ebt.{Note}
use metalife_pub.StateMatrix.{StateMatrix, Outcome, ok, err, panic, parse_failed, Os, M}
use metalife_pub.StateMatrix.Queries.{wants_feed}
use metalife_pub.StateMatrix.Changes.{fill}
use metalife_pub.FeedSet.{FeedSet, new_feed_set, add_ref, delete_ref, list, has_ref}
use metalife_pub.Graph.{Builder, build, blocked_list}
use metalife_pub.Hops.{hops}

-- `graphReplicator` with its `lister`, and the state matrix of the bot.
pub record Replicator : Type 0 where
  pub feed_wants : FeedSet
  pub blocked : FeedSet
  pub ebt_state : StateMatrix

abbrev pub Run {ℓ} : Type ℓ → Type ℓ
Run A = Replicator → Outcome A × Replicator

infixl 5 ◌>>=◌
abbrev pub ◌>>=◌ {ℓ κ} : {A : Type ℓ} {B : Type κ} → Run A → (A → Run B) → Run B
◌>>=◌ m f s =
    let (o, s') = m s in elim o [ ok a ↦ f a s' | err e ↦ (err e, s') | panic ↦ (panic, s') ]

-- A call of a method of the state matrix.
abbrev pub on_matrix {ℓ} : {A : Type ℓ} → M A → Run A
on_matrix m s = let (o, matrix) = m s.ebt_state in (o, record s { ebt_state = matrix })

abbrev pub or_fail {ℓ} : {A : Type ℓ} → Option A → Run A
or_fail none s = (err parse_failed, s)
or_fail (some a) s = (ok a, s)

-- A loop that appends what its turns add.
unfoldable pub collect {ℓ κ} :
    {A : Type ℓ} {B : Type κ} → (A → Run (List B)) → List A → Run (List B)
collect body [] s = (ok [], s)
collect body (a ∷ as') s = (do xs ← body a; ys ← collect body as'; λ s'. (ok (xs ++ ys), s')) s

-- What `Authorize` returns.
pub data Verdict : Type 0 where
  allowed peer_blocked access_denied : Verdict

-- `lister.Authorize`
unfoldable pub authorize : String → Replicator → Verdict
unfolding has_ref
authorize remote s =
    if has_ref s.blocked remote
    then peer_blocked
    else if has_ref s.feed_wants remote
    then allowed
    else access_denied

-- `graphReplicator.Block`, `Unblock`, `Replicate` and `DontReplicate`
unfoldable pub block : String → Replicator → Replicator
unfolding add_ref
block ref s = record s { blocked = add_ref ref s.blocked }

unfoldable pub unblock : String → Replicator → Replicator
unfolding delete_ref
unblock ref s = record s { blocked = delete_ref ref s.blocked }

unfoldable pub want : String → Replicator → Replicator
unfolding add_ref
want ref s = record s { feed_wants = add_ref ref s.feed_wants }

unfoldable pub unwant : String → Replicator → Replicator
unfolding delete_ref
unwant ref s = record s { feed_wants = delete_ref ref s.feed_wants }

module _ (r : Refs) (os : Os) where
  open r use {Feed, string, parse_feed_ref, algo, feed_bendy_butt}

  abbrev pub parse_all : List String → Option (List Feed)
  parse_all [] = some []
  parse_all (k ∷ ks) = elim (parse_feed_ref k) [
    | none ↦ none
    | some f ↦ Option.map (λ fs. f ∷ fs) (parse_all ks)
  ]

  -- The body of the loop over the new want list.
  unfoldable pub new_want : Feed → Feed → Run (List (Feed × Note))
  unfolding wants_feed want has_ref
  new_want self new_feed s = elim (has_ref s.feed_wants (string new_feed)) [
    | true ↦ (ok [], s)
    | false ↦
        (do
          (curr_note, wants) ← on_matrix (wants_feed r os self new_feed)
          λ s'. (
            ok (
                if not wants
                then (new_feed, record curr_note { receive = true; replicate = true }) ∷ []
                else []),
            s',
          ))
          (want (string new_feed) s)
  ]

  -- The body of the loop over the current want list.
  unfoldable pub old_want : Feed → FeedSet → Feed → Run (List (Feed × Note))
  unfolding wants_feed has_ref
  old_want self new_set curr_feed s = elim (has_ref new_set (string curr_feed)) [
    | true ↦ (ok [], s)
    | false ↦
        (do
          (curr_note, wants) ← on_matrix (wants_feed r os self curr_feed)
          λ s'. (
            ok (
                if wants
                then (curr_feed, record curr_note { receive = false; replicate = true }) ∷ []
                else []),
            s',
          ))
          s
  ]

  -- The body of the loop over the blocked feeds.
  unfoldable pub block_feed : Feed → Feed → Run (List (Feed × Note))
  unfolding wants_feed block unwant
  block_feed self bf s =
      (do
        (curr_note, wants) ← on_matrix (wants_feed r os self bf)
        λ s'. (
          ok (
              if wants
              then (bf, record curr_note { receive = false; replicate = false }) ∷ []
              else []),
          s',
        ))
        (unwant (string bf) (block (string bf) s))

  unfoldable pub block_feeds : Feed → FeedSet → Run (List (Feed × Note))
  unfolding collect block_feed list
  block_feeds self new_blocked s = elim (parse_all (list new_blocked)) [
    | none ↦ (ok [], s)
    | some lst ↦ collect (block_feed self) lst s
  ]

  -- The function that `makeUpdater` returns, of the feeds within reach and the feeds that we block.
  unfoldable pub update_with : Feed → FeedSet → FeedSet → Run (Unit {0})
  unfolding collect new_want old_want block_feeds list fill
  update_with self new_set new_blocked = do
    new_want_list ← or_fail (parse_all (list new_set))
    ups1 ← collect (new_want self) new_want_list
    curr_want_list ← λ s. or_fail (parse_all (list s.feed_wants)) s
    ups2 ← collect (old_want self new_set) curr_want_list
    ups3 ← block_feeds self new_blocked
    on_matrix (fill r os self (ups1 ++ (ups2 ++ ups3)))

  abbrev pub is_bendy_butt : String → Bool
  is_bendy_butt key = elim (parse_feed_ref key) [
    | none ↦ false
    | some f ↦ eqb (algo f) feed_bendy_butt
  ]

  -- `makeUpdater`, of the index of the graph: `none` for no fuel left in `Hops`.
  unfoldable pub make_updater :
      ℕ → Feed → ℕ → Builder → Replicator → Option (Outcome (Unit {0}) × Replicator)
  unfolding update_with hops build blocked_list
  make_updater fuel self hop_count b s =
      Option.map (λ new_set. update_with self new_set (blocked_list (string self) (build b).0) s)
        (hops is_bendy_butt b fuel (string self) hop_count)

  abbrev pub or_panic : Run (Unit {0}) → Run (Unit {0})
  or_panic m s =
      let (o, s') = m s in elim o [ ok u ↦ (ok u, s') | err e ↦ (panic, s') | panic ↦ (panic, s') ]

  -- `Sbot.Replicate` and `Sbot.DontReplicate`, of what the log of the feed says is its last sequence.
  unfoldable pub replicate : Feed → Feed → ℤ → Run (Unit {0})
  unfolding fill want
  replicate self feed l = do
    _ ← or_panic (
        on_matrix
          (fill r os self ((feed, record { seq = l; receive = true; replicate = true }) ∷ [])))
    λ s. (ok tt, want (string feed) s)

  unfoldable pub dont_replicate : Feed → Feed → ℤ → Run (Unit {0})
  unfolding fill unwant
  dont_replicate self feed l = do
    _ ← or_panic (
        on_matrix
          (fill r os self ((feed, record { seq = l; receive = false; replicate = true }) ∷ [])))
    λ s. (ok tt, unwant (string feed) s)
