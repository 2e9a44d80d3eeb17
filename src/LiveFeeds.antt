-- ===== src/LiveFeeds.antt =====
-- internal/luigiutils/multisink.go and the live feeds of plugins/gossip/feed_manager.go: a message that
-- is published goes to every sink that asked for its feed, until the sink has had enough. A sink is
-- the number of its pointer; whether pouring a message into it fails is the parameter `fails`. The
-- context of a sink is left out: it is stored, and nothing reads it.
pub mod Limits
pub mod Serving
use mathlib.Core.Option
use mathlib.Core.List.Memᴰ
use metalife_pub.Prelude.{
  ℕ, zero, suc, ◌+◌, ◌-◌, ◌*◌, ◌/◌, ◌%◌, ◌^◌, ◌<◌, ◌≤◌, List, [], ◌∷◌, ◌++◌, map, Memᴰ, Option,
  none, some, Bool, true, false, not, ◌==◌, ltb, leb, ◌&&◌, ◌||◌, if◌then◌else◌, ◌≡◌, ◌≢◌, ◌↔◌, ◌⊎◌,
  inl, inr, refl, sym, ap, subst, ◌∙◌, arith, Bool-cases, Option-cases, String, Eq, eqb, eqb_iff,
  eqb_refl, eqb_comm, eqb_ne, string_eq, nat_eq, list_eq, pair_eq, bool_eq, or_else, is_some,
  length, Result, ok, err, All, take, drop, get_elem?, ==_iff,
}
use metalife_pub.Prelude.Int.{ℤ, pos, negsuc, ltb_ℤ, ◌+ℤ◌, ◌-ℤ◌, ◌=ℤ◌, ◌≤ℤ◌}
use metalife_pub.Prelude.Int64.{to_uint64, to_int64, to_int64_id, IsInt64}
use metalife_pub.GoMap.{GoMap, lookup, insert, delete}
use metalife_pub.GoMap.Laws.{
  lookup-insert, lookup-insert_self, lookup-delete, Distinct, insert-Distinct, delete-Distinct,
  mem_of_lookup, lookup_of_mem, AllValues, insert-AllValues, overwrite_step, overwrite_step_same,
  lookup-cons_ne, lookup-cons, lookup-nil,
}

-- What `FeedManager.pour` is called with.
pub data Polled (A : Type 0) : Type 0 where
  polled : String → A → Polled A
  end_of_stream : Polled A
  poll_failed : Polled A

-- `MultiSink`, the sinks with their `until`.
pub record MultiSink : Type 0 where
  pub seq : ℤ
  pub is_closed : Bool
  pub sinks : GoMap ℕ ℤ

-- `NewMultiSink`
unfoldable pub new_multi_sink : ℤ → MultiSink
new_multi_sink seq = record { seq = seq; is_closed = false; sinks = [] }

-- `Register`
unfoldable pub register : ℕ → ℤ → MultiSink → MultiSink
register sink until f = record f { sinks = insert sink until f.sinks }

-- `Unregister`
unfoldable pub unregister : ℕ → MultiSink → MultiSink
unregister sink f = record f { sinks = delete sink f.sinks }

-- `Count`
unfoldable pub count : MultiSink → ℕ
count f = length f.sinks

-- `Close`
unfoldable pub close : MultiSink → MultiSink
close f = record f { is_closed = true }

module _ {A : Type 0} (fails : ℕ → A → Bool) where
  -- The loop of `Send`: what the sinks are poured, and the sinks that stay.
  unfoldable pub pour_sinks : A → ℤ → GoMap ℕ ℤ → List (ℕ × A) × GoMap ℕ ℤ
  pour_sinks msg seq [] = ([], [])
  pour_sinks msg seq ((s, until) ∷ sinks) =
      let (poured, kept) = pour_sinks msg seq sinks in
      ((s, msg) ∷ poured, if fails s msg || not (ltb_ℤ seq until) then kept else (s, until) ∷ kept)

  -- `Send`
  unfoldable pub send : A → MultiSink → List (ℕ × A) × MultiSink
  unfolding pour_sinks
  send msg f =
      if f.is_closed
      then ([], f)
      else let seq = to_int64 (f.seq +ℤ pos 1) in
        let (poured, kept) = pour_sinks msg seq f.sinks in
        (poured, record f { seq = seq; sinks = kept })

  -- `FeedManager.pour` from where it has a message, of the message and its author.
  unfoldable pub pour : String → A → GoMap String MultiSink → List (ℕ × A) × GoMap String MultiSink
  unfolding send
  pour author msg live_feeds = elim (lookup author live_feeds) [
    | none ↦ ([], live_feeds)
    | some sink ↦ let (poured, sink') = send msg sink in (poured, insert author sink' live_feeds)
  ]

  -- `FeedManager.pour`: whether it returns without an error, and what it does.
  unfoldable pub pour_value :
      Polled A → GoMap String MultiSink → Bool × List (ℕ × A) × GoMap String MultiSink
  unfolding pour
  pour_value end_of_stream live_feeds = (true, [], live_feeds)
  pour_value poll_failed live_feeds = (false, [], live_feeds)
  pour_value (polled author msg) live_feeds =
      let (poured, live_feeds') = pour author msg live_feeds in (true, poured, live_feeds')

  -- `serveLiveFeeds` while no poll fails: the messages that come to the receive log, in their order.
  unfoldable pub serve_live_feeds :
      List (String × A) → GoMap String MultiSink → List (ℕ × A) × GoMap String MultiSink
  unfolding pour
  serve_live_feeds [] live_feeds = ([], live_feeds)
  serve_live_feeds ((author, msg) ∷ msgs) live_feeds =
      let (poured, live_feeds') = pour author msg live_feeds in
      let (rest, live_feeds'') = serve_live_feeds msgs live_feeds' in (poured ++ rest, live_feeds'')

-- `math.MaxInt64`
abbrev pub max_int64 : ℤ
max_int64 = pos 9223372036854775807

-- `FeedManager.addLiveFeed`
unfoldable pub add_live_feed : ℕ → String → ℤ → ℤ → GoMap String MultiSink → GoMap String MultiSink
unfolding register new_multi_sink
add_live_feed sink ssb_id seq limit live_feeds =
    let live_feed : MultiSink = elim (lookup ssb_id live_feeds) [
      | none ↦ new_multi_sink seq
      | some f ↦ f
    ] in
    let until = if limit =ℤ negsuc 0 then max_int64 else to_int64 (seq +ℤ limit) in
    insert ssb_id (register sink until live_feed) live_feeds
