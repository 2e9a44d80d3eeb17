-- ===== src/Tests/Requests.antt =====
-- Examples of a request for a feed, and of its live part.

use metalife_pub.Prelude.{
  ℕ, List, [], ◌∷◌, none, some, Bool, true, false, ◌==◌, if◌then◌else◌, ◌≡◌, ◌≢◌, refl, arith,
  String, string_eq, nat_eq, list_eq, pair_eq, bool_eq, take,
}
use metalife_pub.Prelude.Int.{ℤ, pos, ltb_ℤ, ◌+ℤ◌, ◌-ℤ◌, ◌≤ℤ◌}
use metalife_pub.GoMap.{lookup}
use metalife_pub.GoMap.Laws.{Distinct, lookup-nil}
use metalife_pub.Gossip.Limits.{live_part}
use metalife_pub.Gossip.History.{
  ssb1, Request, key_value, encoding_of, Query, Pumped, all_pumped, gone_live,
  create_stream_history,
}
use metalife_pub.Gossip.Streams.{live_request, no_query, create_stream_history_lem}
use metalife_pub.LiveFeeds.{MultiSink, serve_live_feeds, add_live_feed}
use metalife_pub.LiveFeeds.Limits.{got, messages_of}
use metalife_pub.LiveFeeds.Serving.{add_live_feed_lem}

abbrev plain : Request
plain = record {
  hist = record { limit = pos 0; seq = pos 0 };
  keys = true;
  live = true;
  as_json = false;
  reverse = false;
  lt = pos 0;
  gt = pos 0;
}

abbrev never : Query → Bool
never q = false

abbrev whole : Query → Pumped
whole q = all_pumped

is_plain : encoding_of ssb1 (live_request 2 10 plain) ≡ some (key_value true)
unfolding encoding_of
is_plain = refl

-- Ten messages from the third on, of a feed with six.
create_stream_history_lem_example :
    (ltb_ℤ (pos 5) (pos 2) ≡ true
      → create_stream_history never whole false (some (pos 5)) ssb1 (live_request 2 10 plain)
        ≡ no_query
            (gone_live (key_value true) (pos 5) (live_part (pos 2 +ℤ pos 10 -ℤ pos 1) (pos 5))))
    × (ltb_ℤ (pos 5) (pos 2) ≡ false
        → (q : Query) × (d : ℤ) × (create_stream_history never whole false
              (some (pos 5))
              ssb1
              (live_request 2 10 plain)
            ≡ record { query = some q; ending = gone_live (key_value true) (pos 5) d })
          × ((q.limit +ℤ d ≡ pos 10) × (pos 0 ≤ℤ d) × (pos 0 ≤ℤ q.limit)))
create_stream_history_lem_example =
    create_stream_history_lem never whole false (key_value true) ssb1 plain 2 10 (pos 5) (λ q. refl)
      (λ q. refl) is_plain (omega arith) (omega arith) (omega arith, omega arith)

abbrev sure : ℕ → ℕ → Bool
sure k msg = false

abbrev published : List (String × ℕ)
published = ("@a", 1) ∷ ("@b", 2) ∷ ("@a", 3) ∷ ("@a", 4) ∷ []

add_live_feed_lem_example :
    got 7 (serve_live_feeds sure published (add_live_feed 7 "@a" (pos 5) (pos 2) [])).0
    ≡ take (if 2 == 0 then 1 else 2) (messages_of "@a" published)
add_live_feed_lem_example =
    add_live_feed_lem sure 7 "@a" (pos 5) 2 published [] (λ msg. refl) nothing_there
      (λ f h. absurd (no_feed "@a" f h)) (omega arith) (omega arith) (omega arith)
  where
    no_feed : (b : String) (f : MultiSink) → lookup b [] ≢ some f
    no_feed b f h = cc (lookup-nil {V = MultiSink} b, h)

    nothing_there :
        (b : String) (f : MultiSink)
        → lookup b [] ≡ some f
        → Distinct f.sinks × (lookup 7 f.sinks ≡ none)
    nothing_there b f h = absurd (no_feed b f h)
