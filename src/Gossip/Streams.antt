-- ===== src/Gossip/Streams.antt =====
-- What a live request with a limit gets.

use metalife_pub.Prelude.{
  ℕ, zero, suc, ◌^◌, ◌<◌, none, some, Bool, true, false, not, ◌==◌, ◌&&◌, if◌then◌else◌, ◌≡◌, refl,
  sym, ap, subst, ◌∙◌, arith, string_eq, nat_eq, list_eq, pair_eq, bool_eq,
}
use metalife_pub.Prelude.Int.{ℤ, pos, negsuc, ltb_ℤ, ◌+ℤ◌, ◌-ℤ◌, ◌=ℤ◌, ◌≤ℤ◌}
use metalife_pub.Prelude.Int64.{to_int64}
use metalife_pub.Gossip.{nonlive_limit, live_limit}
use metalife_pub.Gossip.Limits.{IsSmall, live_part, live_limit_lem, nonlive_limit-live_limit}
use metalife_pub.Gossip.History.{
  Format, Request, Encoding, encoding_of, Query, Pumped, all_pumped, End, gone_live, History,
  from_zero, without_limit, query_of, go_live, run_query, serve, create_stream_history,
}

one_back : (s : ℕ) → s < 2 ^ 61 → to_int64 (pos (suc s) -ℤ pos 1) ≡ pos s
unfolding ◌-ℤ◌
one_back s h = ground arith

small : (n : ℕ) → n < 2 ^ 61 → IsSmall (pos n)
small n h = (omega arith, omega arith)

not_zero : (l : ℕ) → (pos (suc l) =ℤ pos 0) ≡ false
not_zero l = ground arith

limited : (l : ℕ) → (pos l =ℤ negsuc 0) ≡ false
limited l = ground arith

beyond :
    (s l : ℕ) (c : ℤ)
    → ltb_ℤ c (pos s) ≡ true
    → live_part (pos s +ℤ pos (suc l) -ℤ pos 1) c ≡ pos s +ℤ pos l -ℤ c
unfolding ◌+ℤ◌ ◌-ℤ◌
beyond s l c h = ground arith

module _ (query_fails : Query → Bool) (pump : Query → Pumped) (close_fails : Bool) (e : Encoding)
    (goes : (q : Query) → query_fails q ≡ false) (pumps : (q : Query) → pump q ≡ all_pumped) where
  runs :
      (arg' : Request) (c : ℤ)
      → arg'.live ≡ true
      → run_query query_fails pump close_fails e arg' c
        ≡ record { query = some (query_of arg' c); ending = gone_live e c (live_limit arg'.hist c) }
  unfolding run_query go_live
  runs arg' c l = rw (goes (query_of arg' c), run_query) (rw (pumps (query_of arg' c)) (rw l refl))

-- A live request for the messages from number s + 1 on, with a limit.
abbrev pub live_request : ℕ → ℕ → Request → Request
live_request s l arg = record arg {
  hist = record { limit = pos l; seq = pos (suc s) };
  live = true;
}

abbrev pub no_query : End → History
no_query ending = record { query = none; ending = ending }

abbrev first_request : ℕ → ℕ → Request → Request
first_request s l arg = record (live_request s l arg) {
  hist = record { limit = pos l; seq = pos s };
}

from_zero_lem :
    (s l : ℕ) (arg : Request)
    → s < 2 ^ 61
    → from_zero (live_request s l arg) ≡ first_request s l arg
from_zero_lem s l arg b = rw (not_zero s) (
    ap (λ x. record (live_request s l arg) { hist = record { limit = pos l; seq = x } })
      (one_back s b))

module _ (query_fails : Query → Bool) (pump : Query → Pumped) (close_fails : Bool) where
  found :
      (e : Encoding) (format : Format) (arg : Request) (c : ℤ)
      → encoding_of format arg ≡ some e
      → create_stream_history query_fails pump close_fails (some c) format arg
        ≡ serve query_fails pump close_fails e arg c
  unfolding create_stream_history
  found e format arg c h = rw (h, create_stream_history) refl

  starts :
      (e : Encoding) (s l : ℕ) (arg : Request) (c : ℤ)
      → s < 2 ^ 61
      → serve query_fails pump close_fails e (live_request s l arg) c ≡ (
          if ltb_ℤ c (pos s)
          then no_query (gone_live e c (live_limit (first_request s l arg).hist c))
          else run_query query_fails pump close_fails e (without_limit (first_request s l arg)) c)
  unfolding serve go_live
  starts e s l arg c b =
      ap
        (λ x.
          if not (pos (suc s) =ℤ pos 0) && ltb_ℤ c x.hist.seq
          then no_query (
              if x.live
              then go_live query_fails pump close_fails e x c
              else (if close_fails then End.close_failed else End.closed))
          else run_query query_fails pump close_fails e (without_limit x) c)
        (from_zero_lem s l arg b)
      ∙ rw (not_zero s) refl

abbrev Splits : ℕ → Query → ℤ → Type 0
Splits l q d =
    if l == 0
    then (q.limit ≡ negsuc 0) × (d ≡ negsuc 0)
    else (q.limit +ℤ d ≡ pos l) × (pos 0 ≤ℤ d) × (pos 0 ≤ℤ q.limit)

reaches : (c : ℤ) (s : ℕ) → ltb_ℤ c (pos s) ≡ false → pos s ≤ℤ c +ℤ pos 1
unfolding ◌+ℤ◌
reaches c s h = ground arith

suc_ne : (l : ℕ) → (suc l == 0) ≡ false
suc_ne l = ground arith

kept_limit :
    (arg : Request) (s l : ℕ)
    → without_limit (first_request s (suc l) arg) ≡ first_request s (suc l) arg
kept_limit arg s l = rw (not_zero l) refl

no_limit :
    (arg : Request) (s : ℕ) (c : ℤ)
    → ((query_of (without_limit (first_request s 0 arg)) c).limit ≡ negsuc 0)
      × (live_limit (without_limit (first_request s 0 arg)).hist c ≡ negsuc 0)
unfolding query_of nonlive_limit live_limit
no_limit arg s c = (refl, refl)

query_limit : (arg : Request) (c : ℤ) → (query_of arg c).limit ≡ nonlive_limit arg.hist c
unfolding query_of
query_limit arg c = refl

-- What the query and the live part of a request share.
shared :
    (arg : Request) (s l : ℕ) (c : ℤ)
    → s < 2 ^ 61
    → l < 2 ^ 61
    → IsSmall c
    → ltb_ℤ c (pos s) ≡ false
    → Splits l
        (query_of (without_limit (first_request s l arg)) c)
        (live_limit (without_limit (first_request s l arg)).hist c)
shared arg s zero c bs bl bc h = no_limit arg s c
shared arg s (suc l) c bs bl bc h =
    let first : Request = first_request s (suc l) arg in
    let (sum, rest, start) =
      nonlive_limit-live_limit first.hist c (small s bs) (small (suc l) bl) bc (limited (suc l)) in
    subst (λ x. Splits (suc l) (query_of x c) (live_limit x.hist c)) (sym (kept_limit arg s l))
      (rw (suc_ne l) (rw (query_limit first c) (sum, rest, start (reaches c s h))))

still_live : (arg : Request) (s l : ℕ) → (without_limit (first_request s l arg)).live ≡ true
still_live arg s l = ground arith

-- Where the feed's log is open, its format is supported, and no query fails, a live request for the
-- messages from number s + 1 on with a limit l ends in the live feeds. Beyond the end c of the log
-- nothing is queried, and the limit of the live part is s + l - 1 - c, also where l is 0. Otherwise
-- the limits of the query and of the live part are not negative and make l together if l is not 0,
-- and there is no limit in either if l is 0.
pub create_stream_history_lem :
    (query_fails : Query → Bool) (pump : Query → Pumped) (close_fails : Bool) (e : Encoding)
    (format : Format) (arg : Request) (s l : ℕ) (c : ℤ)
    → ((q : Query) → query_fails q ≡ false)
    → ((q : Query) → pump q ≡ all_pumped)
    → encoding_of format (live_request s l arg) ≡ some e
    → s < 2 ^ 61
    → l < 2 ^ 61
    → IsSmall c
    → (ltb_ℤ c (pos s) ≡ true
        → create_stream_history query_fails pump close_fails (some c) format (live_request s l arg)
          ≡ no_query (gone_live e c (live_part (pos s +ℤ pos l -ℤ pos 1) c)))
      × (ltb_ℤ c (pos s) ≡ false
          → (q : Query) × (d : ℤ) × (create_stream_history query_fails pump close_fails
                (some c)
                format
                (live_request s l arg)
              ≡ record { query = some q; ending = gone_live e c d })
            × (if l == 0
                then (q.limit ≡ negsuc 0) × (d ≡ negsuc 0)
                else (q.limit +ℤ d ≡ pos l) × (pos 0 ≤ℤ d) × (pos 0 ≤ℤ q.limit)))
unfolding query_of
create_stream_history_lem query_fails pump close_fails e format arg s l c goes pumps enc bs bl bc =
    let first : Request = first_request s l arg in
    let start =
      found query_fails pump close_fails e format (live_request s l arg) c enc
      ∙ starts query_fails pump close_fails e s l arg c bs in
    (
      λ gap.
          start
          ∙ (rw gap (
              ap (λ d. no_query (gone_live e c d))
                (live_limit_lem first.hist c (small s bs) (small l bl) bc (limited l)))),
      λ in_log.
          let last : Request = without_limit first in
          (
            query_of last c,
            live_limit last.hist c,
            start
                ∙ (rw in_log
                    (runs query_fails pump close_fails e goes pumps last c (still_live arg s l))),
            shared arg s l c bs bl bc in_log,
          ),
    )
