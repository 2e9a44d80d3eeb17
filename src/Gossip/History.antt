-- ===== src/Gossip/History.antt =====
-- plugins/gossip/feed_manager.go: `CreateStreamHistory`, from the request to the query that is run and
-- to how the stream ends. The log, the query and the pump are parameters: the last place in the feed's
-- log, `none` if it does not open, whether a query is refused, and how its pump ends.

use metalife_pub.Prelude.{
  Option, none, some, Bool, not, ◌&&◌, if◌then◌else◌, string_eq, nat_eq, list_eq, pair_eq, bool_eq,
}
use metalife_pub.Prelude.Int.{ℤ, pos, negsuc, ltb_ℤ, ◌-ℤ◌, ◌=ℤ◌}
use metalife_pub.Prelude.Int64.{to_int64}
use metalife_pub.Gossip.{CreateHistArgs, nonlive_limit, live_limit}

-- `feed.Algo()`
pub data Format : Type 0 where
  ssb1 gabby bendy_butt other_format : Format

-- The rest of `message.CreateHistArgs`.
pub record Request : Type 0 where
  pub hist : CreateHistArgs
  pub keys : Bool
  pub live : Bool
  pub as_json : Bool
  pub reverse : Bool
  pub lt : ℤ
  pub gt : ℤ

-- The sink that wraps and encodes the messages.
pub data Encoding : Type 0 where
  key_value : Bool → Encoding
  gabby_stream bendy_stream : Encoding

unfoldable pub encoding_of : Format → Request → Option Encoding
encoding_of ssb1 arg = some (key_value arg.keys)
encoding_of gabby arg = some (if arg.as_json then key_value arg.keys else gabby_stream)
encoding_of bendy_butt arg = some (if arg.as_json then key_value arg.keys else bendy_stream)
encoding_of other_format arg = none

-- The query specifications.
pub record Query : Type 0 where
  pub limit : ℤ
  pub reverse : Bool
  pub gte : Option ℤ
  pub lt : Option ℤ
  pub gt : Option ℤ

pub data Pumped : Type 0 where
  all_pumped sink_gone pump_broken : Pumped

-- How the call ends: added to the live feeds from a place on with a limit, with the sink closed, or
-- with an error.
pub data End : Type 0 where
  gone_live : Encoding → ℤ → ℤ → End
  closed close_failed no_log unsupported_format invalid_query pump_failed : End

pub record History : Type 0 where
  pub query : Option Query
  pub ending : End

-- `arg.Seq--`
abbrev pub from_zero : Request → Request
from_zero arg =
    if arg.hist.seq =ℤ pos 0
    then arg
    else record arg { hist = record arg.hist { seq = to_int64 (arg.hist.seq -ℤ pos 1) } }

-- `if arg.Live && arg.Limit == 0 { arg.Limit = -1 }`
abbrev pub without_limit : Request → Request
without_limit arg =
    if arg.live && arg.hist.limit =ℤ pos 0
    then record arg { hist = record arg.hist { limit = negsuc 0 } }
    else arg

abbrev pub if_positive : ℤ → Option ℤ
if_positive i = if ltb_ℤ (pos 0) i then some i else none

unfoldable pub query_of : Request → ℤ → Query
unfolding nonlive_limit
query_of arg latest = record {
  limit = nonlive_limit arg.hist latest;
  reverse = arg.reverse;
  gte = if_positive arg.hist.seq;
  lt = if_positive arg.lt;
  gt = if_positive arg.gt;
}

module _ (query_fails : Query → Bool) (pump : Query → Pumped) (close_fails : Bool) where
  abbrev pub close_sink : End
  close_sink = if close_fails then close_failed else closed

  unfoldable pub go_live : Encoding → Request → ℤ → End
  unfolding live_limit
  go_live e arg latest = gone_live e latest (live_limit arg.hist latest)

  unfoldable pub run_query : Encoding → Request → ℤ → History
  unfolding query_of go_live
  run_query e arg latest =
      let q = query_of arg latest in
      if query_fails q then record { query = none; ending = invalid_query } else record {
        query = some q;
        ending = elim (pump q) [
          | sink_gone ↦ closed
          | pump_broken ↦ pump_failed
          | all_pumped ↦ if arg.live then go_live e arg latest else close_sink
        ];
      }

  -- `CreateStreamHistory`, after the encoding was found.
  unfoldable pub serve : Encoding → Request → ℤ → History
  unfolding run_query go_live
  serve e arg latest =
      let arg' = from_zero arg in
      if not (arg.hist.seq =ℤ pos 0) && ltb_ℤ latest arg'.hist.seq
      then record { query = none; ending = if arg'.live then go_live e arg' latest else close_sink }
      else run_query e (without_limit arg') latest

  -- `CreateStreamHistory`
  unfoldable pub create_stream_history : Option ℤ → Format → Request → History
  unfolding serve encoding_of
  create_stream_history none format arg = record { query = none; ending = no_log }
  create_stream_history (some latest) format arg = elim (encoding_of format arg) [
    | none ↦ record { query = none; ending = unsupported_format }
    | some e ↦ serve e arg latest
  ]
