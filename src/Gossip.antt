-- ===== src/Gossip.antt =====
-- plugins/gossip/feed_manager.go: how many messages of a feed a CreateStreamHistory request gets from
-- the log, and how many when they are published.
pub mod Limits
pub mod History
pub mod Streams
use metalife_pub.Prelude.{Bool, true, false, if◌then◌else◌}
use metalife_pub.Prelude.Int.{ℤ, pos, negsuc, ◌+ℤ◌, ◌-ℤ◌, ◌=ℤ◌, ltb_ℤ}
use metalife_pub.Prelude.Int64.{to_int64}

-- What is read of `message.CreateHistArgs`.
pub record CreateHistArgs : Type 0 where
  pub limit : ℤ
  pub seq : ℤ

-- `arg.Seq + arg.Limit - 1`
unfoldable pub last_seq : CreateHistArgs → ℤ
last_seq arg = to_int64 (to_int64 (arg.seq +ℤ arg.limit) -ℤ pos 1)

-- `nonliveLimit`
unfoldable pub nonlive_limit : CreateHistArgs → ℤ → ℤ
unfolding last_seq
nonlive_limit arg cur_seq =
    if arg.limit =ℤ negsuc 0
    then negsuc 0
    else let last = (if ltb_ℤ cur_seq (last_seq arg) then cur_seq else last_seq arg) in
      to_int64 (to_int64 (last -ℤ arg.seq) +ℤ pos 1)

-- `liveLimit`
unfoldable pub live_limit : CreateHistArgs → ℤ → ℤ
unfolding last_seq
live_limit arg cur_seq =
    if arg.limit =ℤ negsuc 0
    then negsuc 0
    else let start_seq = to_int64 (cur_seq +ℤ pos 1) in
      if ltb_ℤ (last_seq arg) cur_seq
      then pos 0
      else to_int64 (to_int64 (last_seq arg -ℤ start_seq) +ℤ pos 1)
