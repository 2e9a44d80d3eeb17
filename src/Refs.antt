-- ===== src/Refs.antt =====
-- What the program uses of the package ssb-refs, which is not part of the repository: references
-- to feeds, their canonical text, and their key in the storage layer.
use metalife_pub.Prelude.{String, Option, some, ◌≡◌}

pub record Refs : Type 1 where
  pub Feed : Type 0
  -- `feed.String()`
  pub string : Feed → String
  -- `refs.ParseFeedRef`, `none` for an error
  pub parse_feed_ref : String → Option Feed
  -- `feed.Algo()`
  pub algo : Feed → String
  -- `refs.RefAlgoFeedSSB1`, `refs.RefAlgoFeedGabby`, `refs.RefAlgoFeedBendyButt`
  pub feed_ssb1 : String
  pub feed_gabby : String
  pub feed_bendy_butt : String
  -- `tfk.Encode`, printed in hexadecimal, `none` for an error
  pub hex_tfk : Feed → Option String
  -- The canonical text of a reference is parsed to that reference.
  pub parse-string : (f : Feed) → parse_feed_ref (string f) ≡ some f
