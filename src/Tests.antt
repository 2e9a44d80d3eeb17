-- ===== src/Tests.antt =====
-- Test data that the examples share: two feeds, a file system that never fails, and some notes.
mod Wire
mod Matrix
mod Feeds
mod Nodes
mod Requests
mod Repos
mod Graphs
mod Metafeeds
use metalife_pub.Prelude.{
  ℕ, List, [], ◌∷◌, Option, none, some, Bool, true, false, if◌then◌else◌, ◌≡◌, refl, String, eqb,
  string_eq,
}
use metalife_pub.Prelude.Int.{ℤ, pos}
use metalife_pub.Refs.{Refs}
use metalife_pub.Ebt.{Note, NetworkFrontierMap}
use metalife_pub.StateMatrix.{Os}

abbrev pub name : Bool → String
name true = "@a"
name false = "@b"

abbrev pub parsed : String → Option Bool
parsed s = if eqb s "@a" then some true else if eqb s "@b" then some false else none

abbrev hex_name : Bool → Option String
hex_name true = some "0a"
hex_name false = some "0b"

pub parsed-name : (f : Bool) → parsed (name f) ≡ some f
parsed-name true = refl
parsed-name false = refl

-- The feed `true` is ours.
abbrev pub two_feeds : Refs
two_feeds = record {
  Feed = Bool;
  string = name;
  parse_feed_ref = parsed;
  algo = λ f. "ed25519";
  feed_ssb1 = "ed25519";
  feed_gabby = "gabby";
  feed_bendy_butt = "bendybutt";
  hex_tfk = hex_name;
  parse-string = parsed-name;
}

abbrev pub works : Os
works = record { open_fails = λ f. false; write_fails = λ f. false; rename_fails = λ f. false }

abbrev pub note_at : ℕ → Note
note_at n = record { seq = pos n; replicate = true; receive = true }

abbrev pub notes : NetworkFrontierMap
notes = ("@b", note_at 7) ∷ ("junk", note_at 2) ∷ []
