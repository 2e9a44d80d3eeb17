-- ===== src/Tests/Feeds.antt =====
-- Examples of the verification of feeds and of the key store.

use metalife_pub.Prelude.{
  ℕ, List, [], ◌∷◌, ◌++◌, Option, none, some, Bool, true, false, All, or_else, ◌≢◌, if◌then◌else◌,
  ◌≡◌, ◌↔◌, ◌⊎◌, refl, arith, String, string_eq, list_eq, nat_eq, eqb, ok,
}
use metalife_pub.Prelude.Int.{pos, ◌+ℤ◌}
use metalife_pub.GoMap.{GoMap, lookup, insert, delete}
use metalife_pub.GoMap.Laws.{lookup-insert, lookup-delete}
use metalife_pub.Drain.{
  Message, Drain, Verifier, legacy_verify, valid, validate_next, validate_after, next_seq, verify,
  verify_all, get_sink, is_valid_feed_format, first_message, Router, verify_at,
}
use metalife_pub.Drain.Chain.{Links, validate_next_iff}
use metalife_pub.Drain.Feed.{begin, IsSound, Numbered, verify_all-IsSound, verify_all-Numbered}
use metalife_pub.Drain.Sinks.{get_sink_lem}
use metalife_pub.Keys.{scheme_large_symmetric_group, is_valid, marshal_binary}
use metalife_pub.Keys.Store.{
  Recipient, SetterIndex, get_keys, set_key, add_key, rm_key, remove_first, write_keys, at_address,
  read_keys, add_after, remove_after,
}
use metalife_pub.Keys.Store.Laws.{IsKey, Others, known, add_key_lem, rm_key_lem}
use metalife_pub.Tests.{two_feeds}

abbrev message : ℕ → Option String → String → Message
message n previous key = record { key = key; author = "@a"; seq = pos n; previous = previous }

abbrev post : Message
post = message 1 none "%1"

abbrev reply : Message
reply = message 2 (some "%1") "%2"

-- Each byte string is a message here.
abbrev read : Verifier → Message → Option Message
read v m = some m

-- The first append of the reply fails.
abbrev stream : List (Bool × Message)
stream = (true, post) ∷ (false, reply) ∷ (true, reply) ∷ (true, post) ∷ []

abbrev empty_drain : Drain
empty_drain = record {
  who = "@a";
  verifier = legacy_verify;
  latest_seq = pos 0;
  latest_msg = some (first_message "@a");
  saved = [];
}

empty_drain-IsSound : IsSound (some (first_message "@a")) empty_drain
empty_drain-IsSound = record { chain = begin; latest = refl; numbered = λ m h. cc }

validate_next_iff_example : (validate_next (some post) reply ≡ valid) ↔ Links (some post) reply
validate_next_iff_example = validate_next_iff (some post) reply

verify_all-IsSound_example :
    IsSound (some (first_message "@a")) (verify_all read stream empty_drain)
verify_all-IsSound_example =
    verify_all-IsSound read (some (first_message "@a")) stream empty_drain empty_drain-IsSound

verify_all-Numbered_example : Numbered (verify_all read stream empty_drain).saved
unfolding verify_all verify validate_next validate_after next_seq ◌+ℤ◌
verify_all-Numbered_example =
    verify_all-Numbered read (some (first_message "@a")) stream empty_drain empty_drain-IsSound refl
      (omega arith)

abbrev one_post : Drain
one_post = record empty_drain { latest_seq = pos 1; latest_msg = some post; saved = post ∷ [] }

abbrev nothing_stored : String → Option (Option Message)
nothing_stored s = some none

abbrev no_sinks : Router
no_sinks = record { sinks = []; drains = []; made = 0 }

abbrev one_sink : Router
one_sink = record { sinks = ("@a", 0) ∷ []; drains = (0, empty_drain) ∷ []; made = 1 }

gets_sink : get_sink two_feeds nothing_stored true no_sinks ≡ (ok 0, one_sink)
unfolding get_sink is_valid_feed_format lookup insert
gets_sink = refl

get_sink_lem_example :
    (get_sink two_feeds nothing_stored true one_sink ≡ (ok 0, one_sink))
    × (get_sink two_feeds nothing_stored true (verify_at read 0 true post one_sink)
        ≡ (ok 0, verify_at read 0 true post one_sink))
    × ((lookup {K = String} "@a" no_sinks.sinks ≡ some 0)
        ⊎ ((o : Option Message) × (ld : Drain) × (lookup {K = String} "@a" no_sinks.sinks ≡ none)
            × (lookup 0 one_sink.drains ≡ some ld)
            × (ld.who ≡ "@a")
            × (nothing_stored "@a" ≡ some o)
            × (ld.latest_msg ≡ or_else o (some (first_message "@a")))
            × (ld.saved ≡ [])
            × IsSound ld.latest_msg ld))
get_sink_lem_example =
    get_sink_lem two_feeds nothing_stored read true post true no_sinks one_sink 0 gets_sink

-- An index that is a map and never fails.
abbrev Entries : Type 0
Entries = GoMap (List ℕ) (List Recipient)

abbrev get_entry : Entries → List ℕ → Option (Option (List Recipient))
get_entry d a = some (lookup a d)

abbrev set_entry : Entries → List ℕ → List Recipient → Option Entries
set_entry d a v = some (insert a v d)

abbrev delete_entry : Entries → List ℕ → Option Entries
delete_entry d a = some (delete a d)

get_entry-set_entry :
    (d d' : Entries) (a b : List ℕ) (v : List Recipient)
    → set_entry d a v ≡ some d'
    → get_entry d' b ≡ (if eqb a b then some (some v) else get_entry d b)
get_entry-set_entry d d' a b v h = ground (arith, lookup-insert a b v d)

get_entry-delete_entry :
    (d d' : Entries) (a b : List ℕ)
    → delete_entry d a ≡ some d'
    → get_entry d' b ≡ (if eqb a b then some none else get_entry d b)
get_entry-delete_entry d d' a b h = ground (arith, lookup-delete a b d)

abbrev map_index : SetterIndex
map_index = record {
  Db = Entries;
  get = get_entry;
  set_value = set_entry;
  delete_value = delete_entry;
  get-set_value = get_entry-set_entry;
  get-delete_value = get_entry-delete_entry;
}

abbrev member : ℕ → Recipient
member n = record { key = n ∷ []; scheme = scheme_large_symmetric_group; metadata = [] }

group_id-IsKey : IsKey scheme_large_symmetric_group (7 ∷ [])
group_id-IsKey = record { valid = unfold is_valid in refl; fits = omega arith }

abbrev address : List ℕ
address = 30 ∷ 0 ∷ scheme_large_symmetric_group ++ 1 ∷ 0 ∷ 7 ∷ []

abbrev one_member : Entries
one_member = (address, member 1 ∷ []) ∷ []

sets : set_key map_index (7 ∷ []) (member 1) [] ≡ (ok tt, one_member)
unfolding set_key write_keys at_address is_valid marshal_binary insert
sets = refl

abbrev two_members : Entries
two_members = (address, member 1 ∷ member 2 ∷ []) ∷ []

adds : add_key map_index (7 ∷ []) (member 2) one_member ≡ (ok tt, two_members)
unfolding add_key add_after write_keys at_address read_keys get_keys is_valid marshal_binary insert
    lookup
adds = refl

add_key_lem_example :
    (get_keys map_index scheme_large_symmetric_group (7 ∷ []) two_members
      ≡ ok (
          known map_index (get_keys map_index scheme_large_symmetric_group (7 ∷ []) one_member)
          ++ member 2 ∷ []))
    × Others map_index scheme_large_symmetric_group (7 ∷ []) one_member two_members
add_key_lem_example =
    add_key_lem map_index (7 ∷ []) (member 2) one_member two_members group_id-IsKey adds

abbrev other_member : Entries
other_member = (address, member 2 ∷ []) ∷ []

removes :
    rm_key map_index scheme_large_symmetric_group (7 ∷ []) (member 1) two_members
    ≡ (ok tt, other_member)
unfolding rm_key remove_after write_keys at_address read_keys get_keys is_valid marshal_binary
    insert lookup remove_first
removes = refl

rm_key_lem_example :
    (pre post : List Recipient) × (x : Recipient) × (get_keys map_index scheme_large_symmetric_group
        (7 ∷ [])
        two_members
      ≡ ok (pre ++ x ∷ post))
    × (x.key ≡ 1 ∷ [])
    × All (λ y. y.key ≢ 1 ∷ []) pre
    × (get_keys map_index scheme_large_symmetric_group (7 ∷ []) other_member ≡ ok (pre ++ post))
    × Others map_index scheme_large_symmetric_group (7 ∷ []) two_members other_member
rm_key_lem_example =
    rm_key_lem map_index scheme_large_symmetric_group (7 ∷ []) (member 1) two_members other_member
      group_id-IsKey removes
