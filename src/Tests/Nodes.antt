-- ===== src/Tests/Nodes.antt =====
-- Examples of the connections, the sessions, the wants for blobs and the bad words.

use metalife_pub.Prelude.{
  ℕ, List, [], ◌∷◌, ◌++◌, none, some, Bool, true, false, if◌then◌else◌, ◌≡◌, ◌≢◌, ◌⊎◌, refl, arith,
  String, string_eq, list_eq, nat_eq, eqb, ok, All, ◌||◌, Memᴰ,
}
use metalife_pub.Prelude.Int.{negsuc}
use metalife_pub.GoMap.{lookup, insert, delete}
use metalife_pub.Sessions.{
  Sessions, new_session, started, ended, panicked, returned, blocked, waits, returns_true, wait_for,
  Select,
}
use metalife_pub.Sessions.Calls.{no_sessions, initially}
use metalife_pub.Sessions.Waiting.{
  Later, no_call, other_starts, any_ends, started-ne-panicked, started-wait_for, wait_for_twice,
}
use metalife_pub.Tracker.{
  Conn, ConnEntry, ConnTracker, shs_addr, gives, new_tracker, on_accept, on_close, last_wins_look,
  last_wins_finish, entered,
}
use metalife_pub.Tracker.Invariant as Invariant
use metalife_pub.Tracker.Invariant.{Step, Reach, accepts, after, on_close_lem}
use metalife_pub.Tracker.Accept.{on_accept_lem, last_wins_race}
use metalife_pub.Wants.{
  Size, no_such_blob, BlobWant, WantManager, want_with_dist, Pouring, pour_all, is_blocked,
}
use metalife_pub.Wants.Manager.{higher, want_with_dist_lem}
use metalife_pub.Wants.Near.{IsNear}
use metalife_pub.Wants.Forwards.{FromOne}
use metalife_pub.Wants.Pour.{pour_all-IsNear}
use metalife_pub.Dfa.{Dfa, new_trie, add_bad_words, check}
use metalife_pub.Dfa.Words.{ends, is_among, add_bad_words_lem}
use metalife_pub.Dfa.Scanning.{check_lem}

started-ne-panicked_example : started "peer" no_sessions ≢ panicked
started-ne-panicked_example = started-ne-panicked "peer" no_sessions initially

abbrev waiting : Sessions
waiting = record no_sessions { waiting_for = ("peer", 0) ∷ []; made = 1 }

waits_first : wait_for "peer" no_sessions ≡ returned (waits 0) waiting
unfolding wait_for lookup insert
waits_first = refl

-- Another session starts meanwhile, and one for the address that waits ends.
abbrev meanwhile : Sessions
meanwhile = record waiting { open_sessions = ("other", new_session) ∷ [] }

passes : Later "peer" waiting meanwhile
unfolding started ended lookup insert delete
passes = any_ends "peer" (other_starts {n = new_session} "other" no_call not_the_peer refl) refl
  where
    not_the_peer : ◌≢◌ {A = String} "other" "peer"
    not_the_peer e = cc

started-wait_for_example :
    ¬ Select 0 meanwhile true
    × ((meanwhile.locked ≡ true)
        ⊎ ((s : Sessions) × (started "peer" meanwhile ≡ returned new_session s) × Select 0 s true))
started-wait_for_example =
    started-wait_for "peer" 0 no_sessions waiting meanwhile initially waits_first passes

wait_for_twice_example :
    (s : Sessions) × (wait_for "peer" waiting ≡ returned returns_true s)
    × (lookup "peer" s.open_sessions ≡ none)
    × ((any : String)
        → (started any s ≡ blocked) × (ended any s ≡ blocked) × (wait_for any s ≡ blocked))
wait_for_twice_example = wait_for_twice "peer" 0 no_sessions waiting waits_first

abbrev laptop : Conn
laptop = record { id = 1; remote_addr = shs_addr "k" }

abbrev phone : Conn
phone = record { id = 2; remote_addr = shs_addr "k" }

abbrev one_open : ConnTracker
one_open = entered "k" laptop 5 new_tracker

opened : on_accept laptop 5 new_tracker ≡ gives (some 0) one_open
unfolding on_accept lookup
opened = refl

no_entry : lookup "k" new_tracker.active ≡ none
unfolding lookup
no_entry = refl

on_close_lem_example :
    (d : ℕ) × (ct : ConnTracker) × (on_close laptop 9 one_open ≡ gives d ct)
    × (lookup "k" ct.active ≡ none)
on_close_lem_example =
    on_close_lem laptop "k" 9 one_open (after Invariant.initially (accepts laptop 5 opened)) refl

on_accept_lem_example :
    ((e : ConnEntry) × (lookup "k" one_open.active ≡ some e)
      × (on_accept phone 6 one_open ≡ gives none one_open))
    ⊎ ((lookup "k" one_open.active ≡ none)
        × (ct : ConnTracker) × (on_accept phone 6 one_open ≡ gives (some 1) ct)
        × (lookup "k" ct.active ≡ some (record { c = phone; started = 6; done = 1 }))
        × ((j : String) → eqb "k" j ≡ false → lookup j ct.active ≡ lookup j one_open.active))
on_accept_lem_example = on_accept_lem phone "k" 6 one_open refl

last_wins_race_example :
    (last_wins_look laptop new_tracker ≡ gives none new_tracker)
    × (last_wins_look phone new_tracker ≡ gives none new_tracker)
    × (one : ConnTracker) × (last_wins_finish laptop 5 none false new_tracker ≡ gives (some 0) one)
    × (two : ConnTracker) × (last_wins_finish phone 5 none false one ≡ gives (some 1) two)
    × (three : ConnTracker) × (d : ℕ) × (on_close laptop 5 two ≡ gives d three)
    × (lookup "k" three.active ≡ none)
    × (on_close phone 5 three ≡ gives 0 three)
last_wins_race_example = last_wins_race laptop phone "k" 5 new_tracker refl refl no_entry refl

abbrev nothing_there : String → Size
nothing_there b = no_such_blob

abbrev quiet : WantManager
quiet = record {
  max_size = 100;
  blocked = [];
  wants = ("&x", negsuc 0) ∷ [];
  emitted = [];
  available = [];
}

not_blocked : is_blocked "&x" quiet ≡ false
unfolding lookup
not_blocked = refl

want_with_dist_lem_example :
    ((want_with_dist nothing_there "&x" (negsuc 2) quiet).0 ≡ ok tt)
    × (lookup "&x" (want_with_dist nothing_there "&x" (negsuc 2) quiet).1.wants ≡ (
        if eqb {A = String} "&x" "&x"
        then some (higher nothing_there (lookup "&x" quiet.wants) (negsuc 2))
        else lookup "&x" quiet.wants))
want_with_dist_lem_example =
    want_with_dist_lem nothing_there "&x" "&x" (negsuc 2) quiet (λ s h. cc) not_blocked

abbrev asked : List BlobWant
asked = record { ref = "&x"; dist = negsuc 3 } ∷ record { ref = "&y"; dist = negsuc 8 } ∷ []

abbrev pouring : Pouring nothing_there
pouring = record { wmgr = quiet; remote_wants = []; out = [] }

pour_all-IsNear_example :
    IsNear (pour_all nothing_there asked pouring).1.wmgr
    × (new : List BlobWant) × ((pour_all nothing_there asked pouring).1.wmgr.emitted
        ≡ new ++ pouring.wmgr.emitted)
    × All (FromOne nothing_there asked) new
pour_all-IsNear_example =
    pour_all-IsNear nothing_there asked pouring
      (record { wants_near = (omega arith, tt); emitted_near = tt })

abbrev bad_words : List (List ℕ)
bad_words = (98 ∷ 97 ∷ 100 ∷ []) ∷ (98 ∷ 111 ∷ []) ∷ []

add_bad_words_lem_example :
    ends (98 ∷ 111 ∷ []) (add_bad_words bad_words new_trie).root
    ≡ (is_among (98 ∷ 111 ∷ []) bad_words || ends (98 ∷ 111 ∷ []) new_trie.root)
add_bad_words_lem_example = add_bad_words_lem bad_words (98 ∷ 111 ∷ []) new_trie

abbrev keep_text : List ℕ → List ℕ → List ℕ → List ℕ
keep_text text old new = text

abbrev filter : Dfa
filter = record {
  trie = add_bad_words bad_words new_trie;
  replace_str = 42 ∷ [];
  invalid_words = (46, tt) ∷ [];
}

check_lem_example :
    (found : List (List ℕ)) × (target : List (List ℕ)) × (b : Bool) × (check keep_text filter
        (120 ∷ 98 ∷ 46 ∷ 97 ∷ 100 ∷ [])
        true
      ≡ some ([], found, target, b))
    × All (λ w. Memᴰ w bad_words) target
check_lem_example = check_lem keep_text bad_words filter (120 ∷ 98 ∷ 46 ∷ 97 ∷ 100 ∷ []) true refl
