-- ===== src/Tracker.antt =====
-- network/conntracker.go: the open connections of a node, one for each public key. The two trackers
-- share a state; `trackerLastWins.OnAccept` gives the lock away while it waits, so it is two steps
-- here. A `done` channel and a context are named by the number of entries made before theirs.
pub mod Invariant
pub mod Accept
use mathlib.Core.Option
use metalife_pub.Prelude.{
  ℕ, zero, suc, ◌+◌, ◌-◌, ◌*◌, ◌/◌, ◌%◌, ◌^◌, ◌<◌, ◌≤◌, List, [], ◌∷◌, ◌++◌, map, Memᴰ, Option,
  none, some, Bool, true, false, not, ◌==◌, ltb, leb, ◌&&◌, ◌||◌, if◌then◌else◌, ◌≡◌, ◌≢◌, ◌↔◌, ◌⊎◌,
  inl, inr, refl, sym, ap, subst, ◌∙◌, arith, Bool-cases, Option-cases, String, Eq, eqb, eqb_iff,
  eqb_refl, eqb_comm, eqb_ne, string_eq, pair_eq, bool_eq, or_else, is_some, length,
}
use metalife_pub.Prelude.Int.{ℤ, pos, negsuc, ltb_ℤ, ◌+ℤ◌}
use metalife_pub.Prelude.Int64.{to_uint64, to_int64, to_int64_id, IsInt64}
use metalife_pub.GoMap.{GoMap, lookup, insert, delete}
use metalife_pub.GoMap.Laws.{
  lookup-insert, lookup-insert_self, lookup-delete, Distinct, insert-Distinct, delete-Distinct,
  mem_of_lookup, lookup_of_mem, AllValues, insert-AllValues, overwrite_step, overwrite_step_same,
  lookup-cons_ne, lookup-cons, lookup-nil,
}

-- `net.Addr`: the public key of a secret handshake, or an address without one.
pub data Addr : Type 0 where
  shs_addr : String → Addr
  other_addr : Addr

-- `net.Conn`
pub record Conn : Type 0 where
  pub id : ℕ
  pub remote_addr : Addr

pub record ConnEntry : Type 0 where
  pub c : Conn
  pub started : ℕ
  pub done : ℕ

-- `connTracker`, with how many entries were made, the closed `done` channels, the connections that
-- were closed and the contexts that were cancelled.
pub record ConnTracker : Type 0 where
  pub active : GoMap String ConnEntry
  pub made : ℕ
  pub done_closed : List ℕ
  pub closed : List Conn
  pub cancelled : List ℕ

-- A call panics or returns.
pub data Called {ℓ} (A : Type ℓ) : Type ℓ where
  panics : Called A
  gives : A → ConnTracker → Called A

abbrev pub is_done : ℕ → List ℕ → Bool
is_done c [] = false
is_done c (d ∷ ds) = c == d || is_done c ds

-- `NewConnTracker`
abbrev pub new_tracker : ConnTracker
new_tracker = record { active = []; made = 0; done_closed = []; closed = []; cancelled = [] }

-- `toActive`
abbrev pub to_active : Addr → Option String
to_active (shs_addr pk) = some pk
to_active other_addr = none

-- `CloseAll`
unfoldable pub close_each : GoMap String ConnEntry → ConnTracker → ConnTracker
close_each [] ct = ct
close_each ((k, e) ∷ rest) ct =
    close_each rest (record ct { closed = e.c ∷ ct.closed; cancelled = e.done ∷ ct.cancelled })

abbrev pub close_all : ConnTracker → ConnTracker
close_all ct = close_each ct.active ct

abbrev pub count : ConnTracker → ℕ
count ct = length ct.active

-- `Active`, at the time `now`.
unfoldable pub is_active : Addr → ℕ → ConnTracker → Called (Bool × ℕ)
is_active a now ct = elim (to_active a) [
  | none ↦ panics
  | some k ↦ elim (lookup k ct.active) [
    | none ↦ gives (false, 0) ct
    | some l ↦ gives (true, now - l.started) ct
  ]
]

-- The entry for a new connection is written.
abbrev pub entered : String → Conn → ℕ → ConnTracker → ConnTracker
entered k conn now ct = record ct {
  active = insert k (record { c = conn; started = now; done = ct.made }) ct.active;
  made = suc ct.made;
}

-- `OnAccept` of `connTracker`: the context of the entry, if it is accepted.
unfoldable pub on_accept : Conn → ℕ → ConnTracker → Called (Option ℕ)
on_accept conn now ct = elim (to_active conn.remote_addr) [
  | none ↦ panics
  | some k ↦ elim (lookup k ct.active) [
    | some e ↦ gives none ct
    | none ↦ gives (some ct.made) (entered k conn now ct)
  ]
]

-- `OnClose`
unfoldable pub on_close : Conn → ℕ → ConnTracker → Called ℕ
on_close conn now ct = elim (to_active conn.remote_addr) [
  | none ↦ panics
  | some k ↦ elim (lookup k ct.active) [
    | none ↦ gives 0 ct
    | some who ↦
        if is_done who.done ct.done_closed
        then panics
        else gives (now - who.started)
            (record ct { active = delete k ct.active; done_closed = who.done ∷ ct.done_closed })
  ]
]

-- `OnAccept` of `trackerLastWins` up to its `select`: the entry to wait for, if there is one.
unfoldable pub last_wins_look : Conn → ConnTracker → Called (Option ConnEntry)
last_wins_look conn ct = elim (to_active conn.remote_addr) [
  | none ↦ panics
  | some k ↦ elim (lookup k ct.active) [
    | none ↦ gives none ct
    | some old ↦
        gives (some old)
          (record ct { closed = old.c ∷ ct.closed; cancelled = old.done ∷ ct.cancelled })
  ]
]

-- The rest of it: `timed_out` says which branch of the `select` is taken.
unfoldable pub last_wins_finish :
    Conn → ℕ → Option ConnEntry → Bool → ConnTracker → Called (Option ℕ)
last_wins_finish conn now old timed_out ct = elim (to_active conn.remote_addr) [
  | none ↦ panics
  | some k ↦
      if is_some old && timed_out
      then gives none ct
      else gives (some ct.made) (entered k conn now ct)
]
