-- ===== src/Sessions.antt =====
-- plugins/ebt/session.go: the sessions of the EBT plugin and the streams that each subscribes to.
pub mod Calls
pub mod Waiting
use mathlib.Core.Option
use metalife_pub.Prelude.{
  ℕ, zero, suc, ◌+◌, ◌-◌, ◌*◌, ◌/◌, ◌%◌, ◌^◌, ◌<◌, ◌≤◌, List, [], ◌∷◌, ◌++◌, map, Memᴰ, Option,
  none, some, Bool, true, false, not, ◌==◌, ltb, leb, ◌&&◌, ◌||◌, if◌then◌else◌, ◌≡◌, ◌≢◌, ◌↔◌, ◌⊎◌,
  inl, inr, refl, sym, ap, subst, ◌∙◌, arith, Bool-cases, Option-cases, String, Eq, eqb, eqb_iff,
  eqb_refl, eqb_comm, eqb_ne, string_eq, pair_eq, bool_eq, or_else, is_some, length,
}
use metalife_pub.Prelude.Int.{ℤ, pos, negsuc, ltb_ℤ, ◌+ℤ◌}
use metalife_pub.Prelude.Int64.{to_uint64, to_int64, to_int64_id, IsInt64}
use metalife_pub.GoMap.{GoMap, lookup, insert, delete}
use metalife_pub.GoMap.Laws.{
  lookup-insert, lookup-insert_self, lookup-delete, Distinct, insert-Distinct, delete-Distinct,
  mem_of_lookup, lookup_of_mem, AllValues, insert-AllValues, overwrite_step, overwrite_step_same,
  lookup-cons_ne, lookup-cons, lookup-nil,
}

-- A session: the feeds that it is subscribed to, with the names of their cancel functions.
pub record Session : Type 0 where
  pub subscribed : GoMap String ℕ

-- `newSession`
abbrev pub new_session : Session
new_session = record { subscribed = [] }

-- `session.Subscribed`, with the cancel functions that it calls.
unfoldable pub subscribe : String → ℕ → Session → Session × List ℕ
subscribe fr cancel_fn s = elim (lookup fr s.subscribed) [
  | none ↦ (record s { subscribed = insert fr cancel_fn s.subscribed }, [])
  | some fn ↦ (record s { subscribed = insert fr cancel_fn (delete fr s.subscribed) }, fn ∷ [])
]

-- `session.Unubscribe`
unfoldable pub unsubscribe : String → Session → Session × List ℕ
unsubscribe fr s = elim (lookup fr s.subscribed) [
  | none ↦ (s, [])
  | some fn ↦ (record s { subscribed = delete fr s.subscribed }, fn ∷ [])
]

-- The session store. A channel is a number; `made` counts those that were made, and `closed` lists
-- those that were closed. `locked` says that the mutex is held by a call that has returned.
pub record Sessions : Type 0 where
  pub open_sessions : GoMap String Session
  pub waiting_for : GoMap String ℕ
  pub made : ℕ
  pub closed : List ℕ
  pub locked : Bool

abbrev pub is_closed : ℕ → List ℕ → Bool
is_closed c [] = false
is_closed c (d ∷ ds) = if d == c then true else is_closed c ds

-- A call waits for the mutex, panics or returns.
pub data Call {ℓ} (A : Type ℓ) : Type ℓ where
  blocked : Call A
  panicked : Call A
  returned : A → Sessions → Call A

-- `Started`: closing a closed channel would panic.
unfoldable pub started : String → Sessions → Call Session
started mk s =
    let s' = record s { open_sessions = insert mk new_session s.open_sessions } in
    if s.locked then blocked else elim (lookup mk s.waiting_for) [
      | none ↦ returned new_session s'
      | some c ↦
          if is_closed c s.closed
          then panicked
          else returned new_session
              (record s' { closed = c ∷ s.closed; waiting_for = delete mk s.waiting_for })
    ]

-- `Ended`
unfoldable pub ended : String → Sessions → Call (Unit {0})
ended mk s =
    if s.locked
    then blocked
    else returned tt (record s { open_sessions = delete mk s.open_sessions })

-- What `WaitFor` does before its `select`: it returns true, or it goes on to wait for a channel.
pub data Wait : Type 0 where
  returns_true : Wait
  waits : ℕ → Wait

-- `WaitFor`, up to the `select`. Where the address is waited for already it returns without
-- unlocking the mutex.
unfoldable pub wait_for : String → Sessions → Call Wait
wait_for mk s =
    if s.locked
    then blocked
    else if is_some (lookup mk s.open_sessions)
    then returned returns_true s
    else if is_some (lookup mk s.waiting_for)
    then returned returns_true (record s { locked = true })
    else returned (waits s.made)
        (record s { waiting_for = insert mk s.made s.waiting_for; made = suc s.made })

-- The `select` of `WaitFor`: it returns true for a channel that is closed by now, and false once the
-- time is up or the context done. No entry is taken back.
pub data Select (c : ℕ) (s : Sessions) : Bool → Type 0 where
  signalled : is_closed c s.closed ≡ true → Select c s true
  gave_up : Select c s false
