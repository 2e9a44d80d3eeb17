-- ===== src/Sessions/Waiting.antt =====
-- Waiting for a session.

use metalife_pub.Prelude.{
  ℕ, suc, ◌∷◌, none, some, true, ◌≡◌, ◌≢◌, ◌⊎◌, inl, inr, refl, arith, Bool-cases, Option-cases,
  String, eqb_iff, string_eq, pair_eq, bool_eq,
}
use metalife_pub.GoMap.{lookup, insert, delete}
use metalife_pub.GoMap.Laws.{lookup-insert, lookup-insert_self, lookup-delete}
use metalife_pub.Sessions.{
  Session, Sessions, new_session, is_closed, blocked, panicked, returned, started, ended, Wait,
  waits, returns_true, wait_for, Select, signalled,
}
use metalife_pub.Sessions.Calls.{
  IsValid, started-IsValid, ended-IsValid, wait_for-IsValid, Reach, Reach-IsValid,
}

-- In every state that the calls can reach, `Started` closes no channel twice: it does not panic.
pub started-ne-panicked : (mk : String) (s : Sessions) → Reach s → started mk s ≢ panicked
unfolding started
started-ne-panicked mk s before h = elim (Option-cases (lookup mk s.waiting_for)) [
  | inl nobody ↦ ground arith
  | inr (c, waiting) ↦ ground (arith, waiting, (Reach-IsValid before).still_open mk c)
]

Select-is_closed : {c : ℕ} {s : Sessions} → Select c s true → is_closed c s.closed ≡ true
Select-is_closed (signalled h) = h

-- Calls on the store, of which none starts a session for `mk`.
pub data Later (mk : String) : Sessions → Sessions → Type 0 where
  no_call : {s : Sessions} → Later mk s s
  other_starts :
      {s t t' : Sessions} {n : Session} (k : String)
      → Later mk s t
      → k ≢ mk
      → started k t ≡ returned n t'
      → Later mk s t'
  any_ends :
      {s t t' : Sessions} (k : String) → Later mk s t → ended k t ≡ returned tt t' → Later mk s t'
  any_asks :
      {s t t' : Sessions} {w : Wait} (k : String)
      → Later mk s t
      → wait_for k t ≡ returned w t'
      → Later mk s t'

pub record IsPending (mk : String) (c : ℕ) (s : Sessions) : Type 0 where
  pub valid : IsValid s
  pub awaited : lookup mk s.waiting_for ≡ some c

started-awaited :
    (mk k : String) (c : ℕ) (n : Session) (s s' : Sessions)
    → k ≢ mk
    → lookup mk s.waiting_for ≡ some c
    → started k s ≡ returned n s'
    → lookup mk s'.waiting_for ≡ some c
unfolding started
started-awaited mk k c n s s' ne a h = elim (Option-cases (lookup k s.waiting_for)) [
  | inl nobody ↦ ground (arith, nobody)
  | inr (d, waiting) ↦ ground (
    arith,
    waiting,
    Bool-cases (is_closed d s.closed),
    eqb_iff k mk,
    lookup-delete k mk s.waiting_for,
  )
]

ended-awaited :
    (mk k : String) (c : ℕ) (s s' : Sessions)
    → lookup mk s.waiting_for ≡ some c
    → ended k s ≡ returned tt s'
    → lookup mk s'.waiting_for ≡ some c
unfolding ended
ended-awaited mk k c s s' a h = ground arith

wait_for-awaited :
    (mk k : String) (c : ℕ) (w : Wait) (s s' : Sessions)
    → lookup mk s.waiting_for ≡ some c
    → wait_for k s ≡ returned w s'
    → lookup mk s'.waiting_for ≡ some c
unfolding wait_for
wait_for-awaited mk k c w s s' a h =
    ground (arith, eqb_iff k mk, lookup-insert k mk s.made s.waiting_for)

Later-IsPending :
    {mk : String} {c : ℕ} {s t : Sessions} → Later mk s t → IsPending mk c s → IsPending mk c t
Later-IsPending no_call p = p
Later-IsPending {mk} {c} (other_starts {t} {t'} {n} k before ne h) p =
    let q = Later-IsPending before p in
    record {
      valid = started-IsValid k n t t' q.valid h;
      awaited = started-awaited mk k c n t t' ne q.awaited h;
    }
Later-IsPending {mk} {c} (any_ends {t} {t'} k before h) p =
    let q = Later-IsPending before p in
    record {
      valid = ended-IsValid k t t' q.valid h;
      awaited = ended-awaited mk k c t t' q.awaited h;
    }
Later-IsPending {mk} {c} (any_asks {t} {t'} {w} k before h) p =
    let q = Later-IsPending before p in
    record {
      valid = wait_for-IsValid k w t t' q.valid h;
      awaited = wait_for-awaited mk k c w t t' q.awaited h;
    }

wait_for-IsPending :
    (mk : String) (c : ℕ) (s s' : Sessions)
    → IsValid s
    → wait_for mk s ≡ returned (waits c) s'
    → IsPending mk c s'
wait_for-IsPending mk c s s' v h = record {
  valid = wait_for-IsValid mk (waits c) s s' v h;
  awaited = unfold wait_for in ground (arith, lookup-insert_self mk s.made s.waiting_for);
}

-- In a reachable state, let a `WaitFor` wait for an address, and let any calls follow, of which none
-- starts a session for the address. The wait cannot return true then. If the mutex is not held for
-- good, a session for the address that starts now is made without a panic, and the wait can return
-- true after it.
pub started-wait_for :
    (mk : String) (c : ℕ) (s s' t : Sessions)
    → Reach s
    → wait_for mk s ≡ returned (waits c) s'
    → Later mk s' t
    → ¬ Select c t true
      × ((t.locked ≡ true)
          ⊎ ((t' : Sessions) × (started mk t ≡ returned new_session t') × Select c t' true))
unfolding started
started-wait_for mk c s s' t before h later =
    let p = Later-IsPending later (wait_for-IsPending mk c s s' (Reach-IsValid before) h) in
    let still_open = p.valid.still_open mk c p.awaited in
    let t' : Sessions = record t {
      open_sessions = insert mk new_session t.open_sessions;
      closed = c ∷ t.closed;
      waiting_for = delete mk t.waiting_for;
    } in
    (
      λ sel. ground (arith, Select-is_closed sel),
      elim (Bool-cases t.locked) [
        | inl held ↦ inl held
        | inr free ↦ inr (t', ground (arith, p.awaited), signalled (ground arith))
      ],
    )

-- A `WaitFor` that times out leaves the address waited for. If the same address is waited for again
-- before a session for it starts, the call returns true with no session there, and it keeps the
-- mutex: every later call on the store blocks.
pub wait_for_twice :
    (mk : String) (c : ℕ) (s s' : Sessions)
    → wait_for mk s ≡ returned (waits c) s'
    → (s'' : Sessions) × (wait_for mk s' ≡ returned returns_true s'')
      × (lookup mk s''.open_sessions ≡ none)
      × ((any : String)
          → (started any s'' ≡ blocked) × (ended any s'' ≡ blocked) × (wait_for any s'' ≡ blocked))
unfolding wait_for started ended
wait_for_twice mk c s s' h =
    let after_it : s'
        ≡ record s { waiting_for = insert mk s.made s.waiting_for; made = suc s.made } =
      ground arith in
    (
      record s' { locked = true },
      ground (arith, lookup-insert_self mk s.made s.waiting_for),
      ground arith,
      λ any. (refl, refl, refl),
    )
