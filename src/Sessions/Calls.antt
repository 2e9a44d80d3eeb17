-- ===== src/Sessions/Calls.antt =====
-- What the calls of the session store keep.

use metalife_pub.Prelude.{
  ℕ, ◌<◌, [], some, true, false, ◌≡◌, inl, inr, arith, Bool-cases, Option-cases, String, eqb,
  eqb_iff, eqb_comm, string_eq, pair_eq, bool_eq,
}
use metalife_pub.GoMap.{lookup}
use metalife_pub.GoMap.Laws.{lookup-insert, lookup-delete, lookup-nil}
use metalife_pub.Sessions.{Session, Sessions, is_closed, returned, started, ended, Wait, wait_for}

-- Each channel that is waited for was made, and is open and in one place.
pub record IsValid (s : Sessions) : Type 0 where
  pub was_made : (mk : String) (c : ℕ) → lookup mk s.waiting_for ≡ some c → c < s.made
  pub still_open :
      (mk : String) (c : ℕ) → lookup mk s.waiting_for ≡ some c → is_closed c s.closed ≡ false
  pub one_place :
      (mk mk' : String) (c : ℕ)
      → lookup mk s.waiting_for ≡ some c
      → lookup mk' s.waiting_for ≡ some c
      → eqb mk mk' ≡ true
  pub closed_made : (c : ℕ) → is_closed c s.closed ≡ true → c < s.made

-- What a method does to the store.
pub data Step : Sessions → Sessions → Type 0 where
  starts : {s s' : Sessions} {n : Session} (mk : String) → started mk s ≡ returned n s' → Step s s'
  ends : {s s' : Sessions} (mk : String) → ended mk s ≡ returned tt s' → Step s s'
  asks : {s s' : Sessions} {w : Wait} (mk : String) → wait_for mk s ≡ returned w s' → Step s s'

pub started-IsValid :
    (mk : String) (n : Session) (s s' : Sessions)
    → IsValid s
    → started mk s ≡ returned n s'
    → IsValid s'
unfolding started
started-IsValid mk n s s' v h = elim (Option-cases (lookup mk s.waiting_for)) [
  | inl nobody ↦ record {
    was_made = λ k c e. ground (arith, nobody, v.was_made k c);
    still_open = λ k c e. ground (arith, nobody, v.still_open k c);
    one_place = λ k k' c e e'. ground (arith, nobody, v.one_place k k' c);
    closed_made = λ c e. ground (arith, nobody, v.closed_made c);
  }
  | inr (d, waiting) ↦ record {
    was_made = λ k c e. ground (arith, waiting, v.was_made k c, lookup-delete mk k s.waiting_for);
    still_open = λ k c e. ground (
      arith,
      waiting,
      v.still_open k c,
      v.one_place k mk c,
      eqb_comm k mk,
      lookup-delete mk k s.waiting_for,
    );
    one_place = λ k k' c e e'. ground (
      arith,
      waiting,
      v.one_place k k' c,
      lookup-delete mk k s.waiting_for,
      lookup-delete mk k' s.waiting_for,
    );
    closed_made = λ c e. ground (arith, waiting, v.closed_made c, v.was_made mk d);
  }
]

pub ended-IsValid :
    (mk : String) (s s' : Sessions) → IsValid s → ended mk s ≡ returned tt s' → IsValid s'
unfolding ended
ended-IsValid mk s s' v h = record {
  was_made = λ k c e. ground (arith, v.was_made k c);
  still_open = λ k c e. ground (arith, v.still_open k c);
  one_place = λ k k' c e e'. ground (arith, v.one_place k k' c);
  closed_made = λ c e. ground (arith, v.closed_made c);
}

pub wait_for-IsValid :
    (mk : String) (w : Wait) (s s' : Sessions)
    → IsValid s
    → wait_for mk s ≡ returned w s'
    → IsValid s'
unfolding wait_for
wait_for-IsValid mk w s s' v h = record {
  was_made = λ k c e. ground (arith, v.was_made k c, lookup-insert mk k s.made s.waiting_for);
  still_open = λ k c e. ground (
    arith,
    v.still_open k c,
    Bool-cases (is_closed s.made s.closed),
    v.closed_made s.made,
    lookup-insert mk k s.made s.waiting_for,
  );
  one_place = λ k k' c e e'. ground (
    arith,
    v.one_place k k' c,
    v.was_made k c,
    v.was_made k' c,
    lookup-insert mk k s.made s.waiting_for,
    lookup-insert mk k' s.made s.waiting_for,
    eqb_iff mk k,
    eqb_iff mk k',
    eqb_iff k k',
  );
  closed_made = λ c e. ground (arith, v.closed_made c);
}

pub Step-IsValid : {s s' : Sessions} → Step s s' → IsValid s → IsValid s'
Step-IsValid (starts {s} {s'} {n} mk h) v = started-IsValid mk n s s' v h
Step-IsValid (ends {s} {s'} mk h) v = ended-IsValid mk s s' v h
Step-IsValid (asks {s} {s'} {w} mk h) v = wait_for-IsValid mk w s s' v h

abbrev pub no_sessions : Sessions
no_sessions = record { open_sessions = []; waiting_for = []; made = 0; closed = []; locked = false }

pub data Reach : Sessions → Type 0 where
  initially : Reach no_sessions
  after : {s s' : Sessions} → Reach s → Step s s' → Reach s'

no_sessions-IsValid : IsValid no_sessions
no_sessions-IsValid = record {
  was_made = λ k c e. ground (arith, lookup-nil {V = ℕ} k);
  still_open = λ k c e. ground (arith, lookup-nil {V = ℕ} k);
  one_place = λ k k' c e e'. ground (arith, lookup-nil {V = ℕ} k);
  closed_made = λ c e. cc;
}

pub Reach-IsValid : {s : Sessions} → Reach s → IsValid s
Reach-IsValid initially = no_sessions-IsValid
Reach-IsValid (after before step) = Step-IsValid step (Reach-IsValid before)
