-- ===== src/Tracker/Invariant.antt =====
-- Which entries stand, whatever the order of the calls.

use metalife_pub.Prelude.{
  ℕ, ◌-◌, ◌<◌, [], ◌∷◌, Option, none, some, Bool, true, false, ◌&&◌, ◌≡◌, inl, inr, refl, sym,
  arith, Bool-cases, Option-cases, String, eqb, eqb_iff, eqb_refl, eqb_comm, string_eq, pair_eq,
  bool_eq, is_some,
}
use metalife_pub.GoMap.{GoMap, lookup, delete}
use metalife_pub.GoMap.Laws.{lookup-insert, lookup-delete, lookup-nil}
use metalife_pub.Tracker.{
  shs_addr, Conn, ConnEntry, ConnTracker, gives, is_done, new_tracker, to_active, close_each,
  close_all, entered, on_accept, on_close, last_wins_look, last_wins_finish,
}

-- Each entry has its own open `done` channel.
pub record IsValid (ct : ConnTracker) : Type 0 where
  pub was_made : (k : String) (e : ConnEntry) → lookup k ct.active ≡ some e → e.done < ct.made
  pub still_open :
      (k : String) (e : ConnEntry)
      → lookup k ct.active ≡ some e
      → is_done e.done ct.done_closed ≡ false
  pub one_place :
      (k k' : String) (e e' : ConnEntry)
      → lookup k ct.active ≡ some e
      → lookup k' ct.active ≡ some e'
      → e.done ≡ e'.done
      → eqb k k' ≡ true
  pub closed_made : (c : ℕ) → is_done c ct.done_closed ≡ true → c < ct.made

-- One call, or one of the halves of the `OnAccept` that lets the last one win. The halves of several
-- calls may come in any order, and the second half may come at any time.
pub data Step : ConnTracker → ConnTracker → Type 0 where
  accepts :
      {ct ct' : ConnTracker} {r : Option ℕ} (conn : Conn) (now : ℕ)
      → on_accept conn now ct ≡ gives r ct'
      → Step ct ct'
  closes :
      {ct ct' : ConnTracker} {d : ℕ} (conn : Conn) (now : ℕ)
      → on_close conn now ct ≡ gives d ct'
      → Step ct ct'
  looks :
      {ct ct' : ConnTracker} {r : Option ConnEntry} (conn : Conn)
      → last_wins_look conn ct ≡ gives r ct'
      → Step ct ct'
  finishes :
      {ct ct' : ConnTracker} {r : Option ℕ} (conn : Conn) (now : ℕ) (old : Option ConnEntry)
      (timed_out : Bool)
      → last_wins_finish conn now old timed_out ct ≡ gives r ct'
      → Step ct ct'
  closes_all : {ct : ConnTracker} → Step ct (close_all ct)

pub data Reach : ConnTracker → Type 0 where
  initially : Reach new_tracker
  after : {ct ct' : ConnTracker} → Reach ct → Step ct ct' → Reach ct'

entered-IsValid :
    (k : String) (conn : Conn) (now : ℕ) (ct : ConnTracker)
    → IsValid ct
    → IsValid (entered k conn now ct)
entered-IsValid k conn now ct v =
    let new : ConnEntry = record { c = conn; started = now; done = ct.made } in
    record {
      was_made = λ j e h. ground (arith, v.was_made j e, lookup-insert k j new ct.active);
      still_open = λ j e h. ground (
        arith,
        v.still_open j e,
        Bool-cases (is_done ct.made ct.done_closed),
        v.closed_made ct.made,
        lookup-insert k j new ct.active,
      );
      one_place = λ j j' e e' h h' same. ground (
        arith,
        v.one_place j j' e e',
        v.was_made j e,
        v.was_made j' e',
        lookup-insert k j new ct.active,
        lookup-insert k j' new ct.active,
        eqb_iff k j,
        eqb_iff k j',
        eqb_iff j j',
      );
      closed_made = λ c h. ground (arith, v.closed_made c);
    }

same_entries :
    (ct ct' : ConnTracker)
    → ct'.active ≡ ct.active
    → ct'.made ≡ ct.made
    → ct'.done_closed ≡ ct.done_closed
    → IsValid ct
    → IsValid ct'
same_entries ct ct' a m d v = record {
  was_made = λ k e h. rw m (v.was_made k e (rw (sym a) h));
  still_open = λ k e h. rw d (v.still_open k e (rw (sym a) h));
  one_place = λ k k' e e' h h'. v.one_place k k' e e' (rw (sym a) h) (rw (sym a) h');
  closed_made = λ c h. rw m (v.closed_made c (rw (sym d) h));
}

on_close-IsValid :
    (conn : Conn) (now d : ℕ) (ct ct' : ConnTracker)
    → IsValid ct
    → on_close conn now ct ≡ gives d ct'
    → IsValid ct'
unfolding on_close
on_close-IsValid conn now d ct ct' v h = elim (Option-cases (to_active conn.remote_addr)) [
  | inl no_key ↦ ground (arith, no_key)
  | inr (k, key) ↦ elim (Option-cases (lookup k ct.active)) [
    | inl missing ↦
        same_entries ct ct' (ground (arith, key, missing)) (ground (arith, key, missing))
          (ground (arith, key, missing)) v
    | inr (who, found) ↦
        let after : ct'
            ≡ record ct { active = delete k ct.active; done_closed = who.done ∷ ct.done_closed } =
          ground (arith, key, found) in
        rw after (record {
          was_made = λ j e h. ground (arith, v.was_made j e, lookup-delete k j ct.active);
          still_open = λ j e h. ground (
            arith,
            v.still_open j e,
            v.one_place j k e who,
            eqb_comm j k,
            lookup-delete k j ct.active,
          );
          one_place = λ j j' e e' h h' same. ground (
            arith,
            v.one_place j j' e e',
            lookup-delete k j ct.active,
            lookup-delete k j' ct.active,
          );
          closed_made = λ c h. ground (arith, v.closed_made c, v.was_made k who);
        })
  ]
]

on_accept-IsValid :
    (conn : Conn) (now : ℕ) (r : Option ℕ) (ct ct' : ConnTracker)
    → IsValid ct
    → on_accept conn now ct ≡ gives r ct'
    → IsValid ct'
unfolding on_accept
on_accept-IsValid conn now r ct ct' v h = elim (Option-cases (to_active conn.remote_addr)) [
  | inl no_key ↦ ground (arith, no_key)
  | inr (k, key) ↦ elim (Option-cases (lookup k ct.active)) [
    | inl missing ↦
        let after : ct' ≡ entered k conn now ct = ground (arith, key, missing) in
        rw after (entered-IsValid k conn now ct v)
    | inr (e, found) ↦ let after : ct' ≡ ct = ground (arith, key, found) in rw after v
  ]
]

last_wins_look-IsValid :
    (conn : Conn) (r : Option ConnEntry) (ct ct' : ConnTracker)
    → IsValid ct
    → last_wins_look conn ct ≡ gives r ct'
    → IsValid ct'
unfolding last_wins_look
last_wins_look-IsValid conn r ct ct' v h = elim (Option-cases (to_active conn.remote_addr)) [
  | inl no_key ↦ ground (arith, no_key)
  | inr (k, key) ↦ elim (Option-cases (lookup k ct.active)) [
    | inl e ↦
        same_entries ct ct' (ground (arith, key, e)) (ground (arith, key, e))
          (ground (arith, key, e)) v
    | inr (old, e) ↦
        same_entries ct ct' (ground (arith, key, e)) (ground (arith, key, e))
          (ground (arith, key, e)) v
  ]
]

last_wins_finish-IsValid :
    (conn : Conn) (now : ℕ) (old : Option ConnEntry) (timed_out : Bool) (r : Option ℕ)
    (ct ct' : ConnTracker)
    → IsValid ct
    → last_wins_finish conn now old timed_out ct ≡ gives r ct'
    → IsValid ct'
unfolding last_wins_finish
last_wins_finish-IsValid conn now old timed_out r ct ct' v h =
    elim (Option-cases (to_active conn.remote_addr)) [
      | inl no_key ↦ ground (arith, no_key)
      | inr (k, key) ↦ elim (Bool-cases (is_some old && timed_out)) [
        | inl late ↦ let after : ct' ≡ ct = ground (arith, key, late) in rw after v
        | inr on_time ↦
            let after : ct' ≡ entered k conn now ct = ground (arith, key, on_time) in
            rw after (entered-IsValid k conn now ct v)
      ]
    ]

close_each-IsValid :
    (es : GoMap String ConnEntry) (ct : ConnTracker) → IsValid ct → IsValid (close_each es ct)
unfolding close_each
close_each-IsValid [] ct v = v
close_each-IsValid ((k, e) ∷ es) ct v =
    let next : ConnTracker = record ct {
      closed = e.c ∷ ct.closed;
      cancelled = e.done ∷ ct.cancelled;
    } in
    close_each-IsValid es next (same_entries ct next refl refl refl v)

pub Step-IsValid : {ct ct' : ConnTracker} → Step ct ct' → IsValid ct → IsValid ct'
Step-IsValid (accepts {ct} {ct'} {r} conn now h) v = on_accept-IsValid conn now r ct ct' v h
Step-IsValid (closes {ct} {ct'} {d} conn now h) v = on_close-IsValid conn now d ct ct' v h
Step-IsValid (looks {ct} {ct'} {r} conn h) v = last_wins_look-IsValid conn r ct ct' v h
Step-IsValid (finishes {ct} {ct'} {r} conn now old timed_out h) v =
    last_wins_finish-IsValid conn now old timed_out r ct ct' v h
Step-IsValid (closes_all {ct}) v = close_each-IsValid ct.active ct v

new_tracker-IsValid : IsValid new_tracker
new_tracker-IsValid = record {
  was_made = λ k e h. ground (arith, lookup-nil {V = ConnEntry} k);
  still_open = λ k e h. ground (arith, lookup-nil {V = ConnEntry} k);
  one_place = λ k k' e e' h h' same. ground (arith, lookup-nil {V = ConnEntry} k);
  closed_made = λ c h. cc;
}

pub Reach-IsValid : {ct : ConnTracker} → Reach ct → IsValid ct
Reach-IsValid initially = new_tracker-IsValid
Reach-IsValid (after before step) = Step-IsValid step (Reach-IsValid before)

-- Whatever the calls before it and however their halves are interleaved, `OnClose` of a connection
-- with a public key returns: it closes no `done` channel twice. It leaves no entry for the key.
pub on_close_lem :
    (conn : Conn) (k : String) (now : ℕ) (ct : ConnTracker)
    → Reach ct
    → conn.remote_addr ≡ shs_addr k
    → (d : ℕ) × (ct' : ConnTracker) × (on_close conn now ct ≡ gives d ct')
      × (lookup k ct'.active ≡ none)
unfolding on_close
on_close_lem conn k now ct before a = elim (Option-cases (lookup k ct.active)) [
  | inl missing ↦ (0, ct, ground (arith, missing), missing)
  | inr (who, found) ↦ (
    now - who.started,
    record ct { active = delete k ct.active; done_closed = who.done ∷ ct.done_closed },
    ground (arith, found, (Reach-IsValid before).still_open k who),
    ground (arith, lookup-delete k k ct.active, eqb_refl k),
  )
]
