-- ===== src/Tracker/Accept.antt =====
-- Which connections each tracker lets in.

use metalife_pub.Prelude.{
  ℕ, suc, ◌-◌, ◌∷◌, none, some, false, ◌≡◌, ◌⊎◌, inl, inr, arith, Option-cases, String, eqb,
  eqb_refl, string_eq, pair_eq, bool_eq,
}
use metalife_pub.GoMap.{lookup, delete}
use metalife_pub.GoMap.Laws.{lookup-insert, lookup-insert_self, lookup-delete}
use metalife_pub.Tracker.{
  shs_addr, Conn, ConnEntry, ConnTracker, gives, is_done, entered, on_accept, on_close,
  last_wins_look, last_wins_finish,
}

-- The first tracker lets a connection in exactly if its key has none: `OnAccept` refuses it and
-- changes nothing if there is an entry, and otherwise enters it and changes no other entry.
pub on_accept_lem :
    (conn : Conn) (k : String) (now : ℕ) (ct : ConnTracker)
    → conn.remote_addr ≡ shs_addr k
    → ((e : ConnEntry) × (lookup k ct.active ≡ some e) × (on_accept conn now ct ≡ gives none ct))
      ⊎ ((lookup k ct.active ≡ none)
          × (ct' : ConnTracker) × (on_accept conn now ct ≡ gives (some ct.made) ct')
          × (lookup k ct'.active ≡ some (record { c = conn; started = now; done = ct.made }))
          × ((j : String) → eqb k j ≡ false → lookup j ct'.active ≡ lookup j ct.active))
unfolding on_accept
on_accept_lem conn k now ct a = elim (Option-cases (lookup k ct.active)) [
  | inl missing ↦ inr (
    missing,
    entered k conn now ct,
    ground (arith, missing),
    lookup-insert_self k (record { c = conn; started = now; done = ct.made }) ct.active,
    λ j other.
        ground
          (arith, lookup-insert k j (record { c = conn; started = now; done = ct.made }) ct.active),
  )
  | inr (e, found) ↦ inl (e, found, ground (arith, found))
]

-- The tracker that lets the last one win can lose a connection: if two connections of one key look
-- while the key has no entry, both are let in, the second overwrites the entry of the first, and
-- when the first closes, the entry goes although the second one is open. The `OnClose` of the second
-- then finds nothing and returns 0.
pub last_wins_race :
    (first second : Conn) (k : String) (now : ℕ) (ct : ConnTracker)
    → first.remote_addr ≡ shs_addr k
    → second.remote_addr ≡ shs_addr k
    → lookup k ct.active ≡ none
    → is_done (suc ct.made) ct.done_closed ≡ false
    → (last_wins_look first ct ≡ gives none ct)
      × (last_wins_look second ct ≡ gives none ct)
      × (one : ConnTracker) × (last_wins_finish first now none false ct ≡ gives (some ct.made) one)
      × (two : ConnTracker) × (last_wins_finish second now none false one
          ≡ gives (some (suc ct.made)) two)
      × (three : ConnTracker) × (d : ℕ) × (on_close first now two ≡ gives d three)
      × (lookup k three.active ≡ none)
      × (on_close second now three ≡ gives 0 three)
unfolding last_wins_look last_wins_finish on_close
last_wins_race first second k now ct a b missing fresh =
    let one : ConnTracker = entered k first now ct in
    let two : ConnTracker = entered k second now one in
    let three : ConnTracker = record two {
      active = delete k two.active;
      done_closed = suc ct.made ∷ two.done_closed;
    } in
    let gone : lookup k three.active ≡ none =
      ground (arith, lookup-delete k k two.active, eqb_refl k) in
    (
      ground (arith, missing),
      ground (arith, missing),
      one,
      ground arith,
      two,
      ground arith,
      three,
      now - now,
      ground (
        arith,
        lookup-insert_self k (record { c = second; started = now; done = suc ct.made }) one.active,
      ),
      gone,
      ground (arith, gone),
    )
