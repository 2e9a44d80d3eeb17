-- ===== src/StateMatrix/Lists.antt =====
-- The lists that `HasLonger` and `WantsList` collect.

use mathlib.Core.Logic.{⊎_elim}
use metalife_pub.Prelude.{
  List, [], ◌∷◌, ◌++◌, Memᴰ, Option, none, some, true, ◌≡◌, ◌↔◌, ◌⊎◌, inl, inr, refl, sym, ap,
  subst, ◌∙◌, arith, Option-cases, String, string_eq, pair_eq, bool_eq,
}
use metalife_pub.Prelude.Int.{ltb_ℤ}
use metalife_pub.Prelude.Int64.{to_uint64}
use metalife_pub.GoMap.{GoMap, lookup}
use mathlib.Core.List.Memᴰ
use metalife_pub.Refs.{Refs}
use metalife_pub.Ebt.{Note, NetworkFrontierMap}
use metalife_pub.StateMatrix.{StateMatrix, Outcome, ok, err, panic, Os}
use metalife_pub.StateMatrix.Queries.{
  cons?, add_entry, add_entries, HasLongerResult, longer_entry, longer_feeds, longer_peers,
  has_longer,
}

module _ {ℓ} {A : Type ℓ} where
  add_entry-ok :
      (o : Outcome (Option A)) (rest : Outcome (List A)) (res : List A)
      → add_entry o rest ≡ ok res
      → (x : Option A) × (xs : List A) × (o ≡ ok x) × (rest ≡ ok xs) × (res ≡ cons? x xs)
  add_entry-ok (ok x) (ok xs) res h = (x, xs, refl, refl, cc)
  add_entry-ok (ok x) (err e) res h = cc
  add_entry-ok (ok x) panic res h = cc
  add_entry-ok (err e) rest res h = cc
  add_entry-ok panic rest res h = cc

  add_entries-ok :
      (o rest : Outcome (List A)) (res : List A)
      → add_entries o rest ≡ ok res
      → (ys xs : List A) × (o ≡ ok ys) × (rest ≡ ok xs) × (res ≡ ys ++ xs)
  add_entries-ok (ok ys) (ok xs) res h = (ys, xs, refl, refl, cc)
  add_entries-ok (ok x) (err e) res h = cc
  add_entries-ok (ok x) panic res h = cc
  add_entries-ok (err e) rest res h = cc
  add_entries-ok panic rest res h = cc

  mem-cons? :
      (x : A) (o : Option A) (xs : List A) → Memᴰ x (cons? o xs) ↔ ((o ≡ some x) ⊎ Memᴰ x xs)
  mem-cons? x none xs = (inr, ⊎_elim (λ h. cc) (λ m. m))
  mem-cons? x (some y) xs = (
    λ m. ⊎_elim (λ e. inl (ap some (sym e))) inr (Memᴰ.cases_cons m),
    ⊎_elim (λ h. Memᴰ.head (cc)) Memᴰ.tail,
  )

ok_injective {ℓ} : {A : Type ℓ} {a b : A} → ◌≡◌ {A = Outcome A} (ok a) (ok b) → b ≡ a
ok_injective h = cc

module _ (r : Refs) (os : Os) where
  open r use {Feed, parse_feed_ref}

  -- That `x` is the entry for the feed under `feed_key` and the peer under `peer_key`: the peer's
  -- note has the higher sequence, which is the length.
  pub record IsLonger (peer_key : String) (theirs : NetworkFrontierMap) (feed_key : String)
      (note : Note) (x : HasLongerResult Feed) : Type 0 where
    pub their_note : Note
    pub has_theirs : lookup feed_key theirs ≡ some their_note
    pub longer : ltb_ℤ note.seq their_note.seq ≡ true
    pub peer_parsed : parse_feed_ref peer_key ≡ some x.peer
    pub feed_parsed : parse_feed_ref feed_key ≡ some x.feed
    pub len_eq : x.len ≡ to_uint64 their_note.seq

  longer_entry-IsLonger :
      (peer : String) (theirs : NetworkFrontierMap) (feed : String) (note : Note)
      (x : HasLongerResult Feed)
      → longer_entry r os peer theirs feed note ≡ ok (some x)
      → IsLonger peer theirs feed note x
  unfolding longer_entry
  longer_entry-IsLonger peer theirs feed note x h = elim (Option-cases (lookup feed theirs)) [
    | inl missing ↦ absurd (ground arith)
    | inr (n, found) ↦ record {
      their_note = n;
      has_theirs = found;
      longer = ground arith;
      peer_parsed = ground arith;
      feed_parsed = ground arith;
      len_eq = ground arith;
    }
  ]

  IsLonger-longer_entry :
      (peer : String) (theirs : NetworkFrontierMap) (feed : String) (note : Note)
      (x : HasLongerResult Feed)
      → IsLonger peer theirs feed note x
      → longer_entry r os peer theirs feed note ≡ ok (some x)
  unfolding longer_entry
  IsLonger-longer_entry peer theirs feed note x h =
      ground (arith, h.has_theirs, h.longer, h.peer_parsed, h.feed_parsed, h.len_eq)

  abbrev pub LongerFeed :
      String → NetworkFrontierMap → NetworkFrontierMap → HasLongerResult Feed → Type 0
  LongerFeed peer theirs ours x =
      (feed : String) × (note : Note) × Memᴰ (feed, note) ours × IsLonger peer theirs feed note x

  mem-longer_feeds :
      (peer : String) (theirs ours : NetworkFrontierMap) (res : List (HasLongerResult Feed))
      (x : HasLongerResult Feed)
      → longer_feeds r os peer theirs ours ≡ ok res
      → Memᴰ x res ↔ LongerFeed peer theirs ours x
  unfolding longer_feeds
  mem-longer_feeds peer theirs [] res x h = (
    λ m. absurd (Memᴰ.not-nil (subst (Memᴰ x) (ok_injective h) m)),
    λ (feed, note, m, l). absurd (Memᴰ.not-nil m),
  )
  mem-longer_feeds peer theirs ((feed, note) ∷ ours) res x h =
      let (o, xs, entry, rest, joined) =
        add_entry-ok (longer_entry r os peer theirs feed note) (longer_feeds r os peer theirs ours)
          res h in
      let ih = mem-longer_feeds peer theirs ours xs x rest in
      (
        λ m.
            ⊎_elim
              (λ e. (
                feed,
                note,
                Memᴰ.head refl,
                longer_entry-IsLonger peer theirs feed note x (entry ∙ ap ok e),
              ))
              (λ later. let (f, n, there, l) = ih.0 later in (f, n, Memᴰ.tail there, l))
              ((mem-cons? x o xs).0 (subst (Memᴰ x) joined m)),
        λ (f, n, there, l). subst (Memᴰ x) (sym joined) (
            (mem-cons? x o xs).1 (
              ⊎_elim
                (λ e. inl (
                  ok_injective (
                    sym (
                      IsLonger-longer_entry peer theirs feed note x
                        (subst (λ q. IsLonger peer theirs q.0 q.1 x) e l))
                    ∙ entry)))
                (λ later. inr (ih.1 (f, n, later, l))) (Memᴰ.cases_cons there))),
      )

  -- That `x` stands for a feed of which a peer has more messages than `ours` says.
  abbrev pub LongerAt :
      NetworkFrontierMap → GoMap String NetworkFrontierMap → HasLongerResult Feed → Type 0
  LongerAt ours peers x =
      (peer : String) × (theirs : NetworkFrontierMap) × Memᴰ (peer, theirs) peers
      × LongerFeed peer theirs ours x

  mem-longer_peers :
      (ours : NetworkFrontierMap) (peers : GoMap String NetworkFrontierMap)
      (res : List (HasLongerResult Feed)) (x : HasLongerResult Feed)
      → longer_peers r os ours peers ≡ ok res
      → Memᴰ x res ↔ LongerAt ours peers x
  unfolding longer_peers
  mem-longer_peers ours [] res x h = (
    λ m. absurd (Memᴰ.not-nil (subst (Memᴰ x) (ok_injective h) m)),
    λ (peer, theirs, m, l). absurd (Memᴰ.not-nil m),
  )
  mem-longer_peers ours ((peer, theirs) ∷ peers) res x h =
      let (ys, xs, here, rest, joined) =
        add_entries-ok (longer_feeds r os peer theirs ours) (longer_peers r os ours peers) res h in
      let first = mem-longer_feeds peer theirs ours ys x here in
      let ih = mem-longer_peers ours peers xs x rest in
      (
        λ m.
            ⊎_elim (λ now. (peer, theirs, Memᴰ.head refl, first.0 now))
              (λ later. let (p, t, there, l) = ih.0 later in (p, t, Memᴰ.tail there, l))
              (Memᴰ.append_cases ys (subst (Memᴰ x) joined m)),
        λ (p, t, there, l). subst (Memᴰ x) (sym joined) (
            ⊎_elim
              (λ e. Memᴰ.append_left xs (
                first.1
                  (subst (λ (q : String × NetworkFrontierMap). LongerFeed q.0 q.1 ours x) e l)))
              (λ later. Memᴰ.append_right ys (ih.1 (p, t, later, l))) (Memᴰ.cases_cons there)),
      )

  -- What `HasLonger` returns without an error, on a matrix that holds our own frontier for the
  -- format, are exactly the entries for a peer that the matrix holds and a feed that we and the peer
  -- have notes on, theirs with the higher sequence; their length is that sequence as an unsigned
  -- number, and their references are parsed from the keys. The matrix stays as it was.
  pub has_longer_lem :
      (format : String) (s s' : StateMatrix) (peers : GoMap String NetworkFrontierMap)
      (ours : NetworkFrontierMap) (res : List (HasLongerResult Feed)) (x : HasLongerResult Feed)
      → lookup format s.open_frontiers ≡ some peers
      → lookup s.self peers ≡ some ours
      → has_longer r os format s ≡ (ok res, s')
      → (Memᴰ x res ↔ LongerAt ours peers x) × (s' ≡ s)
  unfolding has_longer
  has_longer_lem format s s' peers ours res x found self_found h =
      (mem-longer_peers ours peers res x (ground arith), ground arith)
