-- ===== src/LiveFeeds/Serving.antt =====
-- The messages that a sink with a limit gets, of all that are published.

use metalife_pub.Prelude.{
  ℕ, zero, suc, ◌+◌, ◌^◌, ◌<◌, ◌≤◌, List, [], ◌∷◌, ◌++◌, none, some, Bool, true, false, ◌==◌,
  if◌then◌else◌, ◌≡◌, inl, inr, refl, sym, ap, subst, ◌∙◌, arith, Bool-cases, Option-cases, String,
  eqb, eqb_iff, string_eq, nat_eq, list_eq, pair_eq, bool_eq, length, take,
}
use metalife_pub.Prelude.Int.{pos_part, ℤ, pos, negsuc, ltb_ℤ, ◌+ℤ◌, ◌=ℤ◌, ◌≤ℤ◌}
use metalife_pub.Prelude.Int64.{to_int64, to_int64_id}
use metalife_pub.GoMap.{GoMap, lookup, insert}
use metalife_pub.GoMap.Laws.{lookup-insert, lookup-insert_self, Distinct, insert-Distinct}
use metalife_pub.LiveFeeds.{
  MultiSink, new_multi_sink, register, send, pour, serve_live_feeds, add_live_feed,
}
use metalife_pub.LiveFeeds.Limits.{
  got, messages_of, stays, Feeds, Sound, Only, send_open, pour_at, pour_elsewhere, pour-some,
  pour-Sound, pour-Only, got-append, elsewhere, got_nothing,
}

-- Until which sequence a sink is served that still gets n + 1 messages.
abbrev Quota : ℤ → ℤ → ℕ → Type 0
Quota q until zero = until ≤ℤ (q +ℤ pos 1)
Quota q until (suc n) = until ≡ q +ℤ pos (suc (suc n))

wrap_next : (q : ℤ) → negsuc 0 ≤ℤ q → pos_part q < 2 ^ 62 → to_int64 (q +ℤ pos 1) ≡ q +ℤ pos 1
unfolding ◌+ℤ◌
wrap_next q h b = to_int64_id (q +ℤ pos 1) (ground arith)

next_parts :
    (q : ℤ)
    → negsuc 0 ≤ℤ q
    → (negsuc 0 ≤ℤ (q +ℤ pos 1)) × (pos_part (q +ℤ pos 1) ≤ suc (pos_part q))
unfolding ◌+ℤ◌
next_parts q h = ground arith

Quota-done : (q until : ℤ) → Quota q until 0 → ltb_ℤ (q +ℤ pos 1) until ≡ false
Quota-done q until h = ground arith

Quota-more : (q until : ℤ) (n : ℕ) → Quota q until (suc n) → ltb_ℤ (q +ℤ pos 1) until ≡ true
unfolding ◌+ℤ◌
Quota-more q until n h = ground (arith, h)

Quota-next : (q until : ℤ) (n : ℕ) → Quota q until (suc n) → Quota (q +ℤ pos 1) until n
unfolding ◌+ℤ◌
Quota-next q until zero h = ground (arith, h)
Quota-next q until (suc n) h = ground (arith, h)

module _ {A : Type 0} (fails : ℕ → A → Bool) (k : ℕ) (sure : (msg : A) → fails k msg ≡ false)
    (a : String) where
  -- The sink is registered with the quota in the feed, which is open, and in no other.
  abbrev Serves : ℤ → ℕ → Feeds fails → MultiSink → Type 0
  Serves until n m f =
      Sound fails m
      × Only fails k a m
      × (lookup a m ≡ some f)
      × (f.is_closed ≡ false)
      × (lookup k f.sinks ≡ some until)
      × Quota f.seq until n
      × (negsuc 0 ≤ℤ f.seq)

  serving :
      (msgs : List (String × A)) (until : ℤ) (n : ℕ) (m : Feeds fails) (f : MultiSink)
      → Serves until n m f
      → pos_part f.seq + length msgs < 2 ^ 62
      → got k (serve_live_feeds fails msgs m).0 ≡ take (suc n) (messages_of a msgs)
  unfolding serve_live_feeds
  serving [] until n m f h b = refl
  serving ((c, msg) ∷ msgs) until n m f (sound, only, it, open_, reg, quota, low) b =
      let m' : Feeds fails = (pour fails c msg m).1 in
      let sound' = pour-Sound fails c msg m sound in
      let only' = pour-Only fails k a c msg m sound only in
      let split = got-append fails k (pour fails c msg m).0 (serve_live_feeds fails msgs m').0 in
      elim (Bool-cases (eqb c a)) [
        | inr other ↦
            let rest =
              serving msgs until n m' f
                (sound', only', pour_elsewhere fails c a msg m other ∙ it, open_, reg, quota, low)
                (omega (arith, b)) in
            split
            ∙ (ap (λ xs. xs ++ got k (serve_live_feeds fails msgs m').0)
                  (elsewhere fails k a c msg m sound only other)
                ∙ (rest ∙ rw other refl))
        | inl here ↦
            let it_c : lookup c m ≡ some f =
              subst (λ x. lookup x m ≡ some f) (sym ((eqb_iff c a).0 here)) it in
            let f' : MultiSink = (send fails msg f).1 in
            let (g, l, sq, still_open) = send_open fails k msg f (sound c f it_c) open_ in
            let seq' : f'.seq ≡ f.seq +ℤ pos 1 = sq ∙ wrap_next f.seq low (omega (arith, b)) in
            let first : got k (pour fails c msg m).0 ≡ msg ∷ [] =
              ap (got k) (pour-some fails c msg m f it_c) ∙ (g ∙ rw reg refl) in
            let at_a : lookup a m' ≡ some f' = pour_at fails c a msg m here ∙ rw it_c refl in
            let kept : lookup k f'.sinks ≡ stays fails k msg (f.seq +ℤ pos 1) (some until) =
              l
              ∙ (ap (λ q. stays fails k msg q (lookup k f.sinks))
                    (wrap_next f.seq low (omega (arith, b)))
                  ∙ ap (stays fails k msg (f.seq +ℤ pos 1)) reg) in
            split
            ∙ (ap (λ xs. xs ++ got k (serve_live_feeds fails msgs m').0) first
                ∙ (ap (λ xs. msg ∷ xs)
                      ((elim n
                          as (λ x.
                            Quota f.seq until x
                            → got k (serve_live_feeds fails msgs m').0
                              ≡ take x (messages_of a msgs)) [
                                | zero ↦ λ q. got_nothing fails k a msgs m' sound' only' (λ x e.
                                    subst (λ y. lookup k y.sinks ≡ none) (some_same (sym at_a ∙ e))
                                      (kept ∙ rw (sure msg) (rw (Quota-done f.seq until q) refl)))
                                | suc n' ↦ λ q.
                                    serving msgs until n' m' f'
                                      (
                                        sound',
                                        only',
                                        at_a,
                                        still_open,
                                        kept
                                            ∙ rw (sure msg) (rw (Quota-more f.seq until n' q) refl),
                                        subst (λ x. Quota x until n') (sym seq')
                                            (Quota-next f.seq until n' q),
                                        subst (λ x. negsuc 0 ≤ℤ x) (sym seq')
                                            (next_parts f.seq low).0,
                                      )
                                      (subst (λ x. pos_part x + length msgs < 2 ^ 62) (sym seq')
                                        (omega (arith, b, (next_parts f.seq low).1)))
                              ])
                        quota)
                    ∙ rw here refl))
      ]
    where
      some_same : {x y : MultiSink} → some x ≡ some y → x ≡ y
      some_same h = cc

Quota-start :
    (q : ℤ) (limit : ℕ)
    → (n : ℕ) × Quota q (q +ℤ pos limit) n × ((if limit == 0 then 1 else limit) ≡ suc n)
unfolding ◌+ℤ◌
Quota-start q zero = (0, ground arith, refl)
Quota-start q (suc zero) = (0, ground arith, refl)
Quota-start q (suc (suc l)) = (suc l, refl, ground arith)

wrap_limit :
    (q : ℤ) (limit : ℕ)
    → negsuc 0 ≤ℤ q
    → pos_part q < 2 ^ 62
    → limit < 2 ^ 62
    → to_int64 (q +ℤ pos limit) ≡ q +ℤ pos limit
unfolding ◌+ℤ◌
wrap_limit q limit h b c = to_int64_id (q +ℤ pos limit) (ground arith)

some_injective {ℓ} : {B : Type ℓ} {x y : B} → some x ≡ some y → x ≡ y
some_injective h = cc

insert_at :
    (a c : String) (f : MultiSink) (m : GoMap String MultiSink)
    → eqb a c ≡ true
    → lookup c (insert a f m) ≡ some f
insert_at a c f m h = lookup-insert a c f m ∙ rw h refl

insert_elsewhere :
    (a c : String) (f : MultiSink) (m : GoMap String MultiSink)
    → eqb a c ≡ false
    → lookup c (insert a f m) ≡ lookup c m
insert_elsewhere a c f m h = lookup-insert a c f m ∙ rw h refl

-- The feed that the sink is added to.
added :
    (k : ℕ) (a : String) (seq : ℤ) (limit : ℕ) (m : GoMap String MultiSink)
    → ((b : String) (f : MultiSink)
        → lookup b m ≡ some f
        → Distinct f.sinks × (lookup k f.sinks ≡ none))
    → ((f : MultiSink) → lookup a m ≡ some f → (f.is_closed ≡ false) × (f.seq ≡ seq))
    → (f : MultiSink) × (add_live_feed k a seq (pos limit) m
        ≡ insert a (register k (to_int64 (seq +ℤ pos limit)) f) m)
      × (f.is_closed ≡ false)
      × (f.seq ≡ seq)
      × Distinct f.sinks
unfolding add_live_feed new_multi_sink
added k a seq limit m fresh counted =
    let limited : (pos limit =ℤ negsuc 0) ≡ false = ground arith in
    elim (Option-cases (lookup a m)) [
      | inl new ↦ (new_multi_sink seq, rw (new, add_live_feed) (rw limited refl), refl, refl, tt)
      | inr (f, it) ↦ (
        f,
        rw (it, add_live_feed) (rw limited refl),
        (counted f it).0,
        (counted f it).1,
        (fresh a f it).0,
      )
    ]

-- A live sink that no feed has yet, is added with a limit to a feed that is new or whose messages have
-- all been counted, and is poured without an error gets, of all the messages that are published
-- afterwards, those of its author up to the limit, but one where the limit is 0.
pub add_live_feed_lem :
    {A : Type 0} (fails : ℕ → A → Bool) (k : ℕ) (a : String) (seq : ℤ) (limit : ℕ)
    (msgs : List (String × A)) (m : Feeds fails)
    → ((msg : A) → fails k msg ≡ false)
    → ((b : String) (f : MultiSink)
        → lookup b m ≡ some f
        → Distinct f.sinks × (lookup k f.sinks ≡ none))
    → ((f : MultiSink) → lookup a m ≡ some f → (f.is_closed ≡ false) × (f.seq ≡ seq))
    → negsuc 0 ≤ℤ seq
    → pos_part seq + length msgs < 2 ^ 62
    → limit < 2 ^ 62
    → got k (serve_live_feeds fails msgs (add_live_feed k a seq (pos limit) m)).0
      ≡ take (if limit == 0 then 1 else limit) (messages_of a msgs)
unfolding add_live_feed register new_multi_sink
add_live_feed_lem fails k a seq limit msgs m sure fresh counted low b lb =
    let (f, it, open_, same, d) = added k a seq limit m fresh counted in
    let (n, quota, many) = Quota-start seq limit in
    let until : ℤ = to_int64 (seq +ℤ pos limit) in
    let exact = wrap_limit seq limit low (omega (arith, b)) lb in
    let f' : MultiSink = register k until f in
    let sound : Sound fails (insert a f' m) = λ c g e. elim (Bool-cases (eqb a c)) [
      | inl here ↦
          subst (λ x. Distinct x.sinks) (some_injective (sym (insert_at a c f' m here) ∙ e))
            (insert-Distinct k until f.sinks d)
      | inr other ↦ (fresh c g (sym (insert_elsewhere a c f' m other) ∙ e)).0
    ] in
    let only : Only fails k a (insert a f' m) =
      λ c g ne e. (fresh c g (sym (insert_elsewhere a c f' m ne) ∙ e)).1 in
    ap (λ x. got k (serve_live_feeds fails msgs x).0) it
    ∙ (serving fails k sure a msgs until n (insert a f' m) f'
          (
            sound,
            only,
            lookup-insert_self a f' m,
            open_,
            lookup-insert_self k until f.sinks,
            subst (λ x. Quota x until n) (sym same) (subst (λ x. Quota seq x n) (sym exact) quota),
            subst (λ x. negsuc 0 ≤ℤ x) (sym same) low,
          )
          (subst (λ x. pos_part x + length msgs < 2 ^ 62) (sym same) b)
        ∙ ap (λ x. take x (messages_of a msgs)) (sym many))
