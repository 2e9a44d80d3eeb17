-- ===== src/LiveFeeds/Limits.antt =====
-- How many messages a live sink gets.
use mathlib.Core.Option
use metalife_pub.Prelude.{
  ℕ, List, [], ◌∷◌, ◌++◌, Option, none, some, Bool, true, false, not, ◌==◌, ◌||◌, if◌then◌else◌,
  ◌≡◌, inl, inr, refl, sym, ap, subst, ◌∙◌, arith, Bool-cases, Option-cases, String, eqb, eqb_iff,
  eqb_comm, string_eq, nat_eq, list_eq, pair_eq, bool_eq, is_some, ==_iff,
}
use metalife_pub.Prelude.Int.{ℤ, pos, ltb_ℤ, ◌+ℤ◌}
use metalife_pub.Prelude.Int64.{to_int64}
use metalife_pub.GoMap.{GoMap, lookup}
use metalife_pub.GoMap.Laws.{lookup-insert, Distinct, lookup-cons, lookup-nil}
use metalife_pub.LiveFeeds.{MultiSink, pour_sinks, send, pour, serve_live_feeds}

-- What the sink is poured, in order.
abbrev pub got : {A : Type 0} → ℕ → List (ℕ × A) → List A
got k [] = []
got k ((s, msg) ∷ poured) = if s == k then msg ∷ got k poured else got k poured

-- The messages of an author.
abbrev pub messages_of : {A : Type 0} → String → List (String × A) → List A
messages_of a [] = []
messages_of a ((b, msg) ∷ msgs) = if eqb b a then msg ∷ messages_of a msgs else messages_of a msgs

module _ {A : Type 0} (fails : ℕ → A → Bool) where
  got-pour_sinks :
      (k : ℕ) (msg : A) (seq : ℤ) (sinks : GoMap ℕ ℤ)
      → Distinct sinks
      → got k (pour_sinks fails msg seq sinks).0
        ≡ (if is_some (lookup k sinks) then msg ∷ [] else [])
  unfolding pour_sinks
  got-pour_sinks k msg seq [] d = ground (arith, lookup-nil {V = ℤ} k)
  got-pour_sinks k msg seq ((s, until) ∷ sinks) d =
      ground
        (arith, got-pour_sinks k msg seq sinks d.1, lookup-cons k s until sinks, ==_iff s k, d.0)

  abbrev pub stays : ℕ → A → ℤ → Option ℤ → Option ℤ
  stays k msg seq none = none
  stays k msg seq (some until) = if fails k msg || not (ltb_ℤ seq until) then none else some until

  kept-pour_sinks :
      (k : ℕ) (msg : A) (seq : ℤ) (sinks : GoMap ℕ ℤ)
      → Distinct sinks
      → lookup k (pour_sinks fails msg seq sinks).1 ≡ stays k msg seq (lookup k sinks)
  unfolding pour_sinks
  kept-pour_sinks k msg seq [] d = ground (arith, lookup-nil {V = ℤ} k)
  kept-pour_sinks k msg seq ((s, until) ∷ sinks) d = ground (
    arith,
    kept-pour_sinks k msg seq sinks d.1,
    lookup-cons k s until sinks,
    lookup-cons k s until (pour_sinks fails msg seq sinks).1,
    ==_iff s k,
    d.0,
  )

  Distinct-pour_sinks :
      (msg : A) (seq : ℤ) (sinks : GoMap ℕ ℤ)
      → Distinct sinks
      → Distinct (pour_sinks fails msg seq sinks).1
  unfolding pour_sinks
  Distinct-pour_sinks msg seq [] d = tt
  Distinct-pour_sinks msg seq ((s, until) ∷ sinks) d =
      ground
        (arith, Distinct-pour_sinks msg seq sinks d.1, kept-pour_sinks s msg seq sinks d.1, d.0)

  pub send_open :
      (k : ℕ) (msg : A) (f : MultiSink)
      → Distinct f.sinks
      → f.is_closed ≡ false
      → (got k (send fails msg f).0 ≡ (if is_some (lookup k f.sinks) then msg ∷ [] else []))
        × (lookup k (send fails msg f).1.sinks
            ≡ stays k msg (to_int64 (f.seq +ℤ pos 1)) (lookup k f.sinks))
        × ((send fails msg f).1.seq ≡ to_int64 (f.seq +ℤ pos 1))
        × ((send fails msg f).1.is_closed ≡ false)
  unfolding send
  send_open k msg f d o =
      rw (o, send)
        (
          got-pour_sinks k msg (to_int64 (f.seq +ℤ pos 1)) f.sinks d,
          kept-pour_sinks k msg (to_int64 (f.seq +ℤ pos 1)) f.sinks d,
          refl,
          refl,
        )

  pub send-Distinct :
      (msg : A) (f : MultiSink) → Distinct f.sinks → Distinct (send fails msg f).1.sinks
  unfolding send
  send-Distinct msg f d = elim (Bool-cases f.is_closed) [
    | inl shut ↦ rw (shut, send) d
    | inr o ↦ rw (o, send) (Distinct-pour_sinks msg (to_int64 (f.seq +ℤ pos 1)) f.sinks d)
  ]

  send_without :
      (k : ℕ) (msg : A) (f : MultiSink)
      → Distinct f.sinks
      → lookup k f.sinks ≡ none
      → (got k (send fails msg f).0 ≡ []) × (lookup k (send fails msg f).1.sinks ≡ none)
  unfolding send
  send_without k msg f d h = elim (Bool-cases f.is_closed) [
    | inl shut ↦ rw (shut, send) (refl, h)
    | inr o ↦ let (g, l, _, _) = send_open k msg f d o in (g ∙ rw h refl, l ∙ rw h refl)
  ]

  abbrev pub Feeds : Type 0
  Feeds = GoMap String MultiSink

  lookup-pour :
      (a b : String) (msg : A) (m : Feeds)
      → lookup b (pour fails a msg m).1
        ≡ (if eqb a b then Option.map (λ f. (send fails msg f).1) (lookup a m) else lookup b m)
  unfolding pour
  lookup-pour a b msg m = elim (Option-cases (lookup a m)) [
    | inl no_feed ↦ ground (arith, no_feed, eqb_iff a b)
    | inr (f, it) ↦ ground (arith, it, lookup-insert a b (send fails msg f).1 m)
  ]

  pub pour_at :
      (a b : String) (msg : A) (m : Feeds)
      → eqb a b ≡ true
      → lookup b (pour fails a msg m).1 ≡ Option.map (λ f. (send fails msg f).1) (lookup a m)
  pour_at a b msg m h = lookup-pour a b msg m ∙ rw h refl

  pub pour_elsewhere :
      (a b : String) (msg : A) (m : Feeds)
      → eqb a b ≡ false
      → lookup b (pour fails a msg m).1 ≡ lookup b m
  pour_elsewhere a b msg m h = lookup-pour a b msg m ∙ rw h refl

  pub pour-some :
      (a : String) (msg : A) (m : Feeds) (f : MultiSink)
      → lookup a m ≡ some f
      → (pour fails a msg m).0 ≡ (send fails msg f).0
  unfolding pour
  pour-some a msg m f h = rw (h, pour) refl

  pour-none : (a : String) (msg : A) (m : Feeds) → lookup a m ≡ none → (pour fails a msg m).0 ≡ []
  unfolding pour
  pour-none a msg m h = rw (h, pour) refl

  -- Each feed's map holds a sink once.
  abbrev pub Sound : Feeds → Type 0
  Sound m = (b : String) (f : MultiSink) → lookup b m ≡ some f → Distinct f.sinks

  -- No feed but `a` has the sink.
  abbrev pub Only : ℕ → String → Feeds → Type 0
  Only k a m =
      (b : String) (f : MultiSink) → eqb a b ≡ false → lookup b m ≡ some f → lookup k f.sinks ≡ none

  map-some :
      (o : Option MultiSink) (g : MultiSink → MultiSink) (y : MultiSink)
      → Option.map g o ≡ some y
      → (x : MultiSink) × (o ≡ some x) × (g x ≡ y)
  map-some none g y h = cc
  map-some (some x) g y h = (x, refl, cc)

  pub pour-Sound : (a : String) (msg : A) (m : Feeds) → Sound m → Sound (pour fails a msg m).1
  pour-Sound a msg m s b f h = elim (Bool-cases (eqb a b)) [
    | inl here ↦
        let (g, it, e) =
          map-some (lookup a m) (λ f'. (send fails msg f').1) f
            (sym (pour_at a b msg m here) ∙ h) in
        subst (λ x. Distinct x.sinks) e (send-Distinct msg g (s a g it))
    | inr other ↦ s b f (sym (pour_elsewhere a b msg m other) ∙ h)
  ]

  pub pour-Only :
      (k : ℕ) (a c : String) (msg : A) (m : Feeds)
      → Sound m
      → Only k a m
      → Only k a (pour fails c msg m).1
  pour-Only k a c msg m s o b f ne h = elim (Bool-cases (eqb c b)) [
    | inl here ↦
        let (g, it, e) =
          map-some (lookup c m) (λ f'. (send fails msg f').1) f
            (sym (pour_at c b msg m here) ∙ h) in
        subst (λ x. lookup k x.sinks ≡ none) e
          (send_without k msg g (s c g it) (o c g (ground (arith, here, ne, eqb_iff c b)) it)).1
    | inr other ↦ o b f ne (sym (pour_elsewhere c b msg m other) ∙ h)
  ]

  pub got-append : (k : ℕ) (xs ys : List (ℕ × A)) → got k (xs ++ ys) ≡ got k xs ++ got k ys
  got-append k [] ys = refl
  got-append k ((s, msg) ∷ xs) ys = ground (arith, got-append k xs ys)

  -- A message of another feed does not reach the sink.
  pub elsewhere :
      (k : ℕ) (a c : String) (msg : A) (m : Feeds)
      → Sound m
      → Only k a m
      → eqb c a ≡ false
      → got k (pour fails c msg m).0 ≡ []
  elsewhere k a c msg m s o ne = elim (Option-cases (lookup c m)) [
    | inl no_feed ↦ ap (got k) (pour-none c msg m no_feed)
    | inr (f, it) ↦
        ap (got k) (pour-some c msg m f it)
        ∙ (send_without k msg f (s c f it) (o c f (eqb_comm a c ∙ ne) it)).0
  ]

  -- A sink that is registered nowhere gets nothing.
  pub got_nothing :
      (k : ℕ) (a : String) (msgs : List (String × A)) (m : Feeds)
      → Sound m
      → Only k a m
      → ((f : MultiSink) → lookup a m ≡ some f → lookup k f.sinks ≡ none)
      → got k (serve_live_feeds fails msgs m).0 ≡ []
  unfolding serve_live_feeds
  got_nothing k a [] m s o h = refl
  got_nothing k a ((c, msg) ∷ msgs) m s o h =
      got-append k (pour fails c msg m).0 (serve_live_feeds fails msgs (pour fails c msg m).1).0
      ∙ rw
          (got_nothing k a msgs (pour fails c msg m).1 (pour-Sound c msg m s)
            (pour-Only k a c msg m s o) after)
          (append_nil (got k (pour fails c msg m).0) ∙ now)
    where
      append_nil : (xs : List A) → xs ++ [] ≡ xs
      append_nil [] = refl
      append_nil (x ∷ xs) = ap (λ l. x ∷ l) (append_nil xs)

      now : got k (pour fails c msg m).0 ≡ []
      now = elim (Bool-cases (eqb c a)) [
        | inr other ↦ elsewhere k a c msg m s o other
        | inl here ↦ elim (Option-cases (lookup c m)) [
          | inl no_feed ↦ ap (got k) (pour-none c msg m no_feed)
          | inr (f, it) ↦
              ap (got k) (pour-some c msg m f it)
              ∙ (send_without k msg f (s c f it)
                  (h f (subst (λ x. lookup x m ≡ some f) ((eqb_iff c a).0 here) it))).0
        ]
      ]

      after : (f : MultiSink) → lookup a (pour fails c msg m).1 ≡ some f → lookup k f.sinks ≡ none
      after f e = elim (Bool-cases (eqb c a)) [
        | inr other ↦ h f (sym (pour_elsewhere c a msg m other) ∙ e)
        | inl here ↦
            let (g, it, e') =
              map-some (lookup c m) (λ f'. (send fails msg f').1) f
                (sym (pour_at c a msg m here) ∙ e) in
            subst (λ x. lookup k x.sinks ≡ none) e'
              (send_without k msg g (s c g it)
                (h g (subst (λ x. lookup x m ≡ some g) ((eqb_iff c a).0 here) it))).1
      ]
