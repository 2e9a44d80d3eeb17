-- ===== src/Hops/Reach.antt =====
-- Which feeds are within reach, and that the recursion ends with some of them where subfeeds do not
-- lead back.
use mathlib.Core.Option
use metalife_pub.Prelude.{
  ℕ, zero, suc, ◌+◌, ◌-◌, ◌*◌, ◌<◌, ◌≤◌, [], Option, some, Bool, true, false, ◌≡◌, ◌≢◌, inl, inr,
  refl, sym, ap, ◌∙◌, arith, Bool-cases, Option-cases, String, eqb_iff, eqb_refl, string_eq, nat_eq,
  list_eq, pair_eq, bool_eq,
}
use metalife_pub.FeedSet.{FeedSet, add_ref, delete_ref, list, has_ref}
use metalife_pub.FeedSet.Laws.{has-add_ref, has-delete_ref, has-nil, listed-list}
use metalife_pub.Graph.{Builder}
use metalife_pub.Hops.{
  follows_of, subfeeds_of, metafeed_of, Walk, walk_to, recurse_subfeeds, recurse_metafeed,
  recurse_friend, recurse_follow, expand, recurse_hops, hops,
}
use metalife_pub.Hops.Loops.{each_ends}
use metalife_pub.Hops.Near.{
  Owner, own, followed, linked, Near, direct, metafeed, subfeed, past_subfeed, past_friend,
  IsRanked, Grows, Grows-refl, Grows-trans, Grows-to, Grows-past,
}

module _ (is_bendy_butt : String → Bool) (b : Builder) where
  module _ (rank : String → ℕ) (bound : ℕ) (bounded : (f : String) → rank f ≤ bound)
      (ranked : IsRanked is_bendy_butt b rank) where
    abbrev Ends : ℕ → (String → ℕ → Walk → Option Walk) → Type 0
    Ends n recurse =
        (who : String) (d : ℕ) (w : Walk)
        → d * suc bound + rank who < n
        → (w' : Walk) × (recurse who d w ≡ some w') × Grows is_bendy_butt b d who w w'

    subfeeds_end :
        (recurse : String → ℕ → Walk → Option Walk) (n d : ℕ) (who g : String) (w : Walk)
        → Ends n recurse
        → suc d * suc bound + rank who < suc n
        → Owner b who g
        → (w' : Walk) × (recurse_subfeeds is_bendy_butt b recurse (suc d) g w ≡ some w')
          × Grows is_bendy_butt b (suc d) who w w'
    unfolding recurse_subfeeds
    subfeeds_end recurse n d who g w ends lt o = elim (Bool-cases (is_bendy_butt g)) [
      | inr plain ↦ rw (plain, recurse_subfeeds) (w, refl, Grows-refl is_bendy_butt b (suc d) who w)
      | inl bendy ↦
          let (w', e, r, _) =
            each_ends (Grows is_bendy_butt b (suc d) who) (λ f v. Unit {0})
              (Grows-refl is_bendy_butt b (suc d) who) (Grows-trans is_bendy_butt b (suc d) who)
              (λ f u v q r. tt) (λ sub v. recurse sub (suc d) (walk_to sub v))
              (list (subfeeds_of b g)) w
              (λ s v l.
                let is_sub = sym (listed-list (subfeeds_of b g) s) ∙ l in
                let (v', e, r) =
                  ends s (suc d) (walk_to s v) (omega (arith, ranked who g s o bendy is_sub)) in
                (
                  v',
                  e,
                  Grows-trans is_bendy_butt b (suc d) who v (walk_to s v) v'
                      (Grows-to is_bendy_butt b (suc d) who s v (subfeed g o bendy is_sub))
                      (Grows-past is_bendy_butt b (suc d) (suc d) who s (walk_to s v) v'
                        (λ x near. past_subfeed g s o bendy is_sub near) r),
                  tt,
                )) in
          rw (bendy, recurse_subfeeds) (w', e, r)
    ]

    metafeed_end :
        (recurse : String → ℕ → Walk → Option Walk) (n d : ℕ) (who f : String) (w : Walk)
        → Ends n recurse
        → suc d * suc bound + rank who < suc n
        → has_ref (follows_of b who) f ≡ true
        → (w' : Walk) × (recurse_metafeed is_bendy_butt b recurse (suc d) f w ≡ some w')
          × Grows is_bendy_butt b (suc d) who w w'
    unfolding recurse_metafeed
    metafeed_end recurse n d who f w ends lt follow = elim (Option-cases (metafeed_of b f)) [
      | inl alone ↦ rw (alone, recurse_metafeed) (w, refl, Grows-refl is_bendy_butt b (suc d) who w)
      | inr (mf, it) ↦
          let (w', e, r) =
            subfeeds_end recurse n d who mf (walk_to mf w) ends lt (linked f follow it) in
          rw (it, recurse_metafeed)
            (
              w',
              e,
              Grows-trans is_bendy_butt b (suc d) who w (walk_to mf w) w'
                  (Grows-to is_bendy_butt b (suc d) who mf w (metafeed f follow it)) r,
            )
    ]

    friend_end :
        (recurse : String → ℕ → Walk → Option Walk) (n d : ℕ) (who f : String) (w : Walk)
        → Ends n recurse
        → suc d * suc bound + rank who < suc n
        → has_ref (follows_of b who) f ≡ true
        → (w' : Walk) × (recurse_friend is_bendy_butt b recurse who (suc d) f w ≡ some w')
          × Grows is_bendy_butt b (suc d) who w w'
    unfolding recurse_friend
    friend_end recurse n d who f w ends lt follow =
        elim (Bool-cases (has_ref (follows_of b f) who)) [
          | inr not_back ↦
              rw (not_back, recurse_friend) (w, refl, Grows-refl is_bendy_butt b (suc d) who w)
          | inl back ↦
              let (w', e, r) = ends f d w (fits n d who f lt) in
              rw (back, recurse_friend)
                (
                  w',
                  ap (λ k. recurse f k w) (one_less d) ∙ e,
                  Grows-past is_bendy_butt b (suc d) d who f w w'
                      (λ x near. past_friend f follow back near) r,
                )
        ]
      where
        fits :
            (n d : ℕ) (who f : String)
            → suc d * suc bound + rank who < suc n
            → d * suc bound + rank f < n
        fits n d who f lt = grind (arith, bounded f)

        one_less : (d : ℕ) → suc d - 1 ≡ d
        one_less d = omega arith

    follow_end :
        (recurse : String → ℕ → Walk → Option Walk) (n d : ℕ) (who f : String) (w : Walk)
        → Ends n recurse
        → suc d * suc bound + rank who < suc n
        → has_ref (follows_of b who) f ≡ true
        → (w' : Walk) × (recurse_follow is_bendy_butt b recurse who (suc d) f w ≡ some w')
          × (Grows is_bendy_butt b (suc d) who w w')
          × (has_ref w'.walked f ≡ true)
    unfolding recurse_follow
    follow_end recurse n d who f w ends lt follow =
        let w0 : Walk = walk_to f w in
        let (w1, e1, r1) = metafeed_end recurse n d who f w0 ends lt follow in
        let (w2, e2, r2) = subfeeds_end recurse n d who f w1 ends lt (followed follow) in
        let (w3, e3, r3) = friend_end recurse n d who f w2 ends lt follow in
        let r =
          Grows-trans is_bendy_butt b (suc d) who w0 w1 w3 r1
            (Grows-trans is_bendy_butt b (suc d) who w1 w2 w3 r2 r3) in
        (
          w3,
          rw (e1, recurse_follow) (rw e2 e3),
          Grows-trans is_bendy_butt b (suc d) who w w0 w3
              (Grows-to is_bendy_butt b (suc d) who f w (direct follow)) r,
          r.0 f (has-add_ref f f w.walked ∙ rw (eqb_refl f)),
        )

    expand_end :
        (recurse : String → ℕ → Walk → Option Walk) (n d : ℕ) (who : String) (w : Walk)
        → Ends n recurse
        → suc d * suc bound + rank who < suc n
        → (w' : Walk) × (expand is_bendy_butt b recurse who (suc d) w ≡ some w')
          × (Grows is_bendy_butt b (suc d) who w w')
          × ((f : String) → has_ref (follows_of b who) f ≡ true → has_ref w'.walked f ≡ true)
    unfolding expand
    expand_end recurse n d who w ends lt =
        let (w1, e1, r1) = subfeeds_end recurse n d who who w ends lt own in
        let (w2, e2, r2, all) =
          each_ends (Grows is_bendy_butt b (suc d) who) (λ f v. has_ref v.walked f ≡ true)
            (Grows-refl is_bendy_butt b (suc d) who) (Grows-trans is_bendy_butt b (suc d) who)
            (λ f u v q r. r.0 f q) (recurse_follow is_bendy_butt b recurse who (suc d))
            (list (follows_of b who)) w1
            (λ f v l.
              follow_end recurse n d who f v ends lt
                (sym (listed-list (follows_of b who) f) ∙ l)) in
        (
          record w2 { visited = add_ref who w2.visited },
          rw (e1, expand) (rw e2 refl),
          Grows-trans is_bendy_butt b (suc d) who w w1 w2 r1 r2,
          λ f follow. all f (listed-list (follows_of b who) f ∙ follow),
        )

    recurse-Ends : (n : ℕ) → Ends n (recurse_hops is_bendy_butt b n)
    unfolding recurse_hops
    recurse-Ends zero who d w lt = absurd (omega arith)
    recurse-Ends (suc n) who zero w lt = (w, refl, Grows-refl is_bendy_butt b zero who w)
    recurse-Ends (suc n) who (suc d) w lt = elim (Bool-cases (has_ref w.visited who)) [
      | inl before ↦ rw (before, recurse_hops) (w, refl, Grows-refl is_bendy_butt b (suc d) who w)
      | inr new ↦
          let (w', e, r, _) =
            expand_end (recurse_hops is_bendy_butt b n) n d who w (recurse-Ends n) lt in
          rw (new, recurse_hops) (w', e, r)
    ]

-- Where every subfeed that is looked at from a feed has a rank below that feed's, and ranks are
-- bounded: with more fuel than the distance times the bound plus one plus the rank, `Hops` returns a
-- set without the feed itself, whose members are all within the distance, and which has every other
-- feed that the feed follows.
pub hops_lem :
    (is_bendy_butt : String → Bool) (b : Builder) (rank : String → ℕ) (bound : ℕ)
    → ((f : String) → rank f ≤ bound)
    → IsRanked is_bendy_butt b rank
    → (fuel max : ℕ) (from : String) → suc max * suc bound + rank from < fuel
    → (fs : FeedSet) × (hops is_bendy_butt b fuel from max ≡ some fs)
      × (has_ref fs from ≡ false)
      × ((x : String) → has_ref fs x ≡ true → Near is_bendy_butt b (suc max) from x)
      × ((f : String) → has_ref (follows_of b from) f ≡ true → f ≢ from → has_ref fs f ≡ true)
unfolding hops recurse_hops
hops_lem is_bendy_butt b rank bound bounded ranked zero max from lt = absurd (omega arith)
hops_lem is_bendy_butt b rank bound bounded ranked (suc n) max from lt =
    let start : Walk = record { walked = []; visited = [] } in
    let (w, e, r, all) =
      expand_end is_bendy_butt b rank bound bounded ranked (recurse_hops is_bendy_butt b n) n max
        from start (recurse-Ends is_bendy_butt b rank bound bounded ranked n) lt in
    (
      delete_ref from w.walked,
      rw (has-nil from, recurse_hops) (ap (λ o. Option.map (λ v. delete_ref from v.walked) o) e),
      has-delete_ref from from w.walked ∙ rw (eqb_refl from),
      λ x h. elim (r.1 x (ground (arith, has-delete_ref from x w.walked))) [
        | inl old ↦ absurd (true_ne (sym old ∙ has-nil x))
        | inr near ↦ near
      ],
      λ f follow other.
          ground (arith, has-delete_ref from f w.walked, all f follow, eqb_iff from f),
    )
  where
    true_ne : true ≢ false
    true_ne h = cc
