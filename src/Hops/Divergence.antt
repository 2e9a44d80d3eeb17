-- ===== src/Hops/Divergence.antt =====
-- Where the recursion has no end: subfeeds that follow each other.

use metalife_pub.Prelude.{
  ℕ, zero, suc, ◌-◌, [], Option, none, some, Bool, true, false, ◌≡◌, inl, inr, refl, sym, subst,
  ◌∙◌, Bool-cases, Option-cases, String, eqb, eqb_iff, string_eq, nat_eq, list_eq, pair_eq, bool_eq,
}
use metalife_pub.FeedSet.{list, has_ref}
use metalife_pub.FeedSet.Laws.{has-add_ref, has-nil, listed-list}
use metalife_pub.Graph.{Builder}
use metalife_pub.Hops.{
  follows_of, subfeeds_of, metafeed_of, Walk, walk_to, recurse_subfeeds, recurse_metafeed,
  recurse_friend, recurse_follow, expand, recurse_hops, hops,
}
use metalife_pub.Hops.Loops.{bind_some, bind_none, each_keeps, each_stuck, some_injective, none_ne}

module _ (is_bendy_butt : String → Bool) (b : Builder) (s : String) where
  abbrev Unvisited : Walk → Type 0
  Unvisited w = has_ref w.visited s ≡ false

  abbrev Keeps : (String → ℕ → Walk → Option Walk) → Type 0
  Keeps recurse =
      (who : String) (d : ℕ) (w w' : Walk) → Unvisited w → recurse who d w ≡ some w' → Unvisited w'

  subfeeds-Keeps :
      (recurse : String → ℕ → Walk → Option Walk) (d : ℕ) (feed : String) (w w' : Walk)
      → Keeps recurse
      → Unvisited w
      → recurse_subfeeds is_bendy_butt b recurse d feed w ≡ some w'
      → Unvisited w'
  unfolding recurse_subfeeds
  subfeeds-Keeps recurse d feed w w' keeps u h = elim (Bool-cases (is_bendy_butt feed)) [
    | inl bendy ↦
        each_keeps Unvisited (λ sub v. recurse sub d (walk_to sub v)) (list (subfeeds_of b feed)) w
          w' (λ f v v' _ p e. keeps f d (walk_to f v) v' p e) u (rw (bendy, recurse_subfeeds) at h)
    | inr plain ↦ subst Unvisited (some_injective (rw (plain, recurse_subfeeds) at h)) u
  ]

  metafeed-Keeps :
      (recurse : String → ℕ → Walk → Option Walk) (d : ℕ) (feed : String) (w w' : Walk)
      → Keeps recurse
      → Unvisited w
      → recurse_metafeed is_bendy_butt b recurse d feed w ≡ some w'
      → Unvisited w'
  unfolding recurse_metafeed
  metafeed-Keeps recurse d feed w w' keeps u h = elim (Option-cases (metafeed_of b feed)) [
    | inl alone ↦ subst Unvisited (some_injective (rw (alone, recurse_metafeed) at h)) u
    | inr (mf, it) ↦
        subfeeds-Keeps recurse d mf (walk_to mf w) w' keeps u (rw (it, recurse_metafeed) at h)
  ]

  friend-Keeps :
      (recurse : String → ℕ → Walk → Option Walk) (who : String) (d : ℕ) (feed : String)
      (w w' : Walk)
      → Keeps recurse
      → Unvisited w
      → recurse_friend is_bendy_butt b recurse who d feed w ≡ some w'
      → Unvisited w'
  unfolding recurse_friend
  friend-Keeps recurse who d feed w w' keeps u h =
      elim (Bool-cases (has_ref (follows_of b feed) who)) [
        | inl back ↦ keeps feed (d - 1) w w' u (rw (back, recurse_friend) at h)
        | inr not_back ↦ subst Unvisited (some_injective (rw (not_back, recurse_friend) at h)) u
      ]

  follow-Keeps :
      (recurse : String → ℕ → Walk → Option Walk) (who : String) (d : ℕ) (feed : String)
      (w w' : Walk)
      → Keeps recurse
      → Unvisited w
      → recurse_follow is_bendy_butt b recurse who d feed w ≡ some w'
      → Unvisited w'
  unfolding recurse_follow
  follow-Keeps recurse who d feed w w' keeps u h =
      let (w1, e1, h1) = bind_some _ _ w' h in
      let (w2, e2, h2) = bind_some _ _ w' h1 in
      friend-Keeps recurse who d feed w2 w' keeps
        (subfeeds-Keeps recurse d feed w1 w2 keeps
          (metafeed-Keeps recurse d feed (walk_to feed w) w1 keeps u e1) e2)
        h2

  expand-Keeps :
      (recurse : String → ℕ → Walk → Option Walk) (who : String) (d : ℕ) (w w' : Walk)
      → Keeps recurse
      → eqb who s ≡ false
      → Unvisited w
      → expand is_bendy_butt b recurse who d w ≡ some w'
      → Unvisited w'
  unfolding expand
  expand-Keeps recurse who d w w' keeps other u h =
      let (w1, e1, h1) = bind_some _ _ w' h in
      let (w2, e2, h2) = bind_some _ _ w' h1 in
      let u2 =
        each_keeps Unvisited (recurse_follow is_bendy_butt b recurse who d)
          (list (follows_of b who)) w1 w2
          (λ f v v' _ p e. follow-Keeps recurse who d f v v' keeps p e)
          (subfeeds-Keeps recurse d who w w1 keeps u e1) e2 in
      subst Unvisited (some_injective h2) (has-add_ref who s w2.visited ∙ rw other u2)

  module _ (mf : String) (bendy : is_bendy_butt mf ≡ true)
      (sub : has_ref (subfeeds_of b mf) s ≡ true) where
    abbrev Stuck : ℕ → (String → ℕ → Walk → Option Walk) → Type 0
    Stuck d recurse = (w : Walk) → Unvisited w → recurse s d w ≡ none

    metafeed-Stuck :
        (recurse : String → ℕ → Walk → Option Walk) (d : ℕ) (g : String) (w : Walk)
        → Keeps recurse
        → Stuck d recurse
        → metafeed_of b g ≡ some mf
        → Unvisited w
        → recurse_metafeed is_bendy_butt b recurse d g w ≡ none
    unfolding recurse_metafeed recurse_subfeeds
    metafeed-Stuck recurse d g w keeps stuck it u =
        rw (it, recurse_metafeed)
          (rw (bendy, recurse_subfeeds)
            (each_stuck Unvisited (λ f v. recurse f d (walk_to f v)) s (list (subfeeds_of b mf))
              (walk_to mf w) (λ f v v' p e. keeps f d (walk_to f v) v' p e)
              (λ v p. stuck (walk_to s v) p) (listed-list (subfeeds_of b mf) s ∙ sub) u))

    expand-Stuck :
        (recurse : String → ℕ → Walk → Option Walk) (who : String) (d : ℕ) (g : String) (w : Walk)
        → Keeps recurse
        → Stuck d recurse
        → has_ref (follows_of b who) g ≡ true
        → metafeed_of b g ≡ some mf
        → Unvisited w
        → expand is_bendy_butt b recurse who d w ≡ none
    unfolding expand recurse_follow
    expand-Stuck recurse who d g w keeps stuck follow it u = bind_none _ _ (λ w1 e1.
        bind_none _ _ (λ w2 e2. absurd (
          none_ne w2 (
            sym (
              each_stuck Unvisited (recurse_follow is_bendy_butt b recurse who d) g
                (list (follows_of b who)) w1
                (λ f v v' p e. follow-Keeps recurse who d f v v' keeps p e)
                (λ v p. bind_none _ _ (λ w3 e3. absurd (
                  none_ne w3
                    (sym (metafeed-Stuck recurse d g (walk_to g v) keeps stuck it p) ∙ e3))))
                (listed-list (follows_of b who) g ∙ follow)
                (subfeeds-Keeps recurse d who w w1 keeps u e1))
            ∙ e2))))

    module _ (f : String) (follow : has_ref (follows_of b s) f ≡ true)
        (it : metafeed_of b f ≡ some mf) where
      -- With any fuel, the recursion at the subfeed does not end, and no other visits it.
      never_ends :
          (n : ℕ)
          → Keeps (recurse_hops is_bendy_butt b n)
            × ((d : ℕ) → Stuck (suc d) (recurse_hops is_bendy_butt b n))
      unfolding recurse_hops
      never_ends zero = (λ who d w w' u h. cc, λ d w u. refl)
      never_ends (suc n) =
          let (keeps, stuck) = never_ends n in
          let stuck' : (d : ℕ) → Stuck (suc d) (recurse_hops is_bendy_butt b (suc n)) = λ d w u.
            rw (u, recurse_hops)
              (expand-Stuck (recurse_hops is_bendy_butt b n) s (suc d) f w keeps (stuck d) follow it
                u) in
          (keeps_on n keeps stuck', stuck')
        where
          keeps_on :
              (n : ℕ)
              → Keeps (recurse_hops is_bendy_butt b n)
              → ((d : ℕ) → Stuck (suc d) (recurse_hops is_bendy_butt b (suc n)))
              → Keeps (recurse_hops is_bendy_butt b (suc n))
          keeps_on n keeps stuck' who zero w w' u h = subst Unvisited (some_injective h) u
          keeps_on n keeps stuck' who (suc d) w w' u h = elim (Bool-cases (eqb who s)) [
            | inl same ↦ absurd (
                none_ne w' (
                  sym (stuck' d w u)
                  ∙ subst (λ x. recurse_hops is_bendy_butt b (suc n) x (suc d) w ≡ some w')
                      ((eqb_iff who s).0 same) h))
            | inr other ↦ elim (Bool-cases (has_ref w.visited who)) [
              | inl before ↦ subst Unvisited (some_injective (rw (before, recurse_hops) at h)) u
              | inr new ↦
                  expand-Keeps (recurse_hops is_bendy_butt b n) who (suc d) w w' keeps other u
                    (rw (new, recurse_hops) at h)
            ]
          ]

-- A metafeed with a subfeed s that follows a feed f of the same metafeed: for every feed that follows
-- a feed of that metafeed, s itself among them, `Hops` returns with no amount of fuel, whatever the
-- distance.
pub hops_diverges :
    (is_bendy_butt : String → Bool) (b : Builder) (mf s f from g : String)
    → is_bendy_butt mf ≡ true
    → has_ref (subfeeds_of b mf) s ≡ true
    → has_ref (follows_of b s) f ≡ true
    → metafeed_of b f ≡ some mf
    → has_ref (follows_of b from) g ≡ true
    → metafeed_of b g ≡ some mf
    → (fuel max : ℕ) → hops is_bendy_butt b fuel from max ≡ none
unfolding hops recurse_hops
hops_diverges is_bendy_butt b mf s f from g bendy sub follow it follow' it' zero max = refl
hops_diverges is_bendy_butt b mf s f from g bendy sub follow it follow' it' (suc n) max =
    let start : Walk = record { walked = []; visited = [] } in
    let (keeps, stuck) = never_ends is_bendy_butt b s mf bendy sub f follow it n in
    let gone =
      expand-Stuck is_bendy_butt b s mf bendy sub (recurse_hops is_bendy_butt b n) from (suc max) g
        start keeps (stuck max) follow' it' (has-nil s) in
    rw (has-nil from, recurse_hops) (rw gone refl)
