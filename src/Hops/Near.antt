-- ===== src/Hops/Near.antt =====
-- Which feeds are within the distance of one, and what a walk may add.

use metalife_pub.Prelude.{
  ℕ, suc, ◌<◌, some, Bool, true, ◌≡◌, ◌⊎◌, inl, inr, subst, ◌∙◌, arith, Bool-cases, String, eqb,
  eqb_iff, string_eq, nat_eq, list_eq, pair_eq, bool_eq,
}
use metalife_pub.FeedSet.{has_ref}
use metalife_pub.FeedSet.Laws.{has-add_ref}
use metalife_pub.Graph.{Builder}
use metalife_pub.Hops.{follows_of, subfeeds_of, metafeed_of, Walk, walk_to}

-- The feeds whose subfeeds are looked at from `who`: itself, those it follows, and their metafeeds.
pub data Owner (b : Builder) (who : String) : String → Type 0 where
  own : Owner b who who
  followed : {f : String} → has_ref (follows_of b who) f ≡ true → Owner b who f
  linked :
      (f : String) {g : String}
      → has_ref (follows_of b who) f ≡ true
      → metafeed_of b f ≡ some g
      → Owner b who g

-- The feeds within the distance of `who`, where a friend is one step away and a subfeed none.
pub data Near (is_bendy_butt : String → Bool) (b : Builder) : ℕ → String → String → Type 0 where
  direct :
      {d : ℕ} {who f : String}
      → has_ref (follows_of b who) f ≡ true
      → Near is_bendy_butt b (suc d) who f
  metafeed :
      {d : ℕ} (f : String) {who g : String}
      → has_ref (follows_of b who) f ≡ true
      → metafeed_of b f ≡ some g
      → Near is_bendy_butt b (suc d) who g
  subfeed :
      {d : ℕ} (g : String) {who s : String}
      → Owner b who g
      → is_bendy_butt g ≡ true
      → has_ref (subfeeds_of b g) s ≡ true
      → Near is_bendy_butt b (suc d) who s
  past_subfeed :
      {d : ℕ} (g s : String) {who x : String}
      → Owner b who g
      → is_bendy_butt g ≡ true
      → has_ref (subfeeds_of b g) s ≡ true
      → Near is_bendy_butt b (suc d) s x
      → Near is_bendy_butt b (suc d) who x
  past_friend :
      {d : ℕ} (f : String) {who x : String}
      → has_ref (follows_of b who) f ≡ true
      → has_ref (follows_of b f) who ≡ true
      → Near is_bendy_butt b d f x
      → Near is_bendy_butt b (suc d) who x

-- Every subfeed that is looked at from a feed has a lower rank than it.
abbrev pub IsRanked : (String → Bool) → Builder → (String → ℕ) → Type 0
IsRanked is_bendy_butt b rank =
    (who g s : String)
    → Owner b who g
    → is_bendy_butt g ≡ true
    → has_ref (subfeeds_of b g) s ≡ true
    → rank s < rank who

module _ (is_bendy_butt : String → Bool) (b : Builder) where
  abbrev pub Grows : ℕ → String → Walk → Walk → Type 0
  Grows d who w w' =
      ((x : String) → has_ref w.walked x ≡ true → has_ref w'.walked x ≡ true)
      × ((x : String)
          → has_ref w'.walked x ≡ true
          → (has_ref w.walked x ≡ true) ⊎ Near is_bendy_butt b d who x)

  pub Grows-refl : (d : ℕ) (who : String) (w : Walk) → Grows d who w w
  Grows-refl d who w = (λ x h. h, λ x h. inl h)

  pub Grows-trans :
      (d : ℕ) (who : String) (u v w : Walk) → Grows d who u v → Grows d who v w → Grows d who u w
  Grows-trans d who u v w h k =
      (λ x p. k.0 x (h.0 x p), λ x p. elim (k.1 x p) [ inl q ↦ h.1 x q | inr near ↦ inr near ])

  pub Grows-to :
      (d : ℕ) (who f : String) (w : Walk)
      → Near is_bendy_butt b d who f
      → Grows d who w (walk_to f w)
  Grows-to d who f w near = (
    λ x h. has-add_ref f x w.walked ∙ ground (arith, h),
    λ x h. elim (Bool-cases (eqb f x)) [
      | inl here ↦ inr (subst (Near is_bendy_butt b d who) ((eqb_iff f x).0 here) near)
      | inr other ↦ inl (ground (arith, other, has-add_ref f x w.walked))
    ],
  )

  pub Grows-past :
      (d e : ℕ) (who s : String) (w w' : Walk)
      → ((x : String) → Near is_bendy_butt b e s x → Near is_bendy_butt b d who x)
      → Grows e s w w'
      → Grows d who w w'
  Grows-past d e who s w w' near h =
      (h.0, λ x p. elim (h.1 x p) [ inl q ↦ inl q | inr n ↦ inr (near x n) ])
