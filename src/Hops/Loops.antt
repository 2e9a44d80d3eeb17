-- ===== src/Hops/Loops.antt =====
-- Laws of a chain and of a loop that may run out of fuel.

use metalife_pub.Prelude.{
  List, [], ◌∷◌, Option, none, some, true, ◌≡◌, ◌≢◌, inl, inr, refl, sym, ap, subst, ◌∙◌, arith,
  Bool-cases, String, eqb, eqb_iff, eqb_refl, string_eq, nat_eq, list_eq, pair_eq, bool_eq,
}
use metalife_pub.FeedSet.Laws.{listed}
use metalife_pub.Hops.{◌>>=◌, Walk, each}

pub bind_some {ℓ κ} :
    {A : Type ℓ} {B : Type κ} (o : Option A) (k : A → Option B) (y : B)
    → (o >>= k) ≡ some y
    → (x : A) × (o ≡ some x) × (k x ≡ some y)
bind_some none k y h = cc
bind_some (some x) k y h = (x, refl, h)

pub bind_none {ℓ κ} :
    {A : Type ℓ} {B : Type κ} (o : Option A) (k : A → Option B)
    → ((x : A) → o ≡ some x → k x ≡ none)
    → (o >>= k) ≡ none
bind_none none k h = refl
bind_none (some x) k h = h x refl

later_listed : (g f : String) (fs : List String) → listed fs f ≡ true → listed (g ∷ fs) f ≡ true
later_listed g f fs h = ground (arith, h)

first_listed : (f : String) (fs : List String) → listed (f ∷ fs) f ≡ true
first_listed f fs = ground (arith, eqb_refl f)

pub some_injective {ℓ} : {A : Type ℓ} {x y : A} → some x ≡ some y → x ≡ y
some_injective h = cc

pub none_ne {ℓ} : {A : Type ℓ} (x : A) → none ≢ some x
none_ne x h = cc

-- What each turn of the loop keeps.
pub each_keeps {ℓ} :
    (P : Walk → Type ℓ) (body : String → Walk → Option Walk) (fs : List String) (w w' : Walk)
    → ((f : String) (v v' : Walk) → listed fs f ≡ true → P v → body f v ≡ some v' → P v')
    → P w
    → each body fs w ≡ some w'
    → P w'
unfolding each
each_keeps P body [] w w' keeps p h = subst P (some_injective h) p
each_keeps P body (f ∷ fs) w w' keeps p h =
    let (v, first, rest) = bind_some (body f w) (each body fs) w' h in
    each_keeps P body fs v w' (λ g x x' l. keeps g x x' (later_listed f g fs l))
      (keeps f w v (first_listed f fs) p first) rest

-- A loop with a turn that never ends does not end.
pub each_stuck {ℓ} :
    (P : Walk → Type ℓ) (body : String → Walk → Option Walk) (f : String) (fs : List String)
    (w : Walk)
    → ((g : String) (v v' : Walk) → P v → body g v ≡ some v' → P v')
    → ((v : Walk) → P v → body f v ≡ none)
    → listed fs f ≡ true
    → P w
    → each body fs w ≡ none
unfolding each
each_stuck P body f [] w keeps stuck l p = cc
each_stuck P body f (g ∷ fs) w keeps stuck l p = bind_none (body g w) (each body fs) (λ v first.
    elim (Bool-cases (eqb g f)) [
      | inl here ↦ absurd (
          none_ne v
            (sym (subst (λ x. body x w ≡ none) (sym ((eqb_iff g f).0 here)) (stuck w p)) ∙ first))
      | inr there ↦
          each_stuck P body f fs v keeps stuck (ground (arith, there)) (keeps g w v p first)
    ])

-- A loop whose turns all end does, and each turn's result stands at the end.
pub each_ends {ℓ κ} :
    (R : Walk → Walk → Type ℓ) (Q : String → Walk → Type κ)
    → ((w : Walk) → R w w)
    → ((u v w : Walk) → R u v → R v w → R u w)
    → ((f : String) (v w : Walk) → Q f v → R v w → Q f w)
    → (body : String → Walk → Option Walk) (fs : List String) (w : Walk)
    → ((f : String) (v : Walk)
        → listed fs f ≡ true
        → (v' : Walk) × (body f v ≡ some v') × (R v v') × Q f v')
    → (w' : Walk) × (each body fs w ≡ some w')
      × (R w w')
      × ((f : String) → listed fs f ≡ true → Q f w')
unfolding each
each_ends R Q rrefl rtrans keep body [] w ends = (w, refl, rrefl w, λ f l. cc)
each_ends R Q rrefl rtrans keep body (f ∷ fs) w ends =
    let (v, first, r, q) = ends f w (first_listed f fs) in
    let (w', rest, r', qs) =
      each_ends R Q rrefl rtrans keep body fs v (λ g x l. ends g x (later_listed f g fs l)) in
    (
      w',
      ap (λ o. o >>= each body fs) first ∙ rest,
      rtrans w v w' r r',
      λ g l. elim (Bool-cases (eqb f g)) [
        | inl here ↦ subst (λ x. Q x w') ((eqb_iff f g).0 here) (keep f v w' q r')
        | inr there ↦ qs g (ground (arith, there))
      ],
    )
