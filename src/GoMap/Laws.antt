-- ===== src/GoMap/Laws.antt =====
-- What a lookup finds after each operation on a map, and maps in which each key stands once.
use metalife_pub.Prelude.{
  Eq, eqb, eqb_refl, eqb_comm, eqb_ne, subst, ◌∙◌, sym, ap, true, false, Bool-cases, [], ◌∷◌, none,
  some, if◌then◌else◌, ◌≡◌, refl, inl, inr, arith, Memᴰ, or_else,
}
use mathlib.Core.List.Memᴰ
use mathlib.Core.Option
use metalife_pub.GoMap.{GoMap, lookup, insert, delete}

pair_eq {ℓ κ} :
    {A : Type ℓ} {B : Type κ} {a a' : A} {b b' : B}
    → a ≡ a'
    → b ≡ b'
    → ◌≡◌ {A = A × B} (a, b) (a', b')
pair_eq p q = λ i. (p i, q i)

module _ {ℓ κ} {K : Type ℓ} {V : Type κ} ⦃e : Eq K⦄ where
  pub lookup-insert :
      (k j : K) (v : V) (m : GoMap K V)
      → lookup j (insert k v m) ≡ (if eqb k j then some v else lookup j m)
  unfolding lookup insert
  lookup-insert k j v [] = refl
  lookup-insert k j v ((i, w) ∷ m) =
      ground (arith, e.beq_iff k j, e.beq_iff i k, e.beq_iff i j, lookup-insert k j v m)

  pub lookup-delete :
      (k j : K) (m : GoMap K V) → lookup j (delete k m) ≡ (if eqb k j then none else lookup j m)
  unfolding lookup delete
  lookup-delete k j [] = ground arith
  lookup-delete k j ((i, w) ∷ m) =
      ground (arith, e.beq_iff k j, e.beq_iff i k, e.beq_iff i j, lookup-delete k j m)

  pub lookup-insert_self : (k : K) (v : V) (m : GoMap K V) → lookup k (insert k v m) ≡ some v
  lookup-insert_self k v m = ground (arith, lookup-insert k k v m, eqb_refl k)

  -- Each key stands once, as in every map that Go code can build.
  abbrev pub Distinct : GoMap K V → Type (ℓ ⊔ κ)
  Distinct [] = Unit
  Distinct ((k, v) ∷ m) = (lookup k m ≡ none) × Distinct m

  pub insert-Distinct : (k : K) (v : V) (m : GoMap K V) → Distinct m → Distinct (insert k v m)
  unfolding lookup insert
  insert-Distinct k v [] h = (refl, tt)
  insert-Distinct k v ((j, w) ∷ m) h = elim (Bool-cases (eqb j k)) [
    | inl same ↦ rw same (subst (λ x. lookup x m ≡ none) ((e.beq_iff j k).0 same) h.0, h.1)
    | inr other ↦
        rw other (lookup-insert k j v m ∙ rw (eqb_comm k j ∙ other) h.0, insert-Distinct k v m h.1)
  ]

  pub delete-Distinct : (k : K) (m : GoMap K V) → Distinct m → Distinct (delete k m)
  unfolding lookup delete
  delete-Distinct k [] h = tt
  delete-Distinct k ((j, w) ∷ m) h =
      ground (arith, e.beq_iff j k, lookup-delete k j m, delete-Distinct k m)

  pub mem_of_lookup : (k : K) (v : V) (m : GoMap K V) → lookup k m ≡ some v → Memᴰ (k, v) m
  unfolding lookup
  mem_of_lookup k v [] h = cc
  mem_of_lookup k v ((j, w) ∷ m) h = elim (Bool-cases (eqb j k)) [
    | inl same ↦
        let found : some w ≡ some v = rw (same, lookup) at h in
        Memᴰ.head (pair_eq (sym ((e.beq_iff j k).0 same)) (cc))
    | inr other ↦ Memᴰ.tail (mem_of_lookup k v m (rw (other, lookup) at h))
  ]

  pub lookup_of_mem :
      (k : K) (v : V) (m : GoMap K V) → Distinct m → Memᴰ (k, v) m → lookup k m ≡ some v
  unfolding lookup
  lookup_of_mem k v [] h p = absurd (Memᴰ.not-nil p)
  lookup_of_mem k v ((j, w) ∷ m) h p = elim (Memᴰ.cases_cons p) [
    | inl same ↦
        let at_head : eqb j k ≡ true = (e.beq_iff j k).1 (sym (ap (λ q. q.0) same)) in
        rw at_head (ap (λ q. some q.1) (sym same))
    | inr later ↦ let rest = lookup_of_mem k v m h.1 later in rw (eqb_ne j k (λ same. cc)) rest
  ]

  abbrev pub AllValues {μ} : (V → Type μ) → GoMap K V → Type μ
  AllValues P [] = Unit
  AllValues P ((k, v) ∷ m) = P v × AllValues P m

  pub insert-AllValues {μ} :
      (P : V → Type μ) (k : K) (v : V) (m : GoMap K V)
      → P v
      → AllValues P m
      → AllValues P (insert k v m)
  unfolding insert
  insert-AllValues P k v [] p h = (p, tt)
  insert-AllValues P k v ((j, w) ∷ m) p h = elim (Bool-cases (eqb j k)) [
    | inl same ↦ rw same (p, h.1)
    | inr other ↦ rw other (h.0, insert-AllValues P k v m p h.1)
  ]

  pub delete-AllValues {μ} :
      (P : V → Type μ) (k : K) (m : GoMap K V) → AllValues P m → AllValues P (delete k m)
  unfolding delete
  delete-AllValues P k [] h = tt
  delete-AllValues P k ((j, w) ∷ m) h = elim (Bool-cases (eqb j k)) [
    | inl same ↦ rw same (delete-AllValues P k m h.1)
    | inr other ↦ rw other (h.0, delete-AllValues P k m h.1)
  ]

-- One round of a loop that writes the entries of one map into another.
module _ {ℓ κ μ} {K : Type ℓ} {V : Type κ} {W : Type μ} ⦃e : Eq K⦄ where
  pub overwrite_step :
      (g : V → W) (k f : K) (s : V) (from : GoMap K V) (m : GoMap K W)
      → lookup f from ≡ none
      → or_else (Option.map g (lookup k from)) (lookup k (insert f (g s) m))
        ≡ or_else (Option.map g (lookup k ((f, s) ∷ from))) (lookup k m)
  unfolding lookup
  overwrite_step g k f s from m h = elim (Bool-cases (eqb f k)) [
    | inl same ↦
        let gone : lookup k from ≡ none =
          subst (λ x. lookup x from ≡ none) ((e.beq_iff f k).0 same) h in
        rw same (rw gone (lookup-insert f k (g s) m ∙ rw same))
    | inr other ↦
        rw other
          (ap (or_else (Option.map g (lookup k from))) (lookup-insert f k (g s) m ∙ rw other))
  ]

module _ {ℓ κ} {K : Type ℓ} {V : Type κ} ⦃e : Eq K⦄ where
  pub overwrite_step_same :
      (k f : K) (s : V) (from m : GoMap K V)
      → lookup f from ≡ none
      → or_else (lookup k from) (lookup k (insert f s m))
        ≡ or_else (lookup k ((f, s) ∷ from)) (lookup k m)
  unfolding lookup
  overwrite_step_same k f s from m h = elim (Bool-cases (eqb f k)) [
    | inl same ↦
        let gone : lookup k from ≡ none =
          subst (λ x. lookup x from ≡ none) ((e.beq_iff f k).0 same) h in
        rw same (rw gone (lookup-insert f k s m ∙ rw same))
    | inr other ↦ rw other (ap (or_else (lookup k from)) (lookup-insert f k s m ∙ rw other))
  ]

  pub lookup-cons_ne :
      (k f : K) (s : V) (m : GoMap K V) → eqb f k ≡ false → lookup k ((f, s) ∷ m) ≡ lookup k m
  unfolding lookup
  lookup-cons_ne k f s m h = rw h

  pub lookup-nil : (k : K) → lookup {V = V} k [] ≡ none
  unfolding lookup
  lookup-nil k = refl

  pub lookup-cons :
      (k f : K) (s : V) (m : GoMap K V)
      → lookup k ((f, s) ∷ m) ≡ (if eqb f k then some s else lookup k m)
  unfolding lookup
  lookup-cons k f s m = refl
