-- ===== src/Fsck/Places.antt =====
-- Which places of the log belong to whom.

use metalife_pub.Prelude.{
  ℕ, suc, ◌+◌, ◌^◌, ◌<◌, ◌≤◌, List, [], ◌∷◌, some, true, false, ◌==◌, ◌≡◌, inl, inr, arith,
  Bool-cases, String, eqb, eqb_iff, eqb_refl, string_eq, nat_eq, list_eq, pair_eq, bool_eq, length,
  ==_iff,
}
use metalife_pub.GoMap.{GoMap}
use metalife_pub.GoMap.Laws.{lookup-nil}
use metalife_pub.Fsck.{
  Entry, message, nulled, foreign, WrongSequence, Scan, seqs_of, scan_from, no_scan,
}
use metalife_pub.Fsck.Counting.{is_reported}
use metalife_pub.Fsck.Healing.{has, is_by, holds, scan_from-Places, Within, any_has, or_right}

pub holds_bounds :
    (a : String) (i rx : ℕ) (log : List Entry)
    → holds a i rx log ≡ true
    → (rx ≤ i) × (i < rx + length log)
holds_bounds a i rx [] h = cc
holds_bounds a i rx (e ∷ log) h = elim (Bool-cases (rx == i)) [
  | inl first ↦ (ground arith, ground arith)
  | inr other ↦
      let rest = holds_bounds a i (suc rx) log (ground arith) in (omega arith, omega arith)
]

pub one_author : (a b : String) (e : Entry) → is_by a e ≡ true → is_by b e ≡ true → eqb a b ≡ true
one_author a b (message c q) h k = ground (arith, eqb_iff c a, eqb_iff c b, eqb_iff a b)
one_author a b nulled h k = cc
one_author a b foreign h k = cc

-- A place holds a message of one author.
pub holds_unique :
    (a b : String) (i rx : ℕ) (log : List Entry)
    → holds a i rx log ≡ true
    → holds b i rx log ≡ true
    → eqb a b ≡ true
holds_unique a b i rx [] h k = cc
holds_unique a b i rx (e ∷ log) h k = elim (Bool-cases (rx == i)) [
  | inl first ↦
      ground (
        arith,
        first,
        one_author a b e,
        holds_bounds a i (suc rx) log,
        holds_bounds b i (suc rx) log,
      )
  | inr other ↦ ground (arith, other, holds_unique a b i (suc rx) log)
]

pub Within-of_has : (n : ℕ) (is : List ℕ) → ((i : ℕ) → has i is ≡ true → i < n) → Within n is
Within-of_has n [] h = tt
Within-of_has n (j ∷ is) h = (
  h j (ground (arith, ==_iff j j)),
  Within-of_has n is (λ i hi. h i (or_right (j == i) (has i is) hi)),
)

-- The sublogs of the index list places where the author's messages are.
abbrev pub IsIndex : GoMap String (List ℕ) → List Entry → Type 0
IsIndex users log = (a : String) (i : ℕ) → has i (seqs_of a users) ≡ true → holds a i 0 log ≡ true

module _ (log : List Entry) (m : GoMap String (List ℕ))
    (places : (a : String) (i : ℕ) → has i (seqs_of a m) ≡ holds a i 0 log) where
  pub marked_has :
      (a : String) (i : ℕ) (es : List WrongSequence)
      → is_reported a es ≡ true
      → holds a i 0 log ≡ true
      → any_has i es m ≡ true
  marked_has a i [] h k = cc
  marked_has a i (e ∷ es) h k = ground (arith, places e.ref i, eqb_iff e.ref a, marked_has a i es)

  pub has_marked :
      (i : ℕ) (es : List WrongSequence)
      → any_has i es m ≡ true
      → (a : String) × (is_reported a es ≡ true) × (holds a i 0 log ≡ true)
  has_marked i [] h = cc
  has_marked i (e ∷ es) h = elim (Bool-cases (has i (seqs_of e.ref m))) [
    | inl own ↦ (e.ref, ground (arith, eqb_refl e.ref), ground (arith, places e.ref i))
    | inr other ↦
        let (a, r, k) = has_marked i es (ground (arith, other)) in
        (a, or_right (eqb e.ref a) (is_reported a es) r, k)
  ]

  pub unmarked :
      (a : String) (i : ℕ) (es : List WrongSequence)
      → is_reported a es ≡ false
      → holds a i 0 log ≡ true
      → any_has i es m ≡ false
  unmarked a i es h k = elim (Bool-cases (any_has i es m)) [
    | inr f ↦ f
    | inl t ↦
        let (b, r, k') = has_marked i es t in
        absurd (ground (arith, eqb_iff a b, holds_unique a b i 0 log))
  ]

-- What is in the bitmaps after the loop.
pub scan_places :
    (log : List Entry) (s : Scan)
    → length log < 2 ^ 32
    → scan_from 0 log no_scan ≡ some s
    → (a : String) (i : ℕ) → has i (seqs_of a s.all_seqs) ≡ holds a i 0 log
scan_places log s b h a i =
    ground (arith, scan_from-Places 0 log no_scan s (omega arith) h a i, lookup-nil {V = List ℕ} a)
