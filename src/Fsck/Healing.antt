-- ===== src/Fsck/Healing.antt =====
-- What the repair leaves in the receive log.

use metalife_pub.Prelude.{
  ℕ, zero, suc, ◌+◌, ◌%◌, ◌^◌, ◌<◌, List, [], ◌∷◌, ◌++◌, some, Bool, true, false, ◌==◌, ◌&&◌, ◌||◌,
  if◌then◌else◌, ◌≡◌, inl, inr, refl, sym, ap, ◌∙◌, arith, Bool-cases, Option-cases, String, eqb,
  eqb_iff, string_eq, nat_eq, list_eq, pair_eq, bool_eq, length, All,
}
use metalife_pub.Prelude.Int.{ℤ}
use metalife_pub.GoMap.{GoMap, lookup, insert}
use metalife_pub.GoMap.Laws.{lookup-insert}
use metalife_pub.Fsck.{
  Entry, message, nulled, foreign, WrongSequence, Scan, seqs_of, add_seq, check_message, scan_from,
  null_map, null_at, fine, null_all,
}
use metalife_pub.Fsck.Counting.{sequences_of, AllRead}

abbrev pub has : ℕ → List ℕ → Bool
has i [] = false
has i (j ∷ js) = j == i || has i js

abbrev pub is_by : String → Entry → Bool
is_by a (message b q) = eqb b a
is_by a nulled = false
is_by a foreign = false

-- Whether the place `i` of a log that begins at the place `rx` holds a message of `a`.
abbrev pub holds : String → ℕ → ℕ → List Entry → Bool
holds a i rx [] = false
holds a i rx (e ∷ log) = (rx == i) && is_by a e || holds a i (suc rx) log

-- The log with the places overwritten that `p` says.
abbrev pub masked : (ℕ → Bool) → ℕ → List Entry → List Entry
masked p rx [] = []
masked p rx (e ∷ log) = (if p rx then nulled else e) ∷ masked p (suc rx) log

seqs_of-insert :
    (a b : String) (l : List ℕ) (m : GoMap String (List ℕ))
    → seqs_of a (insert b l m) ≡ (if eqb b a then l else seqs_of a m)
seqs_of-insert a b l m = ground (arith, lookup-insert b a l m)

seqs-check_message :
    (rx : ℕ) (b : String) (q : ℤ) (s : Scan) → (check_message rx b q s).all_seqs ≡ s.all_seqs
unfolding check_message
seqs-check_message rx b q s = elim (Option-cases (lookup b s.last_sequence)) [
  | inl new ↦ ground (arith, new)
  | inr (c, seen) ↦ ground (arith, seen)
]

abbrev pub Places : ℕ → List Entry → Scan → Scan → Type 0
Places rx log s s' =
    (a : String) (i : ℕ)
    → has i (seqs_of a s'.all_seqs) ≡ (has i (seqs_of a s.all_seqs) || holds a i rx log)

-- The bitmaps hold the places of the messages of each author.
pub scan_from-Places :
    (rx : ℕ) (log : List Entry) (s s' : Scan)
    → rx + length log < 2 ^ 32
    → scan_from rx log s ≡ some s'
    → Places rx log s s'
unfolding scan_from
scan_from-Places rx [] s s' b h a i = ground arith
scan_from-Places rx (nulled ∷ log) s s' b h a i =
    ground (arith, scan_from-Places (suc rx) log s s' (omega arith) h a i)
scan_from-Places rx (foreign ∷ log) s s' b h a i = cc
scan_from-Places rx (message d q ∷ log) s s' b h a i =
    let noted : Scan = record s { all_seqs = add_seq d rx s.all_seqs } in
    ground (
      arith,
      scan_from-Places (suc rx) log (check_message rx d q noted) s' (omega arith) h a i,
      seqs-check_message rx d q noted,
      seqs_of-insert a d (rx % 2 ^ 32 ∷ seqs_of d s.all_seqs) s.all_seqs,
      eqb_iff d a,
    )

pub length-masked :
    (p : ℕ → Bool) (rx : ℕ) (log : List Entry) → length (masked p rx log) ≡ length log
length-masked p rx [] = refl
length-masked p rx (e ∷ log) = omega (arith, length-masked p (suc rx) log)

masked-none : (i rx : ℕ) (log : List Entry) → i < rx → masked (λ j. i == j) rx log ≡ log
masked-none i rx [] h = refl
masked-none i rx (e ∷ log) h = ground (arith, masked-none i (suc rx) log)

null_at_lem :
    (i k rx : ℕ) (log : List Entry)
    → k ≡ rx + i
    → i < length log
    → null_at i log ≡ some (masked (λ j. k == j) rx log)
unfolding null_at
null_at_lem i k rx [] e h = absurd (omega arith)
null_at_lem zero k rx (x ∷ log) e h = ground (arith, masked-none k (suc rx) log)
null_at_lem (suc i) k rx (x ∷ log) e h =
    ground (arith, null_at_lem i k (suc rx) log (omega arith) (omega arith))

pub masked-masked :
    (p q : ℕ → Bool) (rx : ℕ) (log : List Entry)
    → masked p rx (masked q rx log) ≡ masked (λ j. q j || p j) rx log
masked-masked p q rx [] = refl
masked-masked p q rx (e ∷ log) = ground (arith, masked-masked p q (suc rx) log)

masked_nothing : (rx : ℕ) (log : List Entry) → masked (λ j. false) rx log ≡ log
masked_nothing rx [] = refl
masked_nothing rx (e ∷ log) = ap (λ l. e ∷ l) (masked_nothing (suc rx) log)

abbrev pub Within : ℕ → List ℕ → Type 0
Within n = All (λ i. i < n)

-- Overwriting places of the log, in any order and however often.
pub null_all_lem :
    (is : List ℕ) (log : List Entry)
    → Within (length log) is
    → null_all is log ≡ (fine, masked (λ j. has j is) 0 log)
unfolding null_all
null_all_lem [] log h = ap (λ l. (fine, l)) (sym (masked_nothing 0 log))
null_all_lem (i ∷ is) log h =
    let one : List Entry = masked (λ j. i == j) 0 log in
    let rest = null_all_lem is one (rw (length-masked (λ j. i == j) 0 log) h.1) in
    rw (null_at_lem i i 0 log (omega arith) h.0, null_all)
      (rest ∙ ap (λ l. (fine, l)) (masked-masked (λ j. has j is) (λ j. i == j) 0 log))

pub or_right : (a b : Bool) → b ≡ true → (a || b) ≡ true
or_right a b h = ground arith

same_place : (rx : ℕ) → (rx == rx) ≡ true
same_place rx = ground arith

here :
    (a : String) (rx : ℕ) (e : Entry) (log : List Entry)
    → is_by a e ≡ true
    → holds a rx rx (e ∷ log) ≡ true
here a rx e log h = ground (arith, same_place rx)

pub sequences_of-masked :
    (a : String) (p : ℕ → Bool) (rx : ℕ) (log : List Entry)
    → ((i : ℕ) → holds a i rx log ≡ true → p i ≡ false)
    → sequences_of a (masked p rx log) ≡ sequences_of a log
sequences_of-masked a p rx [] h = refl
sequences_of-masked a p rx (message b q ∷ log) h =
    let rest =
      sequences_of-masked a p (suc rx) log
        (λ i hi. h i (or_right ((rx == i) && eqb b a) (holds a i (suc rx) log) hi)) in
    elim (Bool-cases (eqb b a)) [
      | inl own ↦ rw (h rx (here a rx (message b q) log own)) (rw own (ap (λ l. q ∷ l) rest))
      | inr other ↦ elim (Bool-cases (p rx)) [
        | inl gone ↦ rw gone (rw other rest)
        | inr kept ↦ rw kept (rw other rest)
      ]
    ]
sequences_of-masked a p rx (nulled ∷ log) h =
    let rest =
      sequences_of-masked a p (suc rx) log
        (λ i hi. h i (or_right ((rx == i) && false) (holds a i (suc rx) log) hi)) in
    ground (arith, rest)
sequences_of-masked a p rx (foreign ∷ log) h =
    let rest =
      sequences_of-masked a p (suc rx) log
        (λ i hi. h i (or_right ((rx == i) && false) (holds a i (suc rx) log) hi)) in
    ground (arith, rest)

pub sequences_of-masked_all :
    (a : String) (p : ℕ → Bool) (rx : ℕ) (log : List Entry)
    → ((i : ℕ) → holds a i rx log ≡ true → p i ≡ true)
    → sequences_of a (masked p rx log) ≡ []
sequences_of-masked_all a p rx [] h = refl
sequences_of-masked_all a p rx (message b q ∷ log) h =
    let rest =
      sequences_of-masked_all a p (suc rx) log
        (λ i hi. h i (or_right ((rx == i) && eqb b a) (holds a i (suc rx) log) hi)) in
    elim (Bool-cases (eqb b a)) [
      | inl own ↦ rw (h rx (here a rx (message b q) log own)) rest
      | inr other ↦ elim (Bool-cases (p rx)) [
        | inl gone ↦ rw gone rest
        | inr kept ↦ rw kept (rw other rest)
      ]
    ]
sequences_of-masked_all a p rx (nulled ∷ log) h =
    let rest =
      sequences_of-masked_all a p (suc rx) log
        (λ i hi. h i (or_right ((rx == i) && false) (holds a i (suc rx) log) hi)) in
    ground (arith, rest)
sequences_of-masked_all a p rx (foreign ∷ log) h =
    let rest =
      sequences_of-masked_all a p (suc rx) log
        (λ i hi. h i (or_right ((rx == i) && false) (holds a i (suc rx) log) hi)) in
    ground (arith, rest)

pub masked-AllRead :
    (p : ℕ → Bool) (rx : ℕ) (log : List Entry) → AllRead log → AllRead (masked p rx log)
masked-AllRead p rx [] h = tt
masked-AllRead p rx (message b q ∷ log) h = elim (Bool-cases (p rx)) [
  | inl gone ↦ rw gone (masked-AllRead p (suc rx) log h)
  | inr kept ↦ rw kept (masked-AllRead p (suc rx) log h)
]
masked-AllRead p rx (nulled ∷ log) h = elim (Bool-cases (p rx)) [
  | inl gone ↦ rw gone (masked-AllRead p (suc rx) log h)
  | inr kept ↦ rw kept (masked-AllRead p (suc rx) log h)
]
masked-AllRead p rx (foreign ∷ log) h = absurd h

abbrev pub any_has : ℕ → List WrongSequence → GoMap String (List ℕ) → Bool
any_has i [] m = false
any_has i (e ∷ es) m = has i (seqs_of e.ref m) || any_has i es m

has-append : (i : ℕ) (xs ys : List ℕ) → has i (xs ++ ys) ≡ (has i xs || has i ys)
has-append i [] ys = refl
has-append i (x ∷ xs) ys = ground (arith, has-append i xs ys)

-- A place in the bitmaps of the reported authors holds a message of one of them.
pub has-null_map :
    (i : ℕ) (es : List WrongSequence) (m : GoMap String (List ℕ))
    → has i (null_map es m) ≡ any_has i es m
unfolding null_map
has-null_map i [] m = refl
has-null_map i (e ∷ es) m =
    has-append i (seqs_of e.ref m) (null_map es m) ∙ rw (has-null_map i es m)
