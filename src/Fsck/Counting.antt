-- ===== src/Fsck/Counting.antt =====
-- What the loop knows of each author, and the authors that it has reported.

use metalife_pub.Prelude.{
  ℕ, zero, suc, ◌+◌, ◌^◌, ◌<◌, ◌≤◌, List, [], ◌∷◌, ◌++◌, Option, none, some, Bool, true, false,
  ◌||◌, if◌then◌else◌, ◌≡◌, inl, inr, refl, sym, subst, arith, Bool-cases, Option-cases, String,
  eqb, eqb_iff, eqb_refl, string_eq, nat_eq, list_eq, pair_eq, bool_eq, length,
}
use metalife_pub.Prelude.Int.{ℤ, pos, negsuc, ◌+ℤ◌, ◌=ℤ◌}
use metalife_pub.Prelude.Int64.{to_int64}
use metalife_pub.GoMap.{lookup}
use metalife_pub.GoMap.Laws.{lookup-insert, lookup-insert_self}
use metalife_pub.Fsck.{
  Entry, message, nulled, foreign, WrongSequence, Scan, add_seq, check_message, scan_from,
}

-- The sequences of an author's messages, in the order of the log.
abbrev pub sequences_of : String → List Entry → List ℤ
sequences_of a [] = []
sequences_of a (message b q ∷ log) = if eqb b a then q ∷ sequences_of a log else sequences_of a log
sequences_of a (nulled ∷ log) = sequences_of a log
sequences_of a (foreign ∷ log) = sequences_of a log

-- n + 1, n + 2, n + 3, …
abbrev pub CountsFrom : ℕ → List ℤ → Type 0
CountsFrom n [] = Unit
CountsFrom n (q ∷ qs) = (q ≡ pos (suc n)) × CountsFrom (suc n) qs

abbrev pub AllRead : List Entry → Type 0
AllRead [] = Unit
AllRead (foreign ∷ log) = ⊥
AllRead (nulled ∷ log) = AllRead log
AllRead (message a q ∷ log) = AllRead log

abbrev pub is_reported : String → List WrongSequence → Bool
is_reported a [] = false
is_reported a (e ∷ es) = eqb e.ref a || is_reported a es

-- How far an author has counted, or that they have failed to.
pub data Count : Type 0 where
  upto : ℕ → Count
  broken : Count

-- What `last_sequence` says of an author.
abbrev pub Stands : Option ℤ → Bool → Count → Type 0
Stands o reported (upto zero) = (o ≡ none) × (reported ≡ false)
Stands o reported (upto (suc n)) = (o ≡ some (pos (suc n))) × (reported ≡ false)
Stands o reported broken = (o ≡ some (negsuc 0)) × (reported ≡ true)

abbrev pub Below : ℕ → Count → Type 0
Below n (upto k) = k ≤ n
Below n broken = Unit

abbrev pub next_count : Count → ℤ → Count
next_count broken q = broken
next_count (upto n) q = if q =ℤ pos (suc n) then upto (suc n) else broken

abbrev pub count_all : Count → List ℤ → Count
count_all c [] = c
count_all c (q ∷ qs) = count_all (next_count c q) qs

pub is_reported-append :
    (a : String) (es : List WrongSequence) (e : WrongSequence)
    → is_reported a (es ++ e ∷ []) ≡ (is_reported a es || eqb e.ref a)
is_reported-append a [] e = ground arith
is_reported-append a (f ∷ es) e = ground (arith, is_reported-append a es e)

-- A message of another author changes nothing for `a`.
check_message_other :
    (a b : String) (rx : ℕ) (q : ℤ) (s : Scan)
    → eqb b a ≡ false
    → (lookup a (check_message rx b q s).last_sequence ≡ lookup a s.last_sequence)
      × (is_reported a (check_message rx b q s).consistency_errors
          ≡ is_reported a s.consistency_errors)
unfolding check_message
check_message_other a b rx q s other = elim (Option-cases (lookup b s.last_sequence)) [
  | inl new ↦ (
    ground (
      arith,
      new,
      lookup-insert b a (negsuc 0) s.last_sequence,
      lookup-insert b a (pos 1) s.last_sequence,
    ),
    ground (
      arith,
      new,
      is_reported-append a s.consistency_errors (record { ref = b; stored = pos rx; logical = q }),
    ),
  )
  | inr (c, seen) ↦
      let next = to_int64 (c +ℤ pos 1) in
      (
        ground (
          arith,
          seen,
          lookup-insert b a (negsuc 0) s.last_sequence,
          lookup-insert b a next s.last_sequence,
        ),
        ground (
          arith,
          seen,
          is_reported-append a s.consistency_errors
              (record { ref = b; stored = next; logical = q }),
        ),
      )
]

wraps : (n : ℕ) → n < 2 ^ 62 → to_int64 (pos (suc n) +ℤ pos 1) ≡ pos (suc (suc n))
unfolding ◌+ℤ◌
wraps n h = ground arith

check_message_own :
    (a : String) (rx : ℕ) (q : ℤ) (s : Scan) (n : ℕ)
    → n < 2 ^ 62
    → Stands (lookup a s.last_sequence) (is_reported a s.consistency_errors) (upto n)
    → Stands
        (lookup a (check_message rx a q s).last_sequence)
        (is_reported a (check_message rx a q s).consistency_errors)
        (next_count (upto n) q)
unfolding check_message
check_message_own a rx q s zero b h = ground (
  arith,
  lookup-insert_self a (negsuc 0) s.last_sequence,
  lookup-insert_self a (pos 1) s.last_sequence,
  eqb_refl a,
  is_reported-append a s.consistency_errors (record { ref = a; stored = pos rx; logical = q }),
)
check_message_own a rx q s (suc n) b h =
    let next = pos (suc (suc n)) in
    ground (
      arith,
      wraps n (omega arith),
      lookup-insert_self a (negsuc 0) s.last_sequence,
      lookup-insert_self a next s.last_sequence,
      eqb_refl a,
      is_reported-append a s.consistency_errors (record { ref = a; stored = next; logical = q }),
    )

check_message_broken :
    (a : String) (rx : ℕ) (q : ℤ) (s : Scan)
    → Stands (lookup a s.last_sequence) (is_reported a s.consistency_errors) broken
    → check_message rx a q s ≡ s
unfolding check_message
check_message_broken a rx q s h = ground arith

check_message-Stands :
    (a b : String) (rx : ℕ) (q : ℤ) (s : Scan) (c : Count)
    → (n : ℕ) → Below n c
    → n < 2 ^ 62
    → Stands (lookup a s.last_sequence) (is_reported a s.consistency_errors) c
    → Stands
        (lookup a (check_message rx b q s).last_sequence)
        (is_reported a (check_message rx b q s).consistency_errors)
        (if eqb b a then next_count c q else c)
check_message-Stands a b rx q s c n low bound h = elim (Bool-cases (eqb b a)) [
  | inr other ↦ let (l, r) = check_message_other a b rx q s other in rw (other, l, r) h
  | inl same ↦ rw same (
      subst
        (λ x.
          Stands (lookup a (check_message rx x q s).last_sequence)
            (is_reported a (check_message rx x q s).consistency_errors) (next_count c q))
        (sym ((eqb_iff b a).0 same)) (own c low h))
]
  where
    own :
        (c : Count)
        → Below n c
        → Stands (lookup a s.last_sequence) (is_reported a s.consistency_errors) c
        → Stands
            (lookup a (check_message rx a q s).last_sequence)
            (is_reported a (check_message rx a q s).consistency_errors)
            (next_count c q)
    own (upto k) low h = check_message_own a rx q s k (omega arith) h
    own broken low h = rw (check_message_broken a rx q s h) h

Below-next_count : (n : ℕ) (c : Count) (q : ℤ) → Below n c → Below (suc n) (next_count c q)
Below-next_count n (upto k) q h = ground arith
Below-next_count n broken q h = tt

Below-suc : (n : ℕ) (c : Count) → Below n c → Below (suc n) c
Below-suc n (upto k) h = omega arith
Below-suc n broken h = tt

-- The loop counts the messages of each author.
pub scan_from-Stands :
    (a : String) (rx n : ℕ) (log : List Entry) (s : Scan) (c : Count)
    → AllRead log
    → Below n c
    → n + length log < 2 ^ 62
    → Stands (lookup a s.last_sequence) (is_reported a s.consistency_errors) c
    → (s' : Scan) × (scan_from rx log s ≡ some s')
      × Stands
          (lookup a s'.last_sequence)
          (is_reported a s'.consistency_errors)
          (count_all c (sequences_of a log))
unfolding scan_from
scan_from-Stands a rx n [] s c all low b h = (s, refl, h)
scan_from-Stands a rx n (nulled ∷ log) s c all low b h =
    scan_from-Stands a (suc rx) n log s c all low (omega arith) h
scan_from-Stands a rx n (message d q ∷ log) s c all low b h =
    let noted : Scan = record s { all_seqs = add_seq d rx s.all_seqs } in
    let one = check_message-Stands a d rx q noted c n low (omega arith) h in
    elim (Bool-cases (eqb d a)) [
      | inl same ↦ rw same (
          scan_from-Stands a (suc rx) (suc n) log (check_message rx d q noted) (next_count c q) all
            (Below-next_count n c q low) (omega arith) (rw same at one))
      | inr other ↦ rw other (
          scan_from-Stands a (suc rx) n log (check_message rx d q noted) c all low (omega arith)
            (rw other at one))
    ]
scan_from-Stands a rx n (foreign ∷ log) s c all low b h = absurd all
