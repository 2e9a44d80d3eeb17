-- ===== src/Fsck/Reports.antt =====
-- When the check finds nothing, and whom it reports.

use metalife_pub.Prelude.{
  ℕ, zero, suc, ◌^◌, ◌<◌, List, [], ◌∷◌, Option, some, Bool, true, false, ◌≡◌, ◌≢◌, ◌↔◌, ◌⊎◌, inl,
  inr, refl, sym, ap, subst, ◌∙◌, arith, Bool-cases, String, eqb_refl, string_eq, nat_eq, list_eq,
  pair_eq, bool_eq, length,
}
use metalife_pub.Prelude.Int.{ℤ, pos, ◌=ℤ◌}
use metalife_pub.GoMap.{lookup}
use metalife_pub.GoMap.Laws.{lookup-nil}
use metalife_pub.Fsck.{
  Entry, WrongSequence, Scan, clean, problems, unexpected_type, scan_from, null_map, no_scan,
  report_of, sequence_fsck,
}
use metalife_pub.Fsck.Counting.{
  sequences_of, CountsFrom, AllRead, is_reported, Count, upto, broken, Stands, count_all,
  scan_from-Stands,
}

count_all-broken : (qs : List ℤ) → count_all broken qs ≡ broken
count_all-broken [] = refl
count_all-broken (q ∷ qs) = count_all-broken qs

int_eq : (a b : ℤ) → (a =ℤ b) ≡ true → a ≡ b
int_eq a b h = ground arith

counted : (n : ℕ) (qs : List ℤ) → CountsFrom n qs → (k : ℕ) × (count_all (upto n) qs ≡ upto k)
counted n [] h = (n, refl)
counted n (q ∷ qs) h =
    let (k, rest) = counted (suc n) qs h.1 in (k, rw h.0 (rw (int_refl (pos (suc n))) rest))
  where
    int_refl : (a : ℤ) → (a =ℤ a) ≡ true
    int_refl a = ground arith

uncounted : (n : ℕ) (qs : List ℤ) → count_all (upto n) qs ≢ broken → CountsFrom n qs
uncounted n [] h = tt
uncounted n (q ∷ qs) h = elim (Bool-cases (q =ℤ pos (suc n))) [
  | inl right ↦ (int_eq q (pos (suc n)) right, uncounted (suc n) qs (λ e. h (rw right e)))
  | inr wrong ↦ absurd (h (rw wrong (count_all-broken qs)))
]

Count-cases : (c : Count) → ((n : ℕ) × (c ≡ upto n)) ⊎ (c ≡ broken)
Count-cases (upto n) = inl (n, refl)
Count-cases broken = inr refl

unreported : (o : Option ℤ) (r : Bool) (n : ℕ) → Stands o r (upto n) → r ≡ false
unreported o r zero h = h.1
unreported o r (suc n) h = h.1

reported_iff :
    (o : Option ℤ) (r : Bool) (qs : List ℤ)
    → Stands o r (count_all (upto 0) qs)
    → (r ≡ false) ↔ CountsFrom 0 qs
reported_iff o r qs h = elim (Count-cases (count_all (upto 0) qs)) [
  | inl (n, e) ↦ (λ _. uncounted 0 qs (λ b. cc), λ _. unreported o r n (subst (Stands o r) e h))
  | inr e ↦
      let it : Stands o r broken = subst (Stands o r) e h in
      (λ f. cc, λ c. let (k, e') = counted 0 qs c in absurd (upto_ne k (sym e' ∙ e)))
]
  where
    upto_ne : (k : ℕ) → upto k ≢ broken
    upto_ne k h = cc

some_injective {ℓ} : {A : Type ℓ} {x y : A} → some x ≡ some y → x ≡ y
some_injective h = cc

-- On a log whose entries are messages or overwritten ones the loop ends, and has reported exactly the
-- authors whose messages do not count up from 1.
pub scan_lem :
    (log : List Entry)
    → AllRead log
    → length log < 2 ^ 62
    → (s : Scan) × (scan_from 0 log no_scan ≡ some s)
      × ((a : String)
          → (is_reported a s.consistency_errors ≡ false) ↔ CountsFrom 0 (sequences_of a log))
scan_lem log all b =
    let result = λ (a : String).
      scan_from-Stands a 0 0 log no_scan (upto 0) all (omega arith) (omega arith)
        (lookup-nil a, refl) in
    let (s, done, _) = result "" in
    (
      s,
      done,
      λ a.
          let (s1, done1, stands) = result a in
          let same : s1 ≡ s = some_injective (sym done1 ∙ done) in
          reported_iff (lookup a s.last_sequence) (is_reported a s.consistency_errors)
            (sequences_of a log)
            (subst
              (λ x.
                Stands (lookup a x.last_sequence) (is_reported a x.consistency_errors)
                  (count_all (upto 0) (sequences_of a log)))
              same stands),
    )

pub errors-cases :
    (es : List WrongSequence)
    → (es ≡ []) ⊎ ((e : WrongSequence) × (rest : List WrongSequence) × (es ≡ e ∷ rest))
errors-cases [] = inl refl
errors-cases (e ∷ es) = inr (e, es, refl)

pub fsck_of_scan :
    (log : List Entry) (s : Scan)
    → scan_from 0 log no_scan ≡ some s
    → sequence_fsck log ≡ report_of s
unfolding sequence_fsck
fsck_of_scan log s h = rw (h, sequence_fsck)

pub report_clean : (s : Scan) → s.consistency_errors ≡ [] → report_of s ≡ clean
report_clean s h = ground (arith, h)

pub report_problems :
    (s : Scan) (e : WrongSequence) (es : List WrongSequence)
    → s.consistency_errors ≡ e ∷ es
    → report_of s ≡ problems (e ∷ es) (null_map (e ∷ es) s.all_seqs)
report_problems s e es h = ground (arith, h)

problems_injective :
    {es fs : List WrongSequence} {is js : List ℕ} → problems es is ≡ problems fs js → es ≡ fs
problems_injective h = cc

first_reported : (e : WrongSequence) (es : List WrongSequence) → is_reported e.ref (e ∷ es) ≡ true
first_reported e es = rw (eqb_refl e.ref)

-- On a log of fewer than 2 ^ 62 entries that are messages or overwritten ones, the check ends with no
-- other error. It finds nothing exactly if the messages of each author have the sequences 1, 2, 3, …
-- in the order of the log, and what it reports names exactly the authors for whom they have not.
pub sequence_fsck_lem :
    (log : List Entry)
    → AllRead log
    → length log < 2 ^ 62
    → ((sequence_fsck log ≡ clean) ↔ ((a : String) → CountsFrom 0 (sequences_of a log)))
      × (sequence_fsck log ≢ unexpected_type)
      × ((es : List WrongSequence) (seqs : List ℕ)
          → sequence_fsck log ≡ problems es seqs
          → (a : String) → (is_reported a es ≡ false) ↔ CountsFrom 0 (sequences_of a log))
sequence_fsck_lem log all b =
    let (s, done, counts) = scan_lem log all b in
    let result = fsck_of_scan log s done in
    elim (errors-cases s.consistency_errors) [
      | inl none_found ↦
          let it = result ∙ report_clean s none_found in
          (
            (λ _ a. (counts a).0 (rw none_found), λ _. it),
            λ h. cc (it, h),
            λ es seqs h a. absurd (clean_ne es seqs (sym it ∙ h)),
          )
      | inr (e, es, found) ↦
          let it = result ∙ report_problems s e es found in
          (
            (
              λ h. absurd (clean_ne (e ∷ es) (null_map (e ∷ es) s.all_seqs) (sym h ∙ it)),
              λ all_count. absurd (
                  true_ne (
                    sym (first_reported e es)
                    ∙ (ap (is_reported e.ref) (sym found) ∙ (counts e.ref).1 (all_count e.ref)))),
            ),
            λ h. cc (it, h),
            λ es' seqs h a. rw (← (found ∙ problems_injective (sym it ∙ h))) (counts a),
          )
    ]
  where
    clean_ne : (es : List WrongSequence) (seqs : List ℕ) → clean ≢ problems es seqs
    clean_ne es seqs h = cc

    true_ne : true ≢ false
    true_ne h = cc
