-- ===== src/Fsck/Length/Agreement.antt =====
-- The quick check agrees with the check of all sequences.

use metalife_pub.Prelude.{
  ℕ, zero, suc, ◌+◌, ◌^◌, ◌<◌, ◌≤◌, List, [], ◌∷◌, Option, none, some, ◌==◌, if◌then◌else◌, ◌≡◌,
  ◌≢◌, inl, inr, refl, sym, ap, subst, ◌∙◌, arith, Bool-cases, Option-cases, String, eqb, string_eq,
  nat_eq, list_eq, pair_eq, bool_eq, or_else, length, All, get_elem?, ==_iff,
}
use metalife_pub.Prelude.Int.{ℤ, pos, ◌+ℤ◌}
use metalife_pub.GoMap.{GoMap}
use metalife_pub.Fsck.{Report, Entry, message, nulled, foreign, clean}
use metalife_pub.Fsck.Counting.{sequences_of, CountsFrom, AllRead}
use metalife_pub.Fsck.Reports.{sequence_fsck_lem}
use metalife_pub.Fsck.Length.{
  length_clean, last_of, check_last, check_author, length_fsck, no_mode, sequences_mode, by_length,
  by_sequences, fsck,
}

-- The places of an author's messages, in a log that begins at the place `rx`.
abbrev pub places_of : String → ℕ → List Entry → List ℕ
places_of a rx [] = []
places_of a rx (message b q ∷ log) =
    if eqb b a then rx ∷ places_of a (suc rx) log else places_of a (suc rx) log
places_of a rx (nulled ∷ log) = places_of a (suc rx) log
places_of a rx (foreign ∷ log) = places_of a (suc rx) log

-- What is at a place of a log that begins at the place `rx`.
abbrev at : ℕ → ℕ → List Entry → Option Entry
at rx p [] = none
at rx p (e ∷ log) = if rx == p then some e else at (suc rx) p log

at_elem : (rx i : ℕ) (log : List Entry) → at rx (rx + i) log ≡ get_elem? log i
at_elem rx i [] = refl
at_elem rx zero (e ∷ log) = ground arith
at_elem rx (suc i) (e ∷ log) = ground (arith, at_elem (suc rx) i log)

at_before : (rx p : ℕ) (log : List Entry) (e : Entry) → at rx p log ≡ some e → rx ≤ p
at_before rx p [] e h = cc
at_before rx p (e ∷ log) x h = ground (arith, at_before (suc rx) p log x, ==_iff rx p)

later :
    (rx p : ℕ) (e x : Entry) (log : List Entry)
    → at (suc rx) p log ≡ some x
    → at rx p (e ∷ log) ≡ some x
later rx p e x log h = ground (arith, h, at_before (suc rx) p log x h, ==_iff rx p)

at_first : (rx : ℕ) (e : Entry) (log : List Entry) → at rx rx (e ∷ log) ≡ some e
at_first rx e log = ground (arith, ==_iff rx rx)

last_none : (ps : List ℕ) → last_of ps ≡ none → length ps ≡ 0
unfolding last_of
last_none [] h = refl
last_none (p ∷ ps) h = elim (Option-cases (last_of ps)) [
  | inl no_more ↦ absurd (some_ne p (sym (rw no_more refl) ∙ h))
  | inr (q, more) ↦ absurd (some_ne q (sym (rw more refl) ∙ h))
]
  where
    some_ne : (x : ℕ) → some x ≢ none
    some_ne x e = cc

last_nil : last_of [] ≡ none
unfolding last_of
last_nil = refl

first_last :
    (n rx p : ℕ) (b : String) (q : ℤ) (log : List Entry) (ps : List ℕ)
    → rx ≡ p
    → q ≡ pos (suc n)
    → length ps ≡ 0
    → at rx p (message b q ∷ log) ≡ some (message b (pos (n + suc (length ps))))
first_last n rx p b q log ps e f g = ground (arith, e, f, g, at_first rx (message b q) log)

some_injective {ℓ} : {B : Type ℓ} {x y : B} → some x ≡ some y → x ≡ y
some_injective h = cc

last_cons : (p : ℕ) (ps : List ℕ) → last_of (p ∷ ps) ≡ or_else (last_of ps) (some p)
unfolding last_of
last_cons p ps = elim (Option-cases (last_of ps)) [
  | inl no_more ↦ rw no_more refl
  | inr (q, more) ↦ rw more refl
]

shift : (n k : ℕ) → suc n + k ≡ n + suc k
shift n k = omega arith

-- The place of the last message of an author who counts on from n, and its sequence.
last_message :
    (a : String) (n rx p : ℕ) (log : List Entry)
    → CountsFrom n (sequences_of a log)
    → last_of (places_of a rx log) ≡ some p
    → (b : String) × (at rx p log ≡ some (message b (pos (n + length (places_of a rx log)))))
last_message a n rx p [] c h = cc (last_nil, h)
last_message a n rx p (nulled ∷ log) c h =
    let (b, f) = last_message a n (suc rx) p log c h in
    (b, later rx p nulled (message b (pos (n + length (places_of a (suc rx) log)))) log f)
last_message a n rx p (foreign ∷ log) c h =
    let (b, f) = last_message a n (suc rx) p log c h in
    (b, later rx p foreign (message b (pos (n + length (places_of a (suc rx) log)))) log f)
last_message a n rx p (message b q ∷ log) c h = elim (Bool-cases (eqb b a)) [
  | inr other ↦
      let (x, f) = last_message a n (suc rx) p log (rw other at c) (rw other at h) in
      (
        x,
        rw other (
            later rx p (message b q) (message x (pos (n + length (places_of a (suc rx) log)))) log
              f),
      )
  | inl own ↦
      let ps : List ℕ = places_of a (suc rx) log in
      let (here, rest) = rw own at c in
      let found : or_else (last_of ps) (some rx) ≡ some p = sym (last_cons rx ps) ∙ rw own at h in
      elim (Option-cases (last_of ps)) [
        | inl no_more ↦ (
          b,
          rw own (
              first_last n rx p b q log ps (some_injective (rw no_more at found)) here
                (last_none ps no_more)),
        )
        | inr (p', more) ↦
            let (x, f) = last_message a (suc n) (suc rx) p log rest (more ∙ rw more at found) in
            (
              x,
              rw own (
                  later rx p (message b q) (message x (pos (n + suc (length ps)))) log
                    (f ∙ ap (λ k. some (message x (pos k))) (shift n (length ps)))),
            )
      ]
]

some_last : (p : ℕ) (ps : List ℕ) → (q : ℕ) × (last_of (p ∷ ps) ≡ some q)
some_last p ps = elim (Option-cases (last_of ps)) [
  | inl no_more ↦ (p, last_cons p ps ∙ rw no_more refl)
  | inr (q, more) ↦ (q, last_cons p ps ∙ rw more refl)
]

right_length :
    (a b : String) (p : ℕ) (ps : List ℕ)
    → length (p ∷ ps) < 2 ^ 62
    → check_last a (p ∷ ps) (message b (pos (length (p ∷ ps)))) ≡ none
unfolding check_last ◌+ℤ◌
right_length a b p ps h = ground (arith)

-- Every sublog lists the places of its author's messages, in the order of the log.
abbrev pub IsExact : List Entry → GoMap String (List ℕ) → Type 0
IsExact log = All (λ feed. feed.1 ≡ places_of feed.0 0 log)

length_places : (a : String) (rx : ℕ) (log : List Entry) → length (places_of a rx log) ≤ length log
length_places a rx [] = omega arith
length_places a rx (nulled ∷ log) = omega (arith, length_places a (suc rx) log)
length_places a rx (foreign ∷ log) = omega (arith, length_places a (suc rx) log)
length_places a rx (message b q ∷ log) = ground (arith, length_places a (suc rx) log)

shift_zero : (q : ℕ) → 0 + q ≡ q
shift_zero q = omega arith

same_length : (xs ys : List ℕ) → xs ≡ ys → 0 + length ys ≡ length xs
same_length xs ys e = omega (arith, ap length e)

empty_sub : (a : String) (log : List Entry) → check_author a [] log ≡ none
unfolding check_author last_of
empty_sub a log = refl

check_author-none :
    (a : String) (sub : List ℕ) (log : List Entry)
    → sub ≡ places_of a 0 log
    → CountsFrom 0 (sequences_of a log)
    → length log < 2 ^ 62
    → check_author a sub log ≡ none
unfolding check_author
check_author-none a [] log e c b = empty_sub a log
check_author-none a (p ∷ ps) log e c b =
    let (q, last) = some_last p ps in
    let (x, found) = last_message a 0 0 q log c (subst (λ l. last_of l ≡ some q) e last) in
    let loaded : get_elem? log q ≡ some (message x (pos (length (p ∷ ps)))) =
      sym (at_elem 0 q log)
      ∙ (ap (λ k. at 0 k log) (shift_zero q)
          ∙ (found
              ∙ ap (λ k. some (message x (pos k))) (same_length (p ∷ ps) (places_of a 0 log) e))) in
    rw (last, check_author)
      (rw loaded (
        right_length a x p ps
          (omega (arith, b, length_places a 0 log, same_length (p ∷ ps) (places_of a 0 log) e))))

length_all :
    (feeds : GoMap String (List ℕ)) (log : List Entry)
    → IsExact log feeds
    → ((a : String) → CountsFrom 0 (sequences_of a log))
    → length log < 2 ^ 62
    → length_fsck feeds log ≡ length_clean
unfolding length_fsck
length_all [] log e c b = refl
length_all ((a, sub) ∷ feeds) log e c b =
    rw (check_author-none a sub log e.0 (c a) b, length_fsck) (length_all feeds log e.1 c b)

-- On a log of fewer than 2 ^ 62 entries that are messages or overwritten ones, with an index that lists
-- the places of each author's messages: if the check of all sequences finds nothing, the quick check,
-- which is the default, finds nothing either.
pub fsck_lem :
    (feeds : GoMap String (List ℕ)) (log : List Entry)
    → AllRead log
    → length log < 2 ^ 62
    → IsExact log feeds
    → fsck (some feeds) sequences_mode log ≡ by_sequences clean
    → fsck (some feeds) no_mode log ≡ by_length length_clean
unfolding fsck
fsck_lem feeds log all b exact found = ap by_length (
    length_all feeds log exact ((sequence_fsck_lem log all b).0.0 (by_sequences_injective found)) b)
  where
    by_sequences_injective : {x y : Report} → by_sequences x ≡ by_sequences y → x ≡ y
    by_sequences_injective h = cc
