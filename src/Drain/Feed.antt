-- ===== src/Drain/Feed.antt =====
-- What a drain saves, whatever bytes it is given.

use metalife_pub.Prelude.{
  ℕ, suc, ◌^◌, ◌<◌, List, [], ◌∷◌, Option, some, Bool, true, false, ◌≡◌, ◌≢◌, ◌⊎◌, inl, inr, refl,
  sym, ap, subst, ◌∙◌, arith, Bool-cases, Option-cases, eqb_iff, string_eq, pair_eq, bool_eq,
  length, ok, err,
}
use metalife_pub.Prelude.Int.{ℤ, pos, ltb_ℤ, ◌+ℤ◌, ◌=ℤ◌, ◌≤ℤ◌}
use metalife_pub.Prelude.Int64.{to_int64_id, IsInt64}
use metalife_pub.Drain.{
  Message, Verdict, valid, skip, invalid, is_empty, validate_next, validate_after, next_seq, Drain,
  Verifier, VerifyError, verify, verify_all,
}
use metalife_pub.Drain.Chain.{Links, first, later, validate_next_iff, follows, full_links}

abbrev pub newest : Option Message → List Message → Option Message
newest start [] = start
newest start (m ∷ log) = some m

-- Messages that were appended, the last one first, to a feed that ended in `start`.
pub data Chain (start : Option Message) : List Message → Type 0 where
  begin : Chain start []
  append :
      {log : List Message} {m : Message}
      → Chain start log
      → Links (newest start log) m
      → Chain start (m ∷ log)

pub record IsSound (start : Option Message) (ld : Drain) : Type 0 where
  pub chain : Chain start ld.saved
  pub latest : ld.latest_msg ≡ newest start ld.saved
  pub numbered : (m : Message) → ld.latest_msg ≡ some m → ld.latest_seq ≡ m.seq

module _ {Raw : Type 0} (verify_bytes : Verifier → Raw → Option Message) where
  -- What one call does: it appends the message, or it changes nothing.
  verify-cases :
      (save_works : Bool) (msg : Raw) (ld : Drain)
      → ((next : Message) × (verify_bytes ld.verifier msg ≡ some next)
          × (validate_next ld.latest_msg next ≡ valid)
          × (verify verify_bytes save_works msg ld ≡ (
            ok tt,
            record ld { latest_seq = next.seq; latest_msg = some next; saved = next ∷ ld.saved },
          )))
        ⊎ ((verify verify_bytes save_works msg ld).1 ≡ ld)
  unfolding verify
  verify-cases save_works msg ld = elim (Option-cases (verify_bytes ld.verifier msg)) [
    | inl bad ↦ inr (ground arith)
    | inr (next, good) ↦ elim (validate-cases (validate_next ld.latest_msg next)) [
      | inl accepted ↦ elim (Bool-cases save_works) [
        | inl works ↦ inl (next, good, accepted, ground arith)
        | inr fails ↦ inr (ground arith)
      ]
      | inr refused ↦ inr (ground arith)
    ]
  ]
    where
      validate-cases : (v : Verdict) → (v ≡ valid) ⊎ (v ≢ valid)
      validate-cases valid = inl refl
      validate-cases skip = inr (λ e. cc)
      validate-cases (invalid why) = inr (λ e. cc)

  -- An error leaves the drain as it was, and nothing is saved.
  pub verify_error :
      (save_works : Bool) (msg : Raw) (ld ld' : Drain) (e : VerifyError)
      → verify verify_bytes save_works msg ld ≡ (err e, ld')
      → ld' ≡ ld
  unfolding verify
  verify_error save_works msg ld ld' e h = elim (verify-cases save_works msg ld) [
    | inl (next, good, accepted, done) ↦ absurd (ground arith)
    | inr same ↦ ground arith
  ]

  verify-IsSound :
      (start : Option Message) (save_works : Bool) (msg : Raw) (ld : Drain)
      → IsSound start ld
      → IsSound start (verify verify_bytes save_works msg ld).1
  verify-IsSound start save_works msg ld v = elim (verify-cases save_works msg ld) [
    | inl (next, good, accepted, done) ↦
        let links =
          (validate_next_iff (newest start ld.saved) next).0
            (subst (λ c. validate_next c next ≡ valid) v.latest accepted) in
        rw done
          (record { chain = append v.chain links; latest = refl; numbered = λ m e. ground arith })
    | inr same ↦ rw same v
  ]

  -- Whatever bytes are poured into a drain, and whichever appends fail: the messages that it saved
  -- form a chain that goes on from the message it began with (sequence 1 on an empty feed, then one
  -- author, consecutive sequences, and each message naming the one before by its key), and the drain
  -- has the last of them and its sequence as the latest.
  pub verify_all-IsSound :
      (start : Option Message) (msgs : List (Bool × Raw)) (ld : Drain)
      → IsSound start ld
      → IsSound start (verify_all verify_bytes msgs ld)
  unfolding verify_all
  verify_all-IsSound start [] ld v = v
  verify_all-IsSound start ((save_works, msg) ∷ msgs) ld v =
      verify_all-IsSound start msgs (verify verify_bytes save_works msg ld).1
        (verify-IsSound start save_works msg ld v)

abbrev pub Numbered : List Message → Type 0
Numbered [] = Unit
Numbered (m ∷ log) = (m.seq ≡ pos (suc (length log))) × Numbered log

first_seq :
    (start : Option Message) (m : Message) → is_empty start ≡ true → Links start m → m.seq ≡ pos 1
first_seq start m e (first e' s) = s
first_seq _ m e (later n a s p) = cc

seq_after :
    (m' m : Message) (k : ℕ)
    → m'.seq ≡ pos (suc k)
    → suc (suc k) < 2 ^ 63
    → Links (some m') m
    → m.seq ≡ pos (suc (suc k))
unfolding next_seq ◌+ℤ◌
seq_after m' m k q b (first e s) = absurd (ground arith)
seq_after m' m k q b (later n a s p) = s ∙ ap next_seq q ∙ (ground arith)

-- The messages saved on an empty feed have the sequences 1, 2, 3, … in the order they were saved.
pub Chain-Numbered :
    (start : Option Message) (log : List Message)
    → is_empty start ≡ true
    → length log < 2 ^ 63
    → Chain start log
    → Numbered log
Chain-Numbered start [] e b begin = tt
Chain-Numbered start (m ∷ []) e b (append c l) = (first_seq start m e l, tt)
Chain-Numbered start (m ∷ m' ∷ log) e b (append c l) =
    let rest = Chain-Numbered start (m' ∷ log) e (omega arith) c in
    (seq_after m' m (length log) rest.0 (omega arith) l, rest)

suc_ne : (a b : ℤ) → b ≤ℤ a → ((a +ℤ pos 1) =ℤ b) ≡ false
unfolding ◌+ℤ◌
suc_ne a b h = ground arith

not_newer : (a b : ℤ) → b ≤ℤ a → ltb_ℤ a b ≡ false
not_newer a b h = ground arith

old_skip :
    (current next : Message)
    → next.author ≡ current.author
    → IsInt64 (current.seq +ℤ pos 1)
    → next.seq ≤ℤ current.seq
    → validate_after current next ≡ skip
unfolding validate_after next_seq
old_skip current next a b s = rw ((eqb_iff current.author next.author).1 (sym a)) (
    rw (to_int64_id (current.seq +ℤ pos 1) b)
      (rw (suc_ne current.seq next.seq s) (rw (not_newer current.seq next.seq s))))

module _ {Raw : Type 0} (verify_bytes : Verifier → Raw → Option Message) where
  -- On an empty feed the drain saves every message with valid bytes and the sequence 1, whoever its
  -- author is: the feed that the drain was made for is not compared.
  pub verify_first :
      (save_works : Bool) (msg : Raw) (ld : Drain) (next : Message)
      → is_empty ld.latest_msg ≡ true
      → verify_bytes ld.verifier msg ≡ some next
      → next.seq ≡ pos 1
      → save_works ≡ true
      → verify verify_bytes save_works msg ld ≡ (
        ok tt,
        record ld { latest_seq = next.seq; latest_msg = some next; saved = next ∷ ld.saved },
      )
  unfolding verify
  verify_first save_works msg ld next e good s w =
      ground (arith, follows ld.latest_msg next (first e s))

  -- A message of the same author that is not newer than the latest is taken without an error and
  -- without any change, so a stream may be sent again from any point.
  pub verify_again :
      (save_works : Bool) (msg : Raw) (ld : Drain) (current next : Message)
      → ld.latest_msg ≡ some current
      → (current.seq =ℤ pos 0) ≡ false
      → verify_bytes ld.verifier msg ≡ some next
      → next.author ≡ current.author
      → IsInt64 (current.seq +ℤ pos 1)
      → next.seq ≤ℤ current.seq
      → verify verify_bytes save_works msg ld ≡ (ok tt, ld)
  unfolding verify
  verify_again save_works msg ld current next l n good a b s =
      ground (arith, full_links current next n, old_skip current next a b s)

  -- If a drain has saved nothing, or a sound log, on an empty feed, then the messages that it has
  -- saved after any stream have the sequences 1, 2, 3, … in the order they were saved, as long as
  -- there are fewer than 2 ^ 63.
  pub verify_all-Numbered :
      (start : Option Message) (msgs : List (Bool × Raw)) (ld : Drain)
      → IsSound start ld
      → is_empty start ≡ true
      → length (verify_all verify_bytes msgs ld).saved < 2 ^ 63
      → Numbered (verify_all verify_bytes msgs ld).saved
  verify_all-Numbered start msgs ld sound empty few =
      Chain-Numbered start (verify_all verify_bytes msgs ld).saved empty few
        (verify_all-IsSound verify_bytes start msgs ld sound).chain
