-- ===== src/Drain.antt =====
-- message/drains.go and message/verifier.go: the checks that a message passes before it is appended
-- to its feed. The check of the bytes (signature and format) is the parameter `verify_bytes`, and
-- whether an append to the storage works is told for each call.
pub mod Chain
pub mod Feed
pub mod Sinks
use mathlib.Core.Option
use metalife_pub.Prelude.{
  ℕ, zero, suc, ◌+◌, ◌-◌, ◌*◌, ◌/◌, ◌%◌, ◌^◌, ◌<◌, ◌≤◌, List, [], ◌∷◌, ◌++◌, map, Memᴰ, Option,
  none, some, Bool, true, false, not, ◌==◌, ltb, leb, ◌&&◌, ◌||◌, if◌then◌else◌, ◌≡◌, ◌≢◌, ◌↔◌, ◌⊎◌,
  inl, inr, refl, sym, ap, subst, ◌∙◌, arith, Bool-cases, Option-cases, String, Eq, eqb, eqb_iff,
  eqb_refl, eqb_comm, eqb_ne, string_eq, nat_eq, pair_eq, bool_eq, or_else, is_some, length, Result,
  ok, err,
}
use metalife_pub.Prelude.Int.{ℤ, pos, negsuc, ltb_ℤ, ◌+ℤ◌, ◌=ℤ◌}
use metalife_pub.Prelude.Int64.{to_uint64, to_int64, to_int64_id, IsInt64}
use metalife_pub.GoMap.{GoMap, lookup, insert, delete}
use metalife_pub.GoMap.Laws.{
  lookup-insert, lookup-insert_self, lookup-delete, Distinct, insert-Distinct, delete-Distinct,
  mem_of_lookup, lookup_of_mem, AllValues, insert-AllValues, overwrite_step, overwrite_step_same,
  lookup-cons_ne, lookup-cons, lookup-nil,
}
use metalife_pub.Refs.{Refs}

-- What the drain reads of a message. References stand as their canonical text.
pub record Message : Type 0 where
  pub key : String
  pub author : String
  pub seq : ℤ
  pub previous : Option String

pub data Invalid : Type 0 where
  first_not_one wrong_author wrong_sequence no_previous wrong_previous : Invalid

pub data Verdict : Type 0 where
  valid : Verdict
  skip : Verdict
  invalid : Invalid → Verdict

-- `currSeq + 1`, in 64 bits.
unfoldable pub next_seq : ℤ → ℤ
next_seq s = to_int64 (s +ℤ pos 1)

-- The part of `ValidateNext` for a feed that has messages.
unfoldable pub validate_after : Message → Message → Verdict
validate_after current next =
    if not (eqb current.author next.author)
    then invalid wrong_author
    else if not (next_seq current.seq =ℤ next.seq)
    then (if ltb_ℤ current.seq next.seq then invalid wrong_sequence else skip)
    else elim next.previous [
      | none ↦ invalid no_previous
      | some prev ↦ if eqb current.key prev then valid else invalid wrong_previous
    ]

-- A missing message, or one with the sequence 0, stands for an empty feed.
abbrev pub is_empty : Option Message → Bool
is_empty none = true
is_empty (some m) = m.seq =ℤ pos 0

-- `ValidateNext`
unfoldable pub validate_next : Option Message → Message → Verdict
unfolding validate_after next_seq
validate_next none next = if next.seq =ℤ pos 1 then valid else invalid first_not_one
validate_next (some current) next =
    if current.seq =ℤ pos 0
    then (if next.seq =ℤ pos 1 then valid else invalid first_not_one)
    else validate_after current next

-- `legacyVerify`, `gabbyVerify` and `metafeedVerify`
pub data Verifier : Type 0 where
  legacy_verify gabby_verify metafeed_verify : Verifier

-- `generalVerifyDrain`, with what it has saved, the last message first.
pub record Drain : Type 0 where
  pub who : String
  pub verifier : Verifier
  pub latest_seq : ℤ
  pub latest_msg : Option Message
  pub saved : List Message

pub data VerifyError : Type 0 where
  bad_bytes save_failed unsupported_algorithm not_loaded : VerifyError
  not_next : Invalid → VerifyError

abbrev new_drain : String → Verifier → Message → Drain
new_drain who v latest = record {
  who = who;
  verifier = v;
  latest_seq = latest.seq;
  latest_msg = some latest;
  saved = [];
}

-- `NewVerifySink`
unfoldable pub new_verify_sink : (r : Refs) → r.Feed → Message → Result VerifyError Drain
new_verify_sink r ref latest =
    if eqb (r.algo ref) r.feed_ssb1
    then ok (new_drain (r.string ref) legacy_verify latest)
    else if eqb (r.algo ref) r.feed_gabby
    then ok (new_drain (r.string ref) gabby_verify latest)
    else if eqb (r.algo ref) r.feed_bendy_butt
    then ok (new_drain (r.string ref) metafeed_verify latest)
    else err unsupported_algorithm

module _ {Raw : Type 0} (verify_bytes : Verifier → Raw → Option Message) where
  -- `generalVerifyDrain.Verify`, where `save_works` says whether this call's append to the log works.
  unfoldable pub verify : Bool → Raw → Drain → Result VerifyError (Unit {0}) × Drain
  verify save_works msg ld = elim (verify_bytes ld.verifier msg) [
    | none ↦ (err bad_bytes, ld)
    | some next ↦ elim (validate_next ld.latest_msg next) [
      | skip ↦ (ok tt, ld)
      | invalid why ↦ (err (not_next why), ld)
      | valid ↦
          if save_works
          then (
            ok tt,
            record ld { latest_seq = next.seq; latest_msg = some next; saved = next ∷ ld.saved },
          )
          else (err save_failed, ld)
    ]
  ]

  -- The messages of a stream, each with whether its append works, whatever each call returns.
  unfoldable pub verify_all : List (Bool × Raw) → Drain → Drain
  unfolding verify
  verify_all [] ld = ld
  verify_all ((save_works, msg) ∷ msgs) ld = verify_all msgs (verify save_works msg ld).1

-- `VerificationRouter`: the sinks by the author's reference, which are pointers, and the drains that
-- they point to. A sink that was handed out stays the router's own.
pub record Router : Type 0 where
  pub sinks : GoMap String ℕ
  pub drains : GoMap ℕ Drain
  pub made : ℕ

-- `Verify` of the sink at a pointer.
unfoldable pub verify_at :
    {Raw : Type 0} → (Verifier → Raw → Option Message) → ℕ → Bool → Raw → Router → Router
unfolding verify
verify_at verify_bytes p save_works msg s = elim (lookup p s.drains) [
  | none ↦ s
  | some ld ↦ record s { drains = insert p (verify verify_bytes save_works msg ld).1 s.drains }
]

-- `firstMessage`
abbrev pub first_message : String → Message
first_message author = record { key = ""; author = author; seq = pos 0; previous = none }

-- `ssb.IsValidFeedFormat`
unfoldable pub is_valid_feed_format : Refs → String → Bool
is_valid_feed_format r ra = eqb ra r.feed_ssb1 || eqb ra r.feed_gabby || eqb ra r.feed_bendy_butt

module _ (r : Refs) (stored : String → Option (Option Message)) where
  open r use {Feed, string, algo}

  -- `getLatestMsg` over `stored`, the latest message of the author's sublog, if there is one; `none`
  -- stands for an error of the storage, or for a feed format that is not valid.
  unfoldable pub get_latest_msg : Feed → Option Message
  get_latest_msg ref =
      if not (is_valid_feed_format r (algo ref)) then none else elim (stored (string ref)) [
        | none ↦ none
        | some none ↦ some (first_message (string ref))
        | some (some m) ↦ some m
      ]

  -- `GetSink`: one sink for each author.
  unfoldable pub get_sink : Feed → Router → Result VerifyError ℕ × Router
  unfolding get_latest_msg new_verify_sink
  get_sink ref s = elim (lookup (string ref) s.sinks) [
    | some snk ↦ (ok snk, s)
    | none ↦ elim (get_latest_msg ref) [
      | none ↦ (err not_loaded, s)
      | some msg ↦ elim (new_verify_sink r ref msg) [
        | err e ↦ (err e, s)
        | ok ld ↦ (
          ok s.made,
          record s {
            sinks = insert (string ref) s.made s.sinks;
            drains = insert s.made ld s.drains;
            made = suc s.made;
          },
        )
      ]
    ]
  ]

  -- `CloseSink`
  unfoldable pub close_sink : Feed → Router → Router
  close_sink ref s = record s { sinks = delete (string ref) s.sinks }
