-- ===== src/Fsck/Length.antt =====
-- sbot/fsck.go: the quick check, of the last message of each sublog, and the choice between the checks.
-- A sublog is the list of its places in the receive log.
pub mod Agreement
use mathlib.Core.Option
use mathlib.Core.List.Memᴰ
use metalife_pub.Prelude.{
  ℕ, zero, suc, ◌+◌, ◌-◌, ◌*◌, ◌/◌, ◌%◌, ◌^◌, ◌<◌, ◌≤◌, List, [], ◌∷◌, ◌++◌, map, Memᴰ, Option,
  none, some, Bool, true, false, not, ◌==◌, ltb, leb, ◌&&◌, ◌||◌, if◌then◌else◌, ◌≡◌, ◌≢◌, ◌↔◌, ◌⊎◌,
  inl, inr, refl, sym, ap, subst, ◌∙◌, arith, Bool-cases, Option-cases, String, Eq, eqb, eqb_iff,
  eqb_refl, eqb_comm, eqb_ne, string_eq, nat_eq, list_eq, pair_eq, bool_eq, or_else, is_some,
  length, Result, ok, err, All, take, drop, get_elem?, ==_iff,
}
use metalife_pub.Prelude.Int.{ℤ, pos, negsuc, ltb_ℤ, ◌+ℤ◌, ◌-ℤ◌, ◌=ℤ◌, ◌≤ℤ◌}
use metalife_pub.Prelude.Int64.{to_uint64, to_int64, to_int64_id, IsInt64}
use metalife_pub.GoMap.{GoMap, lookup, insert, delete}
use metalife_pub.GoMap.Laws.{
  lookup-insert, lookup-insert_self, lookup-delete, Distinct, insert-Distinct, delete-Distinct,
  mem_of_lookup, lookup_of_mem, AllValues, insert-AllValues, overwrite_step, overwrite_step_same,
  lookup-cons_ne, lookup-cons, lookup-nil,
}
use metalife_pub.Fsck.{Entry, message, nulled, foreign, WrongSequence, Report, sequence_fsck}

-- What `lengthFSCK` returns: nothing, `ErrWrongSequence`, the error of an entry that does not load, or
-- the panic on a value that is no message.
pub data LengthReport : Type 0 where
  length_clean : LengthReport
  wrong_length : WrongSequence → LengthReport
  load_failed no_message : LengthReport

-- `subLog.Get(subLog.Seq())`
unfoldable pub last_of : List ℕ → Option ℕ
last_of [] = none
last_of (p ∷ ps) = elim (last_of ps) [ none ↦ some p | some q ↦ some q ]

-- `subLog.Seq()`, of a sublog that is not empty.
abbrev pub seq_of : List ℕ → ℤ
seq_of ps = pos (length ps - 1)

-- The loop's body, after the entry was loaded: the error, if there is one.
unfoldable pub check_last : String → List ℕ → Entry → Option LengthReport
check_last author sub nulled = none
check_last author sub foreign = some no_message
check_last author sub (message b q) =
    if not (q =ℤ to_int64 (seq_of sub +ℤ pos 1))
    then some (wrong_length (record { ref = author; stored = seq_of sub; logical = q }))
    else none

unfoldable pub check_author : String → List ℕ → List Entry → Option LengthReport
unfolding last_of check_last
check_author author sub log = elim (last_of sub) [
  | none ↦ none
  | some rx ↦ elim (get_elem? log rx) [ none ↦ some load_failed | some e ↦ check_last author sub e ]
]

-- `lengthFSCK`
unfoldable pub length_fsck : GoMap String (List ℕ) → List Entry → LengthReport
unfolding check_author
length_fsck [] log = length_clean
length_fsck ((author, sub) ∷ feeds) log = elim (check_author author sub log) [
  | none ↦ length_fsck feeds log
  | some report ↦ report
]

-- `FSCKMode`, where `no_mode` is its zero value.
pub data Mode : Type 0 where
  no_mode length_mode sequences_mode unknown_mode : Mode

-- What `FSCK` returns, by the check that it runs.
pub data Outcome : Type 0 where
  by_length : LengthReport → Outcome
  by_sequences : Report → Outcome
  no_index not_a_mode : Outcome

-- `FSCK`, of the index of feeds if there is one.
unfoldable pub fsck : Option (GoMap String (List ℕ)) → Mode → List Entry → Outcome
unfolding length_fsck sequence_fsck
fsck none mode log = no_index
fsck (some feeds) no_mode log = by_length (length_fsck feeds log)
fsck (some feeds) length_mode log = by_length (length_fsck feeds log)
fsck (some feeds) sequences_mode log = by_sequences (sequence_fsck log)
fsck (some feeds) unknown_mode log = not_a_mode
