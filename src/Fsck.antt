-- ===== src/Fsck.antt =====
-- sbot/fsck.go and the part of sbot/null.go that it calls: whether each feed in the receive log counts
-- up from 1, and the repair. A bitmap is the list of its numbers, where only membership counts;
-- progress reports are left out.
pub mod Counting
pub mod Reports
pub mod Healing
pub mod Places
pub mod Repair
pub mod Length
use mathlib.Core.Option
use mathlib.Core.List.Memᴰ
use metalife_pub.Prelude.{
  ℕ, zero, suc, ◌+◌, ◌-◌, ◌*◌, ◌/◌, ◌%◌, ◌^◌, ◌<◌, ◌≤◌, List, [], ◌∷◌, ◌++◌, map, Memᴰ, Option,
  none, some, Bool, true, false, not, ◌==◌, ltb, leb, ◌&&◌, ◌||◌, if◌then◌else◌, ◌≡◌, ◌≢◌, ◌↔◌, ◌⊎◌,
  inl, inr, refl, sym, ap, subst, ◌∙◌, arith, Bool-cases, Option-cases, String, Eq, eqb, eqb_iff,
  eqb_refl, eqb_comm, eqb_ne, string_eq, nat_eq, list_eq, pair_eq, bool_eq, or_else, is_some,
  length, Result, ok, err, All, take, drop, get_elem?, ==_iff,
}
use metalife_pub.Prelude.Int.{ℤ, pos, negsuc, ltb_ℤ, ◌+ℤ◌, ◌-ℤ◌, ◌=ℤ◌, ◌≤ℤ◌}
use metalife_pub.Prelude.Int64.{to_uint64, to_int64, to_int64_id, IsInt64}
use metalife_pub.GoMap.{GoMap, lookup, insert, delete}
use metalife_pub.GoMap.Laws.{
  lookup-insert, lookup-insert_self, lookup-delete, Distinct, insert-Distinct, delete-Distinct,
  mem_of_lookup, lookup_of_mem, AllValues, insert-AllValues, overwrite_step, overwrite_step_same,
  lookup-cons_ne, lookup-cons, lookup-nil,
}

-- An entry of the receive log: what is read of a message, a message that was overwritten with zeros,
-- or a value of another type.
pub data Entry : Type 0 where
  message : String → ℤ → Entry
  nulled : Entry
  foreign : Entry

-- `ssb.ErrWrongSequence`
pub record WrongSequence : Type 0 where
  pub ref : String
  pub stored : ℤ
  pub logical : ℤ

-- The variables of the loop of `sequenceFSCK`.
pub record Scan : Type 0 where
  pub last_sequence : GoMap String ℤ
  pub all_seqs : GoMap String (List ℕ)
  pub consistency_errors : List WrongSequence

-- What `sequenceFSCK` returns: nothing, `ErrConsistencyProblems`, or another error.
pub data Report : Type 0 where
  clean : Report
  problems : List WrongSequence → List ℕ → Report
  unexpected_type : Report

abbrev pub seqs_of : String → GoMap String (List ℕ) → List ℕ
seqs_of a m = elim (lookup a m) [ none ↦ [] | some l ↦ l ]

-- `seqMap.Add(uint32(rxLogSeq))`
abbrev pub add_seq : String → ℕ → GoMap String (List ℕ) → GoMap String (List ℕ)
add_seq a rx m = insert a (rx % 2 ^ 32 ∷ seqs_of a m) m

abbrev pub report_wrong : String → ℤ → ℤ → Scan → Scan
report_wrong a stored logical s = record s {
  consistency_errors =
      s.consistency_errors ++ record { ref = a; stored = stored; logical = logical } ∷ [];
  last_sequence = insert a (negsuc 0) s.last_sequence;
}

-- The loop's body for a message, after its place was noted.
unfoldable pub check_message : ℕ → String → ℤ → Scan → Scan
check_message rx a msg_seq s = elim (lookup a s.last_sequence) [
  | none ↦
      if not (msg_seq =ℤ pos 1)
      then report_wrong a (pos rx) msg_seq s
      else record s { last_sequence = insert a (pos 1) s.last_sequence }
  | some curr_seq ↦
      if ltb_ℤ curr_seq (pos 0)
      then s
      else if not (to_int64 (curr_seq +ℤ pos 1) =ℤ msg_seq)
      then report_wrong a (to_int64 (curr_seq +ℤ pos 1)) msg_seq s
      else record s { last_sequence = insert a (to_int64 (curr_seq +ℤ pos 1)) s.last_sequence }
]

-- The loop of `sequenceFSCK`, from the place `rx` on; `none` is the error on another type.
unfoldable pub scan_from : ℕ → List Entry → Scan → Option Scan
unfolding check_message
scan_from rx [] s = some s
scan_from rx (nulled ∷ log) s = scan_from (suc rx) log s
scan_from rx (foreign ∷ log) s = none
scan_from rx (message a q ∷ log) s =
    scan_from (suc rx) log (check_message rx a q (record s { all_seqs = add_seq a rx s.all_seqs }))

-- The loop that fills `nullMap`.
unfoldable pub null_map : List WrongSequence → GoMap String (List ℕ) → List ℕ
null_map [] m = []
null_map (e ∷ es) m = seqs_of e.ref m ++ null_map es m

abbrev pub no_scan : Scan
no_scan = record { last_sequence = []; all_seqs = []; consistency_errors = [] }

abbrev pub report_of : Scan → Report
report_of s = elim s.consistency_errors [
  | [] ↦ clean
  | e ∷ es ↦ problems (e ∷ es) (null_map (e ∷ es) s.all_seqs)
]

-- `sequenceFSCK`
unfoldable pub sequence_fsck : List Entry → Report
unfolding scan_from null_map
sequence_fsck log = elim (scan_from 0 log no_scan) [ none ↦ unexpected_type | some s ↦ report_of s ]

-- The receive log, the sublogs of the authors, and the authors whose contacts are in the graph.
pub record Repo : Type 0 where
  pub receive_log : List Entry
  pub users : GoMap String (List ℕ)
  pub contacts : GoMap String (Unit {0})

-- `ReceiveLog.Null`, an error out of range.
unfoldable pub null_at : ℕ → List Entry → Option (List Entry)
null_at i [] = none
null_at zero (e ∷ log) = some (nulled ∷ log)
null_at (suc i) (e ∷ log) = Option.map (λ rest. e ∷ rest) (null_at i log)

-- What an operation returns beside the repository: no error, or one.
pub data Done : Type 0 where
  fine failed : Done

-- A loop of calls of `ReceiveLog.Null`.
unfoldable pub null_all : List ℕ → List Entry → Done × List Entry
unfolding null_at
null_all [] log = (fine, log)
null_all (i ∷ is) log = elim (null_at i log) [ none ↦ (failed, log) | some log' ↦ null_all is log' ]

-- `NullFeed`: it ends in the error of its last reachable line, whatever it did.
unfoldable pub null_feed : String → Repo → Done × Repo
unfolding null_all
null_feed ref s =
    let (d, log) = null_all (seqs_of ref s.users) s.receive_log in
    let s' = record s { receive_log = log } in
    elim d [
      | failed ↦ (failed, s')
      | fine ↦ (failed, record s' { users = delete ref s.users; contacts = delete ref s.contacts })
    ]

-- The second loop of `HealRepo`.
unfoldable pub null_feeds : List WrongSequence → Repo → Done × Repo
unfolding null_feed
null_feeds [] s = (fine, s)
null_feeds (e ∷ es) s =
    let (d, s') = null_feed e.ref s in elim d [ failed ↦ (failed, s') | fine ↦ null_feeds es s' ]

-- `HealRepo`, of the errors and the sequences of a report.
unfoldable pub heal_repo : List WrongSequence → List ℕ → Repo → Done × Repo
unfolding null_all null_feeds
heal_repo [] seqs s = (fine, s)
heal_repo (e ∷ es) seqs s =
    let (d, log) = null_all seqs s.receive_log in
    let s' = record s { receive_log = log } in
    elim d [ failed ↦ (failed, s') | fine ↦ null_feeds (e ∷ es) s' ]
