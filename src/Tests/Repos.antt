-- ===== src/Tests/Repos.antt =====
-- Examples of the check of the receive log and of its repair.

use metalife_pub.Prelude.{
  some, ℕ, List, [], ◌∷◌, true, false, ◌≡◌, ◌≢◌, ◌↔◌, inl, inr, refl, arith, Bool-cases, String,
  eqb, string_eq, nat_eq, list_eq, pair_eq, bool_eq, ==_iff,
}
use metalife_pub.Prelude.Int.{pos, ◌+ℤ◌}
use metalife_pub.GoMap.{GoMap, lookup, insert, delete}
use metalife_pub.Fsck.{
  Entry, message, WrongSequence, clean, problems, unexpected_type, sequence_fsck, Repo, failed,
  heal_repo, scan_from, null_map, check_message,
}
use metalife_pub.Fsck.Counting.{sequences_of, CountsFrom, is_reported}
use metalife_pub.Fsck.Reports.{sequence_fsck_lem}
use metalife_pub.Fsck.Places.{IsIndex}
use metalife_pub.Fsck.Length.{length_clean, no_mode, sequences_mode, by_length, by_sequences, fsck}
use metalife_pub.Fsck.Length.Agreement.{fsck_lem}
use metalife_pub.Fsck.Repair.{heal_repo_lem}

abbrev broken_log : List Entry
broken_log = message "@a" (pos 1) ∷ message "@b" (pos 2) ∷ message "@a" (pos 2) ∷ []

abbrev gap : WrongSequence
gap = record { ref = "@b"; stored = pos 1; logical = pos 2 }

abbrev broken_repo : Repo
broken_repo = record {
  receive_log = broken_log;
  users = ("@a", 0 ∷ 2 ∷ []) ∷ ("@b", 1 ∷ []) ∷ [];
  contacts = [];
}

reports_gap : sequence_fsck broken_log ≡ problems (gap ∷ []) (1 ∷ [])
unfolding sequence_fsck scan_from null_map check_message lookup insert ◌+ℤ◌
reports_gap = refl

is_index : IsIndex broken_repo.users broken_repo.receive_log
unfolding lookup
is_index a i h = elim (Bool-cases (eqb "@a" a)) [
  | inl here ↦ ground (arith, here, ==_iff 0 i, ==_iff 2 i)
  | inr other ↦ ground (arith, other, ==_iff 1 i)
]

sequence_fsck_lem_example :
    ((sequence_fsck broken_log ≡ clean) ↔ ((a : String) → CountsFrom 0 (sequences_of a broken_log)))
    × (sequence_fsck broken_log ≢ unexpected_type)
    × ((es : List WrongSequence) (seqs : List ℕ)
        → sequence_fsck broken_log ≡ problems es seqs
        → (a : String) → (is_reported a es ≡ false) ↔ CountsFrom 0 (sequences_of a broken_log))
sequence_fsck_lem_example = sequence_fsck_lem broken_log tt (omega arith)

heal_repo_lem_example :
    (e : WrongSequence) × (rest : List WrongSequence) × (s' : Repo) × (gap ∷ [] ≡ e ∷ rest)
    × (heal_repo (gap ∷ []) (1 ∷ []) broken_repo ≡ (failed, s'))
    × (sequence_fsck s'.receive_log ≡ clean)
    × ((a : String) → is_reported a (gap ∷ []) ≡ true → sequences_of a s'.receive_log ≡ [])
    × ((a : String)
        → is_reported a (gap ∷ []) ≡ false
        → sequences_of a s'.receive_log ≡ sequences_of a broken_repo.receive_log)
    × (s'.users ≡ delete e.ref broken_repo.users)
heal_repo_lem_example =
    heal_repo_lem broken_repo (gap ∷ []) (1 ∷ []) tt (omega arith) is_index reports_gap

abbrev good_log : List Entry
good_log = message "@a" (pos 1) ∷ message "@b" (pos 1) ∷ message "@a" (pos 2) ∷ []

abbrev good_feeds : GoMap String (List ℕ)
good_feeds = ("@a", 0 ∷ 2 ∷ []) ∷ ("@b", 1 ∷ []) ∷ []

good_sequences : fsck (some good_feeds) sequences_mode good_log ≡ by_sequences clean
unfolding fsck sequence_fsck scan_from null_map check_message lookup insert ◌+ℤ◌
good_sequences = refl

fsck_lem_example : fsck (some good_feeds) no_mode good_log ≡ by_length length_clean
fsck_lem_example = fsck_lem good_feeds good_log tt (omega arith) (refl, (refl, tt)) good_sequences
