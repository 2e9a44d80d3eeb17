-- ===== src/Fsck/Repair.antt =====
-- The repair, from the report to the clean log.

use metalife_pub.Prelude.{
  ℕ, ◌^◌, ◌<◌, List, [], ◌∷◌, Bool, true, false, ◌||◌, ◌≡◌, ◌≢◌, inl, inr, refl, sym, ap, ◌∙◌,
  arith, Bool-cases, String, eqb_iff, eqb_refl, string_eq, nat_eq, list_eq, pair_eq, bool_eq,
  length,
}
use metalife_pub.GoMap.{GoMap, delete}
use metalife_pub.Fsck.{
  Entry, WrongSequence, clean, problems, seqs_of, null_map, sequence_fsck, Repo, Done, fine, failed,
  null_all, null_feed, null_feeds, heal_repo,
}
use metalife_pub.Fsck.Counting.{sequences_of, AllRead, is_reported}
use metalife_pub.Fsck.Reports.{
  scan_lem, fsck_of_scan, report_clean, report_problems, sequence_fsck_lem, errors-cases,
}
use metalife_pub.Fsck.Healing.{
  has, holds, masked, length-masked, masked-masked, null_all_lem, sequences_of-masked,
  sequences_of-masked_all, masked-AllRead, has-null_map,
}
use metalife_pub.Fsck.Places.{
  holds_bounds, holds_unique, Within-of_has, IsIndex, marked_has, has_marked, unmarked, scan_places,
}

null_feed_runs :
    (ref : String) (log : List Entry) (s : Repo)
    → null_all (seqs_of ref s.users) s.receive_log ≡ (fine, log)
    → null_feed ref s ≡ (
      failed,
      record { receive_log = log; users = delete ref s.users; contacts = delete ref s.contacts },
    )
unfolding null_feed
null_feed_runs ref log s h =
    ap
      (λ x.
        let (d, log') = x in
        let s' = record s { receive_log = log' } in
        elim d [
          | failed ↦ (failed, s')
          | fine ↦
              (failed, record s' { users = delete ref s.users; contacts = delete ref s.contacts })
        ])
      h

heal_repo_runs :
    (e : WrongSequence) (es : List WrongSequence) (seqs : List ℕ) (log log' : List Entry) (s : Repo)
    → null_all seqs s.receive_log ≡ (fine, log)
    → null_all (seqs_of e.ref s.users) log ≡ (fine, log')
    → heal_repo (e ∷ es) seqs s ≡ (
      failed,
      record {
        receive_log = log';
        users = delete e.ref s.users;
        contacts = delete e.ref s.contacts;
      },
    )
unfolding heal_repo null_feeds
heal_repo_runs e es seqs log log' s h k =
    ap
      (λ x.
        let (d, l) = x in
        let s' : Repo = record s { receive_log = l } in
        elim d as (λ _. Done × Repo) [ failed ↦ (failed, s') | fine ↦ null_feeds (e ∷ es) s' ])
      h
    ∙ ap
        (λ x.
          let (d, s') = x in
          elim d as (λ _. Done × Repo) [ failed ↦ (failed, s') | fine ↦ null_feeds es s' ])
        (null_feed_runs e.ref log' (record s { receive_log = log }) k)

module _ (s : Repo) (e : WrongSequence) (es : List WrongSequence) (m : GoMap String (List ℕ))
    (places : (a : String) (i : ℕ) → has i (seqs_of a m) ≡ holds a i 0 s.receive_log)
    (index : IsIndex s.users s.receive_log) where
  -- What is overwritten, by the first loop and with the first author's sublog.
  abbrev overwritten : ℕ → Bool
  overwritten j = has j (null_map (e ∷ es) m) || has j (seqs_of e.ref s.users)

  abbrev healed : Repo
  healed = record {
    receive_log = masked overwritten 0 s.receive_log;
    users = delete e.ref s.users;
    contacts = delete e.ref s.contacts;
  }

  first_loop :
      null_all (null_map (e ∷ es) m) s.receive_log
      ≡ (fine, masked (λ j. has j (null_map (e ∷ es) m)) 0 s.receive_log)
  first_loop = null_all_lem (null_map (e ∷ es) m) s.receive_log (
      Within-of_has (length s.receive_log) (null_map (e ∷ es) m) (λ i h.
        let (a, _, k) =
          has_marked s.receive_log m places i (e ∷ es)
            (ground (arith, has-null_map i (e ∷ es) m)) in
        omega (arith, (holds_bounds a i 0 s.receive_log k).1)))

  second_loop :
      null_all (seqs_of e.ref s.users) (masked (λ j. has j (null_map (e ∷ es) m)) 0 s.receive_log)
      ≡ (fine, healed.receive_log)
  second_loop =
      let p : ℕ → Bool = λ j. has j (null_map (e ∷ es) m) in
      let q : ℕ → Bool = λ j. has j (seqs_of e.ref s.users) in
      null_all_lem (seqs_of e.ref s.users) (masked p 0 s.receive_log) (
        rw (length-masked p 0 s.receive_log) (
          Within-of_has (length s.receive_log) (seqs_of e.ref s.users)
            (λ i h. omega (arith, (holds_bounds e.ref i 0 s.receive_log (index e.ref i h)).1))))
      ∙ ap (λ l. (fine, l)) (masked-masked q p 0 s.receive_log)

  heal_runs : heal_repo (e ∷ es) (null_map (e ∷ es) m) s ≡ (failed, healed)
  heal_runs =
      heal_repo_runs e es (null_map (e ∷ es) m)
        (masked (λ j. has j (null_map (e ∷ es) m)) 0 s.receive_log) healed.receive_log s first_loop
        second_loop

  healed_reported :
      (a : String) → is_reported a (e ∷ es) ≡ true → sequences_of a healed.receive_log ≡ []
  healed_reported a r = sequences_of-masked_all a overwritten 0 s.receive_log (λ i h.
      ground (arith, has-null_map i (e ∷ es) m, marked_has s.receive_log m places a i (e ∷ es) r h))

  healed_other :
      (a : String)
      → is_reported a (e ∷ es) ≡ false
      → sequences_of a healed.receive_log ≡ sequences_of a s.receive_log
  healed_other a r = sequences_of-masked a overwritten 0 s.receive_log (λ i h. ground (
    arith,
    has-null_map i (e ∷ es) m,
    unmarked s.receive_log m places a i (e ∷ es) r h,
    index e.ref i,
    holds_unique a e.ref i 0 s.receive_log,
    eqb_iff a e.ref,
    eqb_refl e.ref,
  ))

-- On a log of fewer than 2 ^ 32 entries that are messages or overwritten ones, whose index lists places
-- of the author's own messages: the repair of what the check reported always returns an error. It has
-- by then overwritten every message of the reported authors and none of the others, so that the check
-- finds nothing any more, but of the index it has removed the first reported author only.
pub heal_repo_lem :
    (s : Repo) (es : List WrongSequence) (seqs : List ℕ)
    → AllRead s.receive_log
    → length s.receive_log < 2 ^ 32
    → IsIndex s.users s.receive_log
    → sequence_fsck s.receive_log ≡ problems es seqs
    → (e : WrongSequence) × (rest : List WrongSequence) × (s' : Repo) × (es ≡ e ∷ rest)
      × (heal_repo es seqs s ≡ (failed, s'))
      × (sequence_fsck s'.receive_log ≡ clean)
      × ((a : String) → is_reported a es ≡ true → sequences_of a s'.receive_log ≡ [])
      × ((a : String)
          → is_reported a es ≡ false
          → sequences_of a s'.receive_log ≡ sequences_of a s.receive_log)
      × (s'.users ≡ delete e.ref s.users)
heal_repo_lem s es seqs all b index reported =
    let (scan, done, counts) = scan_lem s.receive_log all (omega arith) in
    let result = fsck_of_scan s.receive_log scan done in
    elim (errors-cases scan.consistency_errors) [
      | inl none_found ↦
          absurd (clean_ne es seqs (sym (result ∙ report_clean scan none_found) ∙ reported))
      | inr (e, rest, found) ↦
          let same = sym reported ∙ (result ∙ report_problems scan e rest found) in
          let places = scan_places s.receive_log scan b done in
          let s' : Repo = healed s e rest scan.all_seqs places index in
          let gone = healed_reported s e rest scan.all_seqs places index in
          let kept = healed_other s e rest scan.all_seqs places index in
          let p : ℕ → Bool =
            λ j. has j (null_map (e ∷ rest) scan.all_seqs) || has j (seqs_of e.ref s.users) in
          (
            e,
            rest,
            s',
            problems_errors same,
            ap (λ x. heal_repo x seqs s) (problems_errors same)
                ∙ (ap (λ x. heal_repo (e ∷ rest) x s) (problems_places same)
                    ∙ heal_runs s e rest scan.all_seqs places index),
            (sequence_fsck_lem s'.receive_log (masked-AllRead p 0 s.receive_log all)
                  (omega (arith, length-masked p 0 s.receive_log))).0.1
                (λ a. elim (Bool-cases (is_reported a (e ∷ rest))) [
                  | inl r ↦ rw (gone a r) tt
                  | inr r ↦ rw (kept a r) ((counts a).0 (rw found r))
                ]),
            λ a r. gone a (ap (is_reported a) (sym (problems_errors same)) ∙ r),
            λ a r. kept a (ap (is_reported a) (sym (problems_errors same)) ∙ r),
            refl,
          )
    ]
  where
    clean_ne : (fs : List WrongSequence) (is : List ℕ) → clean ≢ problems fs is
    clean_ne fs is h = cc

    problems_errors :
        {fs gs : List WrongSequence} {is js : List ℕ} → problems fs is ≡ problems gs js → fs ≡ gs
    problems_errors h = cc

    problems_places :
        {fs gs : List WrongSequence} {is js : List ℕ} → problems fs is ≡ problems gs js → is ≡ js
    problems_places h = cc
