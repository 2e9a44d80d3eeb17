-- ===== src/Wants/Manager.antt =====
-- What one want changes.

use metalife_pub.Prelude.{
  ℕ, Option, none, some, false, if◌then◌else◌, ◌≡◌, ◌≢◌, ◌⊎◌, inl, inr, refl, arith, Option-cases,
  String, eqb, eqb_iff, string_eq, pair_eq, bool_eq, ok,
}
use metalife_pub.Prelude.Int.{ℤ, ltb_ℤ}
use metalife_pub.GoMap.{lookup}
use metalife_pub.GoMap.Laws.{lookup-insert}
use metalife_pub.Wants.{
  Size, has_size, no_such_blob, size_failed, WantManager, is_blocked, want_missing, want_with_dist,
}

pub Size-cases :
    (s : Size) → ((n : ℕ) × (s ≡ has_size n)) ⊎ ((s ≡ no_such_blob) ⊎ (s ≡ size_failed))
Size-cases (has_size n) = inl (n, refl)
Size-cases no_such_blob = inr (inl refl)
Size-cases size_failed = inr (inr refl)

module _ (size : String → Size) where
  -- The distance that stands under a blob once it is wanted at `dist`: the higher one.
  abbrev pub higher : Option ℤ → ℤ → ℤ
  higher none dist = dist
  higher (some old) dist = if ltb_ℤ dist old then old else dist

  want_missing_lem :
      (ref k : String) (dist : ℤ) (wm : WantManager)
      → is_blocked ref wm ≡ false
      → ((want_missing size ref dist wm).0 ≡ ok tt)
        × (lookup k (want_missing size ref dist wm).1.wants
            ≡ (if eqb ref k then some (higher (lookup ref wm.wants) dist) else lookup k wm.wants))
  unfolding want_missing
  want_missing_lem ref k dist wm b = elim (Option-cases (lookup ref wm.wants)) [
    | inl new ↦ (ground arith, ground (arith, new, lookup-insert ref k dist wm.wants))
    | inr (old, there) ↦
        (ground arith, ground (arith, there, lookup-insert ref k dist wm.wants, eqb_iff ref k))
  ]

  asks_missing :
      (ref : String) (dist : ℤ) (wm : WantManager)
      → ((s : ℕ) → size ref ≢ has_size s)
      → want_with_dist size ref dist wm ≡ want_missing size ref dist wm
  unfolding want_with_dist
  asks_missing ref dist wm missing = elim (Size-cases (size ref)) [
    | inl (s, e) ↦ absurd (missing s e)
    | inr (inl e) ↦ rw (e, want_with_dist)
    | inr (inr e) ↦ rw (e, want_with_dist)
  ]

  -- `WantWithDist` for a blob that is not there and not blocked succeeds. Afterwards the blob is
  -- wanted at the higher one of the old and the new distance, and the other wants stay.
  pub want_with_dist_lem :
      (ref k : String) (dist : ℤ) (wm : WantManager)
      → ((s : ℕ) → size ref ≢ has_size s)
      → is_blocked ref wm ≡ false
      → ((want_with_dist size ref dist wm).0 ≡ ok tt)
        × (lookup k (want_with_dist size ref dist wm).1.wants
            ≡ (if eqb ref k then some (higher (lookup ref wm.wants) dist) else lookup k wm.wants))
  want_with_dist_lem ref k dist wm missing b =
      rw (asks_missing ref dist wm missing) (want_missing_lem ref k dist wm b)
