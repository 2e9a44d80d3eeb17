-- ===== src/Wants/Near.antt =====
-- That no want is held or emitted from far off.

use metalife_pub.Prelude.{
  true, false, ltb, ◌≡◌, inl, inr, arith, Bool-cases, String, string_eq, pair_eq, bool_eq, All,
}
use metalife_pub.Prelude.Int.{ℤ, pos, negsuc, ltb_ℤ, ◌-ℤ◌, ◌≤ℤ◌}
use metalife_pub.Prelude.Int64.{to_uint64, to_int64}
use metalife_pub.GoMap.{lookup}
use metalife_pub.GoMap.Laws.{AllValues, insert-AllValues, delete-AllValues}
use metalife_pub.Wants.{
  Size, BlobWant, WantManager, is_wanted, is_blocked, wanted_higher, add_want, want_missing,
  want_with_dist, Pouring, pour_want, pour_has, pour_one,
}
use metalife_pub.Wants.Manager.{Size-cases}

-- Wants that came at most five hops.
abbrev pub Near : ℤ → Type 0
Near d = negsuc 4 ≤ℤ d

pub record IsNear (wm : WantManager) : Type 0 where
  pub wants_near : AllValues Near wm.wants
  pub emitted_near : All (λ (w : BlobWant). Near w.dist) wm.emitted

hop_less :
    (d : ℤ) → ltb_ℤ d (pos 0) ≡ true → ltb_ℤ d (negsuc 3) ≡ false → Near (to_int64 (d -ℤ pos 1))
unfolding ◌-ℤ◌
hop_less (pos n) neg near = ground arith
hop_less (negsuc n) neg near = ground arith

module _ (size : String → Size) where
  add_want-IsNear :
      (ref : String) (dist : ℤ) (wm : WantManager)
      → Near dist
      → IsNear wm
      → IsNear (add_want ref dist wm)
  unfolding add_want
  add_want-IsNear ref dist wm n v = record {
    wants_near = insert-AllValues Near ref dist wm.wants n v.wants_near;
    emitted_near = (n, v.emitted_near);
  }

  want_missing-IsNear :
      (ref : String) (dist : ℤ) (wm : WantManager)
      → Near dist
      → IsNear wm
      → IsNear (want_missing size ref dist wm).1
  unfolding want_missing
  want_missing-IsNear ref dist wm n v = elim (Bool-cases (is_blocked ref wm)) [
    | inl b ↦ rw b v
    | inr f ↦ elim (Bool-cases (wanted_higher (lookup ref wm.wants) dist)) [
      | inl h ↦ rw f (rw h v)
      | inr l ↦ rw f (rw l (add_want-IsNear ref dist wm n v))
    ]
  ]

  want_with_dist-IsNear :
      (ref : String) (dist : ℤ) (wm : WantManager)
      → Near dist
      → IsNear wm
      → IsNear (want_with_dist size ref dist wm).1
  unfolding want_with_dist
  want_with_dist-IsNear ref dist wm n v = elim (Size-cases (size ref)) [
    | inl (s, e) ↦ rw (e, want_with_dist) v
    | inr (inl e) ↦ rw (e, want_with_dist) (want_missing-IsNear ref dist wm n v)
    | inr (inr e) ↦ rw (e, want_with_dist) (want_missing-IsNear ref dist wm n v)
  ]

  pour_want-IsNear :
      (w : BlobWant) (p : Pouring size)
      → ltb_ℤ w.dist (pos 0) ≡ true
      → ltb_ℤ w.dist (negsuc 3) ≡ false
      → IsNear p.wmgr
      → IsNear (pour_want size w p).1.wmgr
  unfolding pour_want
  pour_want-IsNear w p neg near v = elim (Size-cases (size w.ref)) [
    | inl (s, e) ↦ rw (e, pour_want) v
    | inr (inl e) ↦
        rw (e, pour_want)
          (want_with_dist-IsNear w.ref (to_int64 (w.dist -ℤ pos 1)) p.wmgr
            (hop_less w.dist neg near) v)
    | inr (inr e) ↦ rw (e, pour_want) v
  ]

  pour_has-IsNear :
      (w : BlobWant) (p : Pouring size) → IsNear p.wmgr → IsNear (pour_has size w p).1.wmgr
  unfolding pour_has
  pour_has-IsNear w p v = elim (Bool-cases (is_wanted w.ref p.wmgr)) [
    | inr no_want ↦ rw no_want v
    | inl wants ↦ elim (Bool-cases (ltb p.wmgr.max_size (to_uint64 w.dist))) [
      | inl big ↦ rw wants (
          rw big (record {
            wants_near = delete-AllValues Near w.ref p.wmgr.wants v.wants_near;
            emitted_near = v.emitted_near;
          }))
      | inr fits ↦
          rw wants (rw fits (record { wants_near = v.wants_near; emitted_near = v.emitted_near }))
    ]
  ]

  pub pour_one-IsNear :
      (w : BlobWant) (p : Pouring size) → IsNear p.wmgr → IsNear (pour_one size w p).1.wmgr
  unfolding pour_one
  pour_one-IsNear w p v = elim (Bool-cases (is_blocked w.ref p.wmgr)) [
    | inl b ↦ rw b v
    | inr f ↦ elim (Bool-cases (ltb_ℤ w.dist (pos 0))) [
      | inr has ↦ rw f (rw has (pour_has-IsNear w p v))
      | inl neg ↦ elim (Bool-cases (ltb_ℤ w.dist (negsuc 3))) [
        | inl far ↦ rw f (rw neg (rw far v))
        | inr near ↦ rw f (rw neg (rw near (pour_want-IsNear w p neg near v)))
      ]
    ]
  ]
