-- ===== src/Wants/Forwards.antt =====
-- Which wants are emitted for the wants of a peer.

use metalife_pub.Prelude.{
  List, [], ◌∷◌, ◌++◌, Memᴰ, true, false, ◌≡◌, ◌⊎◌, inl, inr, refl, arith, Bool-cases, String,
  string_eq, pair_eq, bool_eq, All,
}
use metalife_pub.Prelude.Int.{ℤ, pos, negsuc, ltb_ℤ, ◌+ℤ◌, ◌-ℤ◌, ◌≤ℤ◌}
use metalife_pub.Prelude.Int64.{to_int64}
use metalife_pub.GoMap.{lookup}
use metalife_pub.Wants.{
  Size, BlobWant, WantManager, is_blocked, wanted_higher, add_want, want_missing, want_with_dist,
  Pouring, pour_want, pour_has, pour_one,
}
use metalife_pub.Wants.Manager.{Size-cases}

-- `x` is what the want `w` of a peer is forwarded as: for the same blob, one hop further.
abbrev pub Hop : BlobWant → BlobWant → Type 0
Hop w x = (x.ref ≡ w.ref) × (negsuc 3 ≤ℤ w.dist) × (w.dist ≤ℤ negsuc 0) × (x.dist +ℤ pos 1 ≡ w.dist)

one_hop :
    (d : ℤ)
    → ltb_ℤ d (pos 0) ≡ true
    → ltb_ℤ d (negsuc 3) ≡ false
    → (negsuc 3 ≤ℤ d) × (d ≤ℤ negsuc 0) × (to_int64 (d -ℤ pos 1) +ℤ pos 1 ≡ d)
unfolding ◌-ℤ◌ ◌+ℤ◌
one_hop (pos n) neg near = absurd (ground arith)
one_hop (negsuc n) neg near = (ground arith, ground arith, ground arith)

-- A call that emitted nothing, or this one want.
abbrev Emits : String → ℤ → WantManager → WantManager → Type 0
Emits ref dist wm wm' =
    (wm'.emitted ≡ wm.emitted) ⊎ (wm'.emitted ≡ record { ref = ref; dist = dist } ∷ wm.emitted)

module _ (size : String → Size) where
  want_missing-Emits :
      (ref : String) (dist : ℤ) (wm : WantManager)
      → Emits ref dist wm (want_missing size ref dist wm).1
  unfolding want_missing add_want
  want_missing-Emits ref dist wm = elim (Bool-cases (is_blocked ref wm)) [
    | inl b ↦ rw b (inl refl)
    | inr f ↦ elim (Bool-cases (wanted_higher (lookup ref wm.wants) dist)) [
      | inl h ↦ rw f (rw h (inl refl))
      | inr l ↦ rw f (rw l (inr refl))
    ]
  ]

  want_with_dist-Emits :
      (ref : String) (dist : ℤ) (wm : WantManager)
      → Emits ref dist wm (want_with_dist size ref dist wm).1
  unfolding want_with_dist
  want_with_dist-Emits ref dist wm = elim (Size-cases (size ref)) [
    | inl (s, e) ↦ rw (e, want_with_dist) (inl refl)
    | inr (inl e) ↦ rw (e, want_with_dist) (want_missing-Emits ref dist wm)
    | inr (inr e) ↦ rw (e, want_with_dist) (want_missing-Emits ref dist wm)
  ]

  -- A want that is forwarded from one of `ws`.
  abbrev pub FromOne : List BlobWant → BlobWant → Type 0
  FromOne ws x = (w : BlobWant) × Memᴰ w ws × Hop w x

  -- The wants that a call emitted, each forwarded from one of `ws`.
  abbrev pub Forwards : List BlobWant → Pouring size → Pouring size → Type 0
  Forwards ws p p' =
      (new : List BlobWant) × (p'.wmgr.emitted ≡ new ++ p.wmgr.emitted) × All (FromOne ws) new

  pour_want-Forwards :
      (w : BlobWant) (ws : List BlobWant) (p : Pouring size)
      → ltb_ℤ w.dist (pos 0) ≡ true
      → ltb_ℤ w.dist (negsuc 3) ≡ false
      → Forwards (w ∷ ws) p (pour_want size w p).1
  unfolding pour_want
  pour_want-Forwards w ws p neg near = elim (Size-cases (size w.ref)) [
    | inl (s, e) ↦ rw (e, pour_want) ([], refl, tt)
    | inr (inr e) ↦ rw (e, pour_want) ([], refl, tt)
    | inr (inl e) ↦
        let dist = to_int64 (w.dist -ℤ pos 1) in
        let near_hop = one_hop w.dist neg near in
        elim (want_with_dist-Emits w.ref dist p.wmgr) [
          | inl same ↦ rw (e, pour_want) ([], same, tt)
          | inr more ↦
              rw (e, pour_want)
                (
                  record { ref = w.ref; dist = dist } ∷ [],
                  more,
                  ((w, Memᴰ.head refl, (refl, near_hop.0, near_hop.1, near_hop.2)), tt),
                )
        ]
  ]

  pub pour_one-Forwards :
      (w : BlobWant) (ws : List BlobWant) (p : Pouring size)
      → Forwards (w ∷ ws) p (pour_one size w p).1
  unfolding pour_one pour_has
  pour_one-Forwards w ws p = elim (Bool-cases (is_blocked w.ref p.wmgr)) [
    | inl b ↦ rw b ([], refl, tt)
    | inr f ↦ elim (Bool-cases (ltb_ℤ w.dist (pos 0))) [
      | inr has ↦ ([], ground (arith, f, has), tt)
      | inl neg ↦ elim (Bool-cases (ltb_ℤ w.dist (negsuc 3))) [
        | inl far ↦ rw f (rw neg (rw far ([], refl, tt)))
        | inr near ↦ rw f (rw neg (rw near (pour_want-Forwards w ws p neg near)))
      ]
    ]
  ]
