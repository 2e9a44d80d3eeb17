-- ===== src/Wants/Pour.antt =====
-- What a list of wants from a peer does.

use mathlib.Core.List.{append_assoc}
use metalife_pub.Prelude.{
  List, [], ◌∷◌, ◌++◌, Memᴰ, ◌≡◌, inl, inr, refl, sym, ap, ◌∙◌, arith, String, string_eq, pair_eq,
  bool_eq, ok, err, All, All-map, All-append, Result-cases,
}
use metalife_pub.Wants.{Size, BlobWant, WantError, Pouring, pour_one, pour_all}
use metalife_pub.Wants.Near.{IsNear, pour_one-IsNear}
use metalife_pub.Wants.Forwards.{FromOne, Forwards, pour_one-Forwards}

module _ (size : String → Size) where
  pour_all-err :
      (w : BlobWant) (ws : List BlobWant) (p : Pouring size) {e : WantError}
      → (pour_one size w p).0 ≡ err e
      → (pour_all size (w ∷ ws) p).1 ≡ (pour_one size w p).1
  unfolding pour_all
  pour_all-err w ws p e = ground arith

  pour_all-ok :
      (w : BlobWant) (ws : List BlobWant) (p : Pouring size) {u : Unit {0}}
      → (pour_one size w p).0 ≡ ok u
      → pour_all size (w ∷ ws) p ≡ pour_all size ws (pour_one size w p).1
  unfolding pour_all
  pour_all-ok w ws p e = ground arith

  pour_all-nil : (p : Pouring size) → pour_all size [] p ≡ (ok tt, p)
  unfolding pour_all
  pour_all-nil p = refl

  pour_all-IsNear' :
      (ws : List BlobWant) (p : Pouring size) → IsNear p.wmgr → IsNear (pour_all size ws p).1.wmgr
  pour_all-IsNear' [] p v = rw (pour_all-nil p) v
  pour_all-IsNear' (w ∷ ws) p v = elim (Result-cases (pour_one size w p).0) [
    | inl (e, failed) ↦ rw (pour_all-err w ws p failed) (pour_one-IsNear size w p v)
    | inr (u, done) ↦
        rw (pour_all-ok w ws p done)
          (pour_all-IsNear' ws (pour_one size w p).1 (pour_one-IsNear size w p v))
  ]

  pour_all-Forwards :
      (ws : List BlobWant) (p : Pouring size) → Forwards size ws p (pour_all size ws p).1
  pour_all-Forwards [] p = rw (pour_all-nil p) ([], refl, tt)
  pour_all-Forwards (w ∷ ws) p =
      let (xs, e, from) = pour_one-Forwards size w ws p in
      elim (Result-cases (pour_one size w p).0) [
        | inl (x, failed) ↦ rw (pour_all-err w ws p failed) (xs, e, from)
        | inr (u, done) ↦
            let (ys, e', from') = pour_all-Forwards ws (pour_one size w p).1 in
            rw (pour_all-ok w ws p done) (
              ys ++ xs,
              e' ∙ ap (λ zs. ys ++ zs) e ∙ sym (append_assoc ys xs p.wmgr.emitted),
              All-append (FromOne size (w ∷ ws)) ys xs
                  (All-map (FromOne size ws) (FromOne size (w ∷ ws))
                    (λ x (v, at, hop). (v, Memᴰ.tail at, hop)) ys from')
                  from,
            )
      ]

  -- Whatever wants a peer sends, and whether `Pour` ends in an error or not: every want that it emits
  -- is for the blob of a want that the peer sent at a distance from -4 to -1, at exactly one less. If
  -- all distances that we want at and that we have emitted are at least -5, they still are.
  pub pour_all-IsNear :
      (ws : List BlobWant) (p : Pouring size)
      → IsNear p.wmgr
      → IsNear (pour_all size ws p).1.wmgr
        × (new : List BlobWant) × ((pour_all size ws p).1.wmgr.emitted ≡ new ++ p.wmgr.emitted)
        × All (FromOne size ws) new
  pour_all-IsNear ws p v =
      let (new, e, from) = pour_all-Forwards ws p in (pour_all-IsNear' ws p v, new, e, from)
