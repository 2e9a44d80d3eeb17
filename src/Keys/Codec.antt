-- ===== src/Keys/Codec.antt =====
-- An index key read back from its binary form.
use mathlib.Core.List.{append-nil}
use metalife_pub.Prelude.{
  ℕ, ◌+◌, ◌*◌, ◌/◌, ◌%◌, ◌<◌, ◌≤◌, List, [], ◌∷◌, ◌++◌, Bool, true, false, ltb, ◌||◌, ◌≡◌, ◌⊎◌, inl,
  inr, refl, sym, ap, subst, ◌∙◌, arith, eqb, eqb_iff, string_eq, pair_eq, bool_eq, length, take,
  drop, replicate, list_eq, nat_eq, Result, ok, take-append, drop-append, length-append,
  length-replicate,
}
use metalife_pub.Keys.{
  KeyScheme, is_valid, IdxKey, KeyError, put_uint16, marshal_binary, unmarshal_binary,
  scheme_large_symmetric_group, scheme_diffie_style_converted_ed25519,
  scheme_feed_message_signing_key, scheme_metafeed_subkey, unmarshal_id, copy,
}

one_of_four :
    (a b c d : Bool)
    → (a || b || c || d) ≡ true
    → (a ≡ true) ⊎ ((b ≡ true) ⊎ ((c ≡ true) ⊎ (d ≡ true)))
one_of_four a b c d h = ground arith

length_of_scheme :
    (ks scheme : KeyScheme) → length scheme < 65536 → eqb ks scheme ≡ true → length ks < 65536
length_of_scheme ks scheme b h = subst (λ s. length s < 65536) (sym ((eqb_iff ks scheme).0 h)) b

length-is_valid : (ks : KeyScheme) → is_valid ks ≡ true → length ks < 65536
unfolding is_valid
length-is_valid ks h = elim (one_of_four _ _ _ _ h) [
  | inl e ↦ length_of_scheme ks scheme_large_symmetric_group (omega arith) e
  | inr (inl e) ↦ length_of_scheme ks scheme_diffie_style_converted_ed25519 (omega arith) e
  | inr (inr (inl e)) ↦ length_of_scheme ks scheme_feed_message_signing_key (omega arith) e
  | inr (inr (inr e)) ↦ length_of_scheme ks scheme_metafeed_subkey (omega arith) e
]

take_all : (xs : List ℕ) → take (length xs) xs ≡ xs
take_all [] = refl
take_all (x ∷ xs) = ap (λ l. x ∷ l) (take_all xs)

drop_all : (xs ys : List ℕ) → length ys ≤ length xs → drop (length xs) ys ≡ []
drop_all [] [] h = refl
drop_all [] (y ∷ ys) h = absurd (omega arith)
drop_all (x ∷ xs) [] h = refl
drop_all (x ∷ xs) (y ∷ ys) h = drop_all xs ys (omega arith)

copy_all : (room id : List ℕ) → length room ≡ length id → copy room id ≡ id
copy_all room id h = rw h (rw (take_all id) (rw (drop_all id room (omega arith)) (append-nil id)))

unmarshal_id-append :
    (ks : KeyScheme) (id : List ℕ)
    → length id < 65536
    → unmarshal_id ks [] (put_uint16 (length id) ++ id) ≡ ok (record { ks = ks; id = id })
unfolding unmarshal_id
unmarshal_id-append ks [] h = refl
unmarshal_id-append ks (x ∷ id) h =
    let all = x ∷ id in
    let len : length all % 256 + 256 * (length all / 256 % 256) ≡ length all = omega arith in
    let filled = copy_all (replicate (length all) 0) all (length-replicate (length all) 0) in
    let room : ltb (length all) (length all) ≡ false = ground arith in
    let fresh : ltb 0 (length all) ≡ true = ground arith in
    rw len (ground (arith, room, fresh, filled))

-- A valid key whose id has at most 65535 bytes is read back from its binary form, into a fresh key.
pub unmarshal_binary-marshal_binary :
    (k : IdxKey)
    → is_valid k.ks ≡ true
    → length k.id < 65536
    → (bytes : List ℕ) × (marshal_binary k ≡ ok bytes) × (unmarshal_binary [] bytes ≡ ok k)
unfolding marshal_binary unmarshal_binary
unmarshal_binary-marshal_binary k v h =
    let l = length k.ks in
    let tail = put_uint16 (length k.id) ++ k.id in
    let len : l % 256 + 256 * (l / 256 % 256) ≡ l = omega (arith, length-is_valid k.ks v) in
    (
      put_uint16 l ++ (k.ks ++ tail),
      rw v,
      rw len (
          ground (
            arith,
            length-append k.ks tail,
            take-append k.ks tail,
            drop-append k.ks tail,
            unmarshal_id-append k.ks k.id h,
          )),
    )

-- Two valid keys with ids of at most 65535 bytes and the same binary form are the same key.
pub marshal_binary_injective :
    (k j : IdxKey)
    → is_valid k.ks ≡ true
    → is_valid j.ks ≡ true
    → length k.id < 65536
    → length j.id < 65536
    → marshal_binary k ≡ marshal_binary j
    → k ≡ j
marshal_binary_injective k j vk vj lk lj h =
    let (bk, mk, uk) = unmarshal_binary-marshal_binary k vk lk in
    let (bj, mj, uj) = unmarshal_binary-marshal_binary j vj lj in
    let same : bk ≡ bj = ok_injective bk bj (sym mk ∙ h ∙ mj) in
    key_injective k j (sym uk ∙ ap (unmarshal_binary []) same ∙ uj)
  where
    ok_injective : (a b : List ℕ) → ◌≡◌ {A = Result KeyError (List ℕ)} (ok a) (ok b) → a ≡ b
    ok_injective a b h = cc

    key_injective : (a b : IdxKey) → ◌≡◌ {A = Result KeyError IdxKey} (ok a) (ok b) → a ≡ b
    key_injective a b h = cc
