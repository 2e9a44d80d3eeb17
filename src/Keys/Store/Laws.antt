-- ===== src/Keys/Store/Laws.antt =====
-- What the key store holds after each operation.

use metalife_pub.Prelude.{
  ℕ, ◌<◌, List, [], ◌∷◌, ◌++◌, some, true, false, ◌≡◌, ◌≢◌, inl, inr, refl, sym, ap, ◌∙◌, arith,
  Bool-cases, Option-cases, All, eqb, eqb_iff, eqb_refl, eqb_ne, string_eq, pair_eq, bool_eq,
  length, list_eq, nat_eq, Result, ok, err,
}
use metalife_pub.Keys.{KeyScheme, IdxKey, is_valid, marshal_binary, KeyError, no_such_key}
use metalife_pub.Keys.Codec.{unmarshal_binary-marshal_binary, marshal_binary_injective}
use metalife_pub.Keys.Store.{
  Recipient, SetterIndex, remove_first, read_keys, get_keys, at_address, write_keys, add_key,
  add_after, remove_after, set_key, rm_key,
}

-- A scheme and an id that an index key can be made of.
pub record IsKey (ks : KeyScheme) (id : List ℕ) : Type 0 where
  pub valid : is_valid ks ≡ true
  pub fits : length id < 65536

remove_first_lem :
    (key : List ℕ) (recps rest : List Recipient)
    → remove_first key recps ≡ some rest
    → (pre post : List Recipient) × (x : Recipient) × (recps ≡ pre ++ x ∷ post)
      × (x.key ≡ key)
      × All (λ y. y.key ≢ key) pre
      × (rest ≡ pre ++ post)
unfolding remove_first
remove_first_lem key [] rest h = cc
remove_first_lem key (r ∷ recps) rest h = elim (Bool-cases (eqb r.key key)) [
  | inl same ↦ ([], recps, r, refl, (eqb_iff r.key key).0 same, tt, ground (arith, same))
  | inr other ↦ elim (Option-cases (remove_first key recps)) [
    | inl missing ↦ absurd (ground (arith, other, missing))
    | inr (rest', found) ↦
        let (pre, post, x, was, has_key, free, left) = remove_first_lem key recps rest' found in
        (
          r ∷ pre,
          post,
          x,
          ap (λ l. r ∷ l) was,
          has_key,
          ((λ e. ground (arith, other, eqb_iff r.key key)), free),
          (let e : rest ≡ r ∷ rest' = ground (arith, other, found) in e) ∙ ap (λ l. r ∷ l) left,
        )
  ]
]

module _ (index : SetterIndex) where
  open index use {Db, get, set_value, delete_value, get-set_value, get-delete_value}

  get_keys_at :
      (ks : KeyScheme) (id addr : List ℕ) (db : Db)
      → is_valid ks ≡ true
      → marshal_binary (record { ks = ks; id = id }) ≡ ok addr
      → get_keys index ks id db ≡ read_keys index addr db
  unfolding get_keys
  get_keys_at ks id addr db v m = ground arith

  -- That all other keys have what they had.
  abbrev pub Others : KeyScheme → List ℕ → Db → Db → Type 0
  Others ks id db db' =
      (ks' : KeyScheme) (id' : List ℕ)
      → IsKey ks' id'
      → ◌≢◌ {A = IdxKey} (record { ks = ks; id = id }) (record { ks = ks'; id = id' })
      → get_keys index ks' id' db' ≡ get_keys index ks' id' db

  addresses_differ :
      (k j : IdxKey) (a b : List ℕ)
      → IsKey k.ks k.id
      → IsKey j.ks j.id
      → marshal_binary k ≡ ok a
      → marshal_binary j ≡ ok b
      → k ≢ j
      → eqb a b ≡ false
  addresses_differ k j a b hk hj ma mb ne = eqb_ne a b (λ e.
      ne (marshal_binary_injective k j hk.valid hj.valid hk.fits hj.fits (ma ∙ ap ok e ∙ sym mb)))

  read_found :
      (addr : List ℕ) (recps : List Recipient) (db : Db)
      → get db addr ≡ some (some recps)
      → read_keys index addr db ≡ ok recps
  unfolding read_keys
  read_found addr recps db h = ground arith

  read_same :
      (addr : List ℕ) (db db' : Db)
      → get db' addr ≡ get db addr
      → read_keys index addr db' ≡ read_keys index addr db
  unfolding read_keys
  read_same addr db db' h = rw (h, read_keys)

  write_keys_lem :
      (ks : KeyScheme) (id : List ℕ) (recps : List Recipient) (db db' : Db)
      → IsKey ks id
      → write_keys index ks id recps db ≡ (ok tt, db')
      → (get_keys index ks id db' ≡ ok recps) × Others ks id db db'
  unfolding write_keys
  write_keys_lem ks id recps db db' h w =
      let (addr, m, _) =
        unmarshal_binary-marshal_binary (record { ks = ks; id = id }) h.valid h.fits in
      let wrote : set_value db addr recps ≡ some db' =
        set_of_at_address addr recps db db'
          (ap (λ a. at_address index a (λ b. set_value db b recps) db) (sym m) ∙ w) in
      (
        get_keys_at ks id addr db' h.valid m
            ∙ read_found addr recps db'
                (get-set_value db db' addr addr recps wrote ∙ rw (eqb_refl addr)),
        λ ks' id' h' ne.
            let (addr', m', _) =
              unmarshal_binary-marshal_binary (record { ks = ks'; id = id' }) h'.valid h'.fits in
            let differ =
              addresses_differ (record { ks = ks; id = id }) (record { ks = ks'; id = id' }) addr
                addr' h h' m m' ne in
            get_keys_at ks' id' addr' db' h'.valid m'
            ∙ read_same addr' db db' (get-set_value db db' addr addr' recps wrote ∙ rw differ)
            ∙ sym (get_keys_at ks' id' addr' db h'.valid m'),
      )
    where
      set_of_at_address :
          (addr : List ℕ) (recps : List Recipient) (db db' : Db)
          → at_address index (ok addr) (λ b. set_value db b recps) db ≡ (ok tt, db')
          → set_value db addr recps ≡ some db'
      set_of_at_address addr recps db db' e = ground arith

  -- `SetKey` without an error: the recipient is the only one under its scheme and the id, and what
  -- is under another key stays.
  pub set_key_lem :
      (id : List ℕ) (r : Recipient) (db db' : Db)
      → IsKey r.scheme id
      → set_key index id r db ≡ (ok tt, db')
      → (get_keys index r.scheme id db' ≡ ok (r ∷ [])) × Others r.scheme id db db'
  set_key_lem id r db db' h w =
      write_keys_lem r.scheme id (r ∷ []) db db' h (unfold set_key in ground (arith, h.valid))

  abbrev pub known : Result KeyError (List Recipient) → List Recipient
  known (ok recps) = recps
  known (err e) = []

  add_after-known :
      (id : List ℕ) (r : Recipient) (found : Result KeyError (List Recipient)) (db db' : Db)
      → add_after index id r found db ≡ (ok tt, db')
      → write_keys index r.scheme id (known found ++ r ∷ []) db ≡ (ok tt, db')
  unfolding add_after
  add_after-known id r (ok recps) db db' h = h
  add_after-known id r (err no_such_key) db db' h = h
  add_after-known id r (err _) db db' h = cc

  remove_after-known :
      (ks : KeyScheme) (id key : List ℕ) (found : Result KeyError (List Recipient)) (db db' : Db)
      → remove_after index ks id key found db ≡ (ok tt, db')
      → (before rest : List Recipient) × (found ≡ ok before)
        × (remove_first key before ≡ some rest)
        × (write_keys index ks id rest db ≡ (ok tt, db'))
  unfolding remove_after
  remove_after-known ks id key (err e) db db' h = cc
  remove_after-known ks id key (ok recps) db db' h = elim (Option-cases (remove_first key recps)) [
    | inl missing ↦ absurd (ground arith)
    | inr (rest, found) ↦ (recps, rest, refl, found, ground arith)
  ]

  -- `AddKey` without an error: the recipients under its scheme and the id, none if there were none,
  -- are followed by the new one, and what is under another key stays.
  pub add_key_lem :
      (id : List ℕ) (r : Recipient) (db db' : Db)
      → IsKey r.scheme id
      → add_key index id r db ≡ (ok tt, db')
      → (get_keys index r.scheme id db' ≡ ok (known (get_keys index r.scheme id db) ++ r ∷ []))
        × Others r.scheme id db db'
  add_key_lem id r db db' h w =
      write_keys_lem r.scheme id (known (get_keys index r.scheme id db) ++ r ∷ []) db db' h (
        add_after-known id r (get_keys index r.scheme id db) db db'
          (unfold add_key in ground (arith, h.valid)))

  -- `RmKey` without an error: the recipients were a list in which one has the key and none before it
  -- does. It is gone, those before and after it stay in their order, and so does what is under
  -- another key.
  pub rm_key_lem :
      (ks : KeyScheme) (id : List ℕ) (rm : Recipient) (db db' : Db)
      → IsKey ks id
      → rm_key index ks id rm db ≡ (ok tt, db')
      → (pre post : List Recipient) × (x : Recipient) × (get_keys index ks id db
          ≡ ok (pre ++ x ∷ post))
        × (x.key ≡ rm.key)
        × All (λ y. y.key ≢ rm.key) pre
        × (get_keys index ks id db' ≡ ok (pre ++ post))
        × Others ks id db db'
  rm_key_lem ks id rm db db' h w =
      let (before, rest, found, removed, wrote) =
        remove_after-known ks id rm.key (get_keys index ks id db) db db' (unfold rm_key in w) in
      let (now, others) = write_keys_lem ks id rest db db' h wrote in
      let (pre, post, x, was, has_key, free, left) = remove_first_lem rm.key before rest removed in
      (pre, post, x, found ∙ ap (λ l. ok l) was, has_key, free, now ∙ ap (λ l. ok l) left, others)
