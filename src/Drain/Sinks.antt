-- ===== src/Drain/Sinks.antt =====
-- The sinks that the verification router hands out.

use metalife_pub.Prelude.{
  ℕ, Bool, Bool-cases, Result-cases, or_else, nat_eq, [], Option, none, some, ◌≡◌, ◌⊎◌, inl, inr,
  refl, sym, subst, ◌∙◌, arith, Option-cases, String, string_eq, pair_eq, bool_eq, ok,
}
use metalife_pub.GoMap.{lookup, insert}
use metalife_pub.GoMap.Laws.{lookup-insert_self}
use metalife_pub.Drain.{
  is_valid_feed_format, Message, Verifier, Drain, Router, get_sink, get_latest_msg, new_verify_sink,
  first_message, verify_at,
}
use metalife_pub.Refs.{Refs}
use metalife_pub.Drain.Feed.{newest, Chain, begin, IsSound}

fresh-IsSound :
    (ld : Drain)
    → ld.saved ≡ []
    → ((m : Message) → ld.latest_msg ≡ some m → ld.latest_seq ≡ m.seq)
    → IsSound ld.latest_msg ld
fresh-IsSound ld e q = record {
  chain = subst (Chain ld.latest_msg) (sym e) begin;
  latest = subst (λ l. ld.latest_msg ≡ newest ld.latest_msg l) (sym e) refl;
  numbered = q;
}

new_sink :
    (r : Refs) (ref : r.Feed) (msg : Message) (ld : Drain)
    → new_verify_sink r ref msg ≡ ok ld
    → (ld.who ≡ r.string ref)
      × (ld.saved ≡ [])
      × (ld.latest_msg ≡ some msg)
      × (ld.latest_seq ≡ msg.seq)
unfolding new_verify_sink
new_sink r ref msg ld h = ground arith

sinks-verify_at :
    {Raw : Type 0} (verify_bytes : Verifier → Raw → Option Message) (p : ℕ) (save_works : Bool)
    (msg : Raw) (s : Router)
    → (verify_at verify_bytes p save_works msg s).sinks ≡ s.sinks
unfolding verify_at
sinks-verify_at verify_bytes p save_works msg s = elim (Option-cases (lookup p s.drains)) [
  | inl missing ↦ ground (arith, missing)
  | inr (ld, found) ↦ ground (arith, found)
]

module _ (r : Refs) (stored : String → Option (Option Message)) where
  open r use {Feed, string, algo}

  new_one :
      (ref : Feed) (s s' : Router) (p : ℕ)
      → lookup (string ref) s.sinks ≡ none
      → get_sink r stored ref s ≡ (ok p, s')
      → (o : Option Message) × (msg : Message) × (ld : Drain) × (stored (string ref) ≡ some o)
        × (or_else o (some (first_message (string ref))) ≡ some msg)
        × (new_verify_sink r ref msg ≡ ok ld)
        × (p ≡ s.made)
        × (s'.sinks ≡ insert (string ref) s.made s.sinks)
        × (s'.drains ≡ insert s.made ld s.drains)
  unfolding get_sink get_latest_msg
  new_one ref s s' p missing h = elim (Bool-cases (is_valid_feed_format r (algo ref))) [
    | inr unknown ↦ absurd (ground (arith, missing))
    | inl known ↦ elim (Option-cases (stored (string ref))) [
      | inl unreadable ↦ absurd (ground (arith, missing))
      | inr (none, there) ↦
          let msg = first_message (string ref) in
          let (ld, new, p_eq, sinks, drains) =
            makes ref msg s s' p missing h (ground (arith, known, there)) in
          (none, msg, ld, there, refl, new, p_eq, sinks, drains)
      | inr (some msg, there) ↦
          let (ld, new, p_eq, sinks, drains) =
            makes ref msg s s' p missing h (ground (arith, known, there)) in
          (some msg, msg, ld, there, refl, new, p_eq, sinks, drains)
    ]
  ]
    where
      makes :
          (ref : Feed) (msg : Message) (s s' : Router) (p : ℕ)
          → lookup (string ref) s.sinks ≡ none
          → get_sink r stored ref s ≡ (ok p, s')
          → get_latest_msg r stored ref ≡ some msg
          → (ld : Drain) × (new_verify_sink r ref msg ≡ ok ld)
            × (p ≡ s.made)
            × (s'.sinks ≡ insert (string ref) s.made s.sinks)
            × (s'.drains ≡ insert s.made ld s.drains)
      makes ref msg s s' p missing h loaded = elim (Result-cases (new_verify_sink r ref msg)) [
        | inl (e, failed) ↦ absurd (ground (arith, missing, failed))
        | inr (ld, made) ↦ (
          ld,
          made,
          ground (arith, missing, made),
          ground (arith, missing, made),
          ground (arith, missing, made),
        )
      ]

  -- A sink that `GetSink` hands out is kept: asking again for the same author gives the same one and
  -- changes nothing, also after it has verified a message. If there was none, the new one is for the
  -- author and the latest message that is stored of it, or for an empty feed if none is stored, and
  -- has saved nothing, so what it saves from then on is sound.
  pub get_sink_lem :
      {Raw : Type 0} (verify_bytes : Verifier → Raw → Option Message) (save_works : Bool)
      (msg : Raw) (ref : Feed) (s s' : Router) (p : ℕ)
      → get_sink r stored ref s ≡ (ok p, s')
      → (get_sink r stored ref s' ≡ (ok p, s'))
        × (get_sink r stored ref (verify_at verify_bytes p save_works msg s')
            ≡ (ok p, verify_at verify_bytes p save_works msg s'))
        × ((lookup (string ref) s.sinks ≡ some p)
            ⊎ ((o : Option Message) × (ld : Drain) × (lookup (string ref) s.sinks ≡ none)
                × (lookup p s'.drains ≡ some ld)
                × (ld.who ≡ string ref)
                × (stored (string ref) ≡ some o)
                × (ld.latest_msg ≡ or_else o (some (first_message (string ref))))
                × (ld.saved ≡ [])
                × IsSound ld.latest_msg ld))
  get_sink_lem verify_bytes save_works msg ref s s' p h =
      let kept : lookup (string ref) s'.sinks ≡ some p =
        elim (Option-cases (lookup (string ref) s.sinks)) [
          | inr (snk, found) ↦ unfold get_sink in ground arith
          | inl missing ↦
              let (o, m, ld, _, _, _, p_eq, sinks, _) = new_one ref s s' p missing h in
              ground (arith, lookup-insert_self (string ref) s.made s.sinks)
        ] in
      (
        unfold get_sink in ground (arith, kept),
        unfold get_sink in ground (arith, kept, sinks-verify_at verify_bytes p save_works msg s'),
        elim (Option-cases (lookup (string ref) s.sinks)) [
          | inr (snk, found) ↦ inl (unfold get_sink in ground arith)
          | inl missing ↦
              let (o, m, ld, there, latest, new, p_eq, _, drains) = new_one ref s s' p missing h in
              let (who, empty, latest', seq) = new_sink r ref m ld new in
              inr (
                o,
                ld,
                missing,
                ground (arith, lookup-insert_self s.made ld s.drains),
                who,
                there,
                latest' ∙ sym latest,
                empty,
                fresh-IsSound ld empty (λ x e. ground arith),
              )
        ],
      )
