-- ===== src/Gossip/Limits.antt =====
-- The two parts of a request.
use metalife_pub.Prelude.{
  ◌≡◌, true, false, if◌then◌else◌, arith, ap, sym, ◌∙◌, Bool-cases, inl, inr,
}
use metalife_pub.Prelude.Int.{ℤ, pos, negsuc, ◌+ℤ◌, ◌-ℤ◌, ◌=ℤ◌, ◌≤ℤ◌, ltb_ℤ}
use metalife_pub.Prelude.Int64.{to_int64}
use metalife_pub.Gossip.{CreateHistArgs, last_seq, nonlive_limit, live_limit}

-- A number far from the ends of an int64.
abbrev pub IsSmall : ℤ → Type 0
IsSmall i = (negsuc 0 ≤ℤ i) × (i ≤ℤ pos 4611686018427387903)

wrap_small :
    (a : ℤ) → negsuc 9223372036854775807 ≤ℤ a → a ≤ℤ pos 9223372036854775807 → to_int64 a ≡ a
wrap_small (pos n) h k = ground arith
wrap_small (negsuc n) h k = ground arith

last_seq_lem :
    (arg : CreateHistArgs)
    → IsSmall arg.seq
    → IsSmall arg.limit
    → last_seq arg ≡ arg.seq +ℤ arg.limit -ℤ pos 1
unfolding last_seq ◌+ℤ◌ ◌-ℤ◌
last_seq_lem arg a b =
    rw (wrap_small (arg.seq +ℤ arg.limit) (ground arith) (ground arith))
      (wrap_small (arg.seq +ℤ arg.limit -ℤ pos 1) (ground arith) (ground arith))

pub nonlive_limit_lem :
    (arg : CreateHistArgs) (cur : ℤ)
    → IsSmall arg.seq
    → IsSmall arg.limit
    → IsSmall cur
    → (arg.limit =ℤ negsuc 0) ≡ false
    → nonlive_limit arg cur
      ≡ (if ltb_ℤ cur (arg.seq +ℤ arg.limit -ℤ pos 1) then cur -ℤ arg.seq +ℤ pos 1 else arg.limit)
unfolding nonlive_limit
nonlive_limit_lem arg cur a b c all =
    elim (Bool-cases (ltb_ℤ cur (arg.seq +ℤ arg.limit -ℤ pos 1))) [
      | inl more ↦ ground (
        arith,
        more,
        last_seq_lem arg a b,
        wrap_small (cur -ℤ arg.seq) (unfold ◌-ℤ◌ in ground arith) (unfold ◌-ℤ◌ in ground arith),
        wrap_small (cur -ℤ arg.seq +ℤ pos 1) (unfold ◌-ℤ◌ ◌+ℤ◌ in ground arith)
            (unfold ◌-ℤ◌ ◌+ℤ◌ in ground arith),
      )
      | inr enough ↦
          let whole : arg.seq +ℤ arg.limit -ℤ pos 1 -ℤ arg.seq +ℤ pos 1 ≡ arg.limit =
            unfold ◌-ℤ◌ ◌+ℤ◌ in ground arith in
          ground (
            arith,
            enough,
            last_seq_lem arg a b,
            whole,
            wrap_small (arg.seq +ℤ arg.limit -ℤ pos 1 -ℤ arg.seq) (unfold ◌-ℤ◌ ◌+ℤ◌ in ground arith)
                (unfold ◌-ℤ◌ ◌+ℤ◌ in ground arith),
            wrap_small (arg.seq +ℤ arg.limit -ℤ pos 1 -ℤ arg.seq +ℤ pos 1)
                (unfold ◌-ℤ◌ ◌+ℤ◌ in ground arith) (unfold ◌-ℤ◌ ◌+ℤ◌ in ground arith),
          )
    ]

next_start : (a c : ℤ) → a -ℤ (c +ℤ pos 1) +ℤ pos 1 ≡ a -ℤ c
unfolding ◌-ℤ◌ ◌+ℤ◌
next_start a c = ground arith

none_left : (a c : ℤ) → ltb_ℤ a c ≡ false → ltb_ℤ c a ≡ false → a -ℤ c ≡ pos 0
unfolding ◌-ℤ◌
none_left a c h k = ground arith

-- The bounds of `last_seq`.
abbrev IsLast : ℤ → Type 0
IsLast a = (negsuc 2 ≤ℤ a) × (a ≤ℤ pos 9223372036854775805)

add_of_small : (s l : ℤ) → IsSmall s → IsSmall l → IsLast (s +ℤ l -ℤ pos 1)
unfolding ◌-ℤ◌ ◌+ℤ◌
add_of_small s l h k = (ground arith, ground arith)

wrap_live : (a c : ℤ) → IsLast a → IsSmall c → to_int64 (a -ℤ (c +ℤ pos 1)) ≡ a -ℤ (c +ℤ pos 1)
unfolding ◌-ℤ◌ ◌+ℤ◌
wrap_live a c h k = wrap_small (a -ℤ (c +ℤ pos 1)) (ground arith) (ground arith)

wrap_rest : (a c : ℤ) → IsLast a → IsSmall c → to_int64 (a -ℤ c) ≡ a -ℤ c
unfolding ◌-ℤ◌
wrap_rest a c h k = wrap_small (a -ℤ c) (ground arith) (ground arith)

wrap_start : (c : ℤ) → IsSmall c → to_int64 (c +ℤ pos 1) ≡ c +ℤ pos 1
unfolding ◌+ℤ◌
wrap_start c h = wrap_small (c +ℤ pos 1) (ground arith) (ground arith)

abbrev pub live_part : ℤ → ℤ → ℤ
live_part a c = if ltb_ℤ c a then a -ℤ c else pos 0

live_from_last :
    (a c : ℤ)
    → IsLast a
    → IsSmall c
    → (if ltb_ℤ a c then pos 0 else to_int64 (to_int64 (a -ℤ to_int64 (c +ℤ pos 1)) +ℤ pos 1))
      ≡ live_part a c
live_from_last a c h k =
    let value : to_int64 (to_int64 (a -ℤ to_int64 (c +ℤ pos 1)) +ℤ pos 1) ≡ a -ℤ c =
      ap (λ x. to_int64 (to_int64 (a -ℤ x) +ℤ pos 1)) (wrap_start c k)
      ∙ (ap (λ x. to_int64 (x +ℤ pos 1)) (wrap_live a c h k)
          ∙ (ap to_int64 (next_start a c) ∙ wrap_rest a c h k)) in
    elim (Bool-cases (ltb_ℤ a c)) [
      | inl less ↦ ground arith
      | inr reaches ↦ elim (Bool-cases (ltb_ℤ c a)) [
        | inl more ↦ rw reaches (rw more value)
        | inr same ↦ rw reaches (rw same (value ∙ none_left a c reaches same))
      ]
    ]

pub live_limit_lem :
    (arg : CreateHistArgs) (cur : ℤ)
    → IsSmall arg.seq
    → IsSmall arg.limit
    → IsSmall cur
    → (arg.limit =ℤ negsuc 0) ≡ false
    → live_limit arg cur ≡ live_part (arg.seq +ℤ arg.limit -ℤ pos 1) cur
unfolding live_limit ◌-ℤ◌
live_limit_lem arg cur a b c all =
    rw (all, live_limit)
      (rw (last_seq_lem arg a b)
        (live_from_last (arg.seq +ℤ arg.limit -ℤ pos 1) cur (add_of_small arg.seq arg.limit a b) c))

abbrev pub nonlive_part : CreateHistArgs → ℤ → ℤ
nonlive_part arg cur =
    if ltb_ℤ cur (arg.seq +ℤ arg.limit -ℤ pos 1) then cur -ℤ arg.seq +ℤ pos 1 else arg.limit

one_less : (c s : ℤ) → c -ℤ s +ℤ pos 1 ≡ c -ℤ (s -ℤ pos 1)
unfolding ◌-ℤ◌ ◌+ℤ◌
one_less c s = ground arith

telescope : (u last c : ℤ) → c -ℤ u +ℤ (last -ℤ c) ≡ last -ℤ u
unfolding ◌-ℤ◌ ◌+ℤ◌
telescope (pos u) (pos l) (pos c) = ground arith
telescope (pos u) (pos l) (negsuc c) = ground arith
telescope (pos u) (negsuc l) (pos c) = ground arith
telescope (pos u) (negsuc l) (negsuc c) = ground arith
telescope (negsuc u) (pos l) (pos c) = ground arith
telescope (negsuc u) (pos l) (negsuc c) = ground arith
telescope (negsuc u) (negsuc l) (pos c) = ground arith
telescope (negsuc u) (negsuc l) (negsuc c) = ground arith

through : (s last c : ℤ) → c -ℤ s +ℤ pos 1 +ℤ (last -ℤ c) ≡ last -ℤ s +ℤ pos 1
through s last c =
    ap (λ x. x +ℤ (last -ℤ c)) (one_less c s)
    ∙ (telescope (s -ℤ pos 1) last c ∙ sym (one_less last s))

whole : (s l : ℤ) → s +ℤ l -ℤ pos 1 -ℤ s +ℤ pos 1 ≡ l
unfolding ◌-ℤ◌ ◌+ℤ◌
whole s l = ground arith

sum_parts : (s l c : ℤ) → c -ℤ s +ℤ pos 1 +ℤ (s +ℤ l -ℤ pos 1 -ℤ c) ≡ l
sum_parts s l c = through s (s +ℤ l -ℤ pos 1) c ∙ whole s l

plus_zero : (l : ℤ) → l +ℤ pos 0 ≡ l
unfolding ◌+ℤ◌
plus_zero l = ground arith

left_over : (a c : ℤ) → ltb_ℤ c a ≡ true → pos 0 ≤ℤ a -ℤ c
unfolding ◌-ℤ◌
left_over a c h = ground arith

in_log : (s c : ℤ) → s ≤ℤ c +ℤ pos 1 → pos 0 ≤ℤ c -ℤ s +ℤ pos 1
unfolding ◌-ℤ◌ ◌+ℤ◌
in_log s c h = ground arith

not_all : (l : ℤ) → IsSmall l → (l =ℤ negsuc 0) ≡ false → pos 0 ≤ℤ l
not_all l h k = ground arith

-- If a limit is given and the numbers are small, the messages from the log and those that are
-- published make up the limit together. The second part is never negative, and the first is not if
-- the request starts at most one after the current sequence.
pub nonlive_limit-live_limit :
    (arg : CreateHistArgs) (cur : ℤ)
    → IsSmall arg.seq
    → IsSmall arg.limit
    → IsSmall cur
    → (arg.limit =ℤ negsuc 0) ≡ false
    → (nonlive_limit arg cur +ℤ live_limit arg cur ≡ arg.limit)
      × (pos 0 ≤ℤ live_limit arg cur)
      × (arg.seq ≤ℤ cur +ℤ pos 1 → pos 0 ≤ℤ nonlive_limit arg cur)
nonlive_limit-live_limit arg cur a b c all =
    rw (nonlive_limit_lem arg cur a b c all, live_limit_lem arg cur a b c all)
      (elim (Bool-cases (ltb_ℤ cur (arg.seq +ℤ arg.limit -ℤ pos 1))) [
        | inl more ↦ rw more (
          sum_parts arg.seq arg.limit cur,
          left_over (arg.seq +ℤ arg.limit -ℤ pos 1) cur more,
          in_log arg.seq cur,
        )
        | inr enough ↦ rw enough (plus_zero arg.limit, omega arith, λ h. not_all arg.limit b all)
      ])
