-- ===== src/Requests/Registry/Trim.antt =====
-- trimFinishedRequestsLocked of internal/relay/state.go.
use nova_vei.Base.{
  ℕ, ◌+◌, ◌≤◌, ◌≡◌, ◌≢◌, ◌⊎◌, refl, sym, ap, subst, ◌∙◌, Bool, true, false, ◌||◌, [], ◌∷◌, none,
  some, if◌then◌else◌, ltb, ◌==◌, nat_eq, nat_beq_iff, some_inj, arith, Bool-cases, inl, inr,
}
use nova_vei.Base.Maps.{Map, get, del, get-del, Distinct}
use nova_vei.Requests.State.{RequestState}
use nova_vei.Requests.Registry.{is_active, survey, trim_finished_requests, max_finished}

-- How many requests are finished.
abbrev pub finished_count : Map ℕ RequestState → ℕ
finished_count [] = 0
finished_count ((id, r) ∷ m) = if is_active r then finished_count m else finished_count m + 1

-- Ids are given out from 1 on.
abbrev pub Numbers : Map ℕ RequestState → Type 0
Numbers [] = Unit {0}
Numbers ((id, r) ∷ m) = (1 ≤ id) × Numbers m

survey-count :
    (m : Map ℕ RequestState) (finished oldest : ℕ)
    → (survey finished oldest m).0 ≡ finished + finished_count m
unfolding survey
survey-count [] finished oldest = omega arith
survey-count ((id, r) ∷ m) finished oldest = elim (Bool-cases (is_active r)) [
  | inl active ↦ rw active (survey-count m finished oldest)
  | inr over ↦
      let next = if oldest == 0 || ltb id oldest then id else oldest in
      let rest = survey-count m (finished + 1) next in rw over (omega (arith, rest))
]

-- The finished request that the loop settles on: what it was given, or one of the map.
record Found (m : Map ℕ RequestState) (oldest k : ℕ) : Type 0 where
  inside : (k ≡ oldest) ⊎ ((r : RequestState) × (get k m ≡ some r) × (is_active r ≡ false))
  given : 1 ≤ oldest → (1 ≤ k) × (k ≤ oldest)
  least : (j : ℕ) (r : RequestState) → get j m ≡ some r → is_active r ≡ false → (1 ≤ k) × (k ≤ j)

none_or_some {ℓ} : {A : Type ℓ} {a : A} → none ≡ some a → ⊥
none_or_some h = ground arith

true_or_false : true ≡ false → ⊥
true_or_false h = ground arith

if_apart {ℓ} :
    {A : Type ℓ} (b : Bool) (x y : A) {z : A}
    → (if b then x else y) ≡ z
    → ((b ≡ true) × (x ≡ z)) ⊎ (y ≡ z)
if_apart true x y h = inl (refl, h)
if_apart false x y h = inr h

get-cons :
    (id k : ℕ) (r s : RequestState) (m : Map ℕ RequestState)
    → get id m ≡ none
    → get k m ≡ some s
    → get k ((id, r) ∷ m) ≡ some s
unfolding get
get-cons id k r s m h e = elim (Bool-cases (k == id)) [
  | inl same ↦
      absurd (none_or_some (sym h ∙ ap (λ (i : ℕ). get i m) (sym ((nat_beq_iff k id).0 same)) ∙ e))
  | inr other ↦ rw other e
]

get-uncons :
    (id k : ℕ) (r s : RequestState) (m : Map ℕ RequestState)
    → get k ((id, r) ∷ m) ≡ some s
    → ((k ≡ id) × (r ≡ s)) ⊎ (get k m ≡ some s)
unfolding get
get-uncons id k r s m e = elim (if_apart (k == id) (some r) (get k m) e) [
  | inl (same, here) ↦ inl ((nat_beq_iff k id).0 same, some_inj here)
  | inr there ↦ inr there
]

get-first : (id : ℕ) (r : RequestState) (m : Map ℕ RequestState) → get id ((id, r) ∷ m) ≡ some r
unfolding get
get-first id r m = rw ((nat_beq_iff id id).1 refl) refl

abbrev older : ℕ → ℕ → ℕ
older id oldest = if oldest == 0 || ltb id oldest then id else oldest

older-bounds :
    (id oldest : ℕ)
    → 1 ≤ id
    → (1 ≤ older id oldest) × (older id oldest ≤ id) × (1 ≤ oldest → older id oldest ≤ oldest)
older-bounds id oldest h = ground arith

older-either : (id oldest : ℕ) → (older id oldest ≡ id) ⊎ (older id oldest ≡ oldest)
older-either id oldest = elim (Bool-cases (oldest == 0 || ltb id oldest)) [
  | inl hit ↦ rw hit (inl refl)
  | inr miss ↦ rw miss (inr refl)
]

Found-active :
    (id : ℕ) (r : RequestState) (m : Map ℕ RequestState) (oldest k : ℕ)
    → get id m ≡ none
    → is_active r ≡ true
    → Found m oldest k
    → Found ((id, r) ∷ m) oldest k
Found-active id r m oldest k d active v = record {
  inside = elim v.inside [
    | inl e ↦ inl e
    | inr (s, e, over) ↦ inr (s, get-cons id k r s m d e, over)
  ];
  given = v.given;
  least = λ j s e over. elim (get-uncons id j r s m e) [
    | inl (same, here) ↦ absurd (true_or_false (sym active ∙ ap is_active here ∙ over))
    | inr there ↦ v.least j s there over
  ];
}

Found-over :
    (id : ℕ) (r : RequestState) (m : Map ℕ RequestState) (oldest k : ℕ)
    → get id m ≡ none
    → 1 ≤ id
    → is_active r ≡ false
    → Found m (older id oldest) k
    → Found ((id, r) ∷ m) oldest k
Found-over id r m oldest k d n over v =
    let b = older-bounds id oldest n in
    let below = v.given b.0 in
    record {
      inside = elim v.inside [
        | inl e ↦ elim (older-either id oldest) [
          | inl here ↦
              inr (r, ap (λ (i : ℕ). get i ((id, r) ∷ m)) (e ∙ here) ∙ get-first id r m, over)
          | inr before ↦ inl (e ∙ before)
        ]
        | inr (s, e, done) ↦ inr (s, get-cons id k r s m d e, done)
      ];
      given = λ h. (below.0, omega (arith, below, b.2 h));
      least = λ j s e done. elim (get-uncons id j r s m e) [
        | inl (same, here) ↦ (below.0, omega (arith, below, b, same))
        | inr there ↦ v.least j s there done
      ];
    }

survey-Found :
    (m : Map ℕ RequestState) (finished oldest : ℕ)
    → Numbers m
    → Distinct m
    → Found m oldest (survey finished oldest m).1
unfolding survey get
survey-Found [] finished oldest n d = record {
  inside = inl refl;
  given = λ h. (h, omega arith);
  least = λ j r h k. absurd (ground arith);
}
survey-Found ((id, r) ∷ m) finished oldest n d = elim (Bool-cases (is_active r)) [
  | inl active ↦ rw active (
      Found-active id r m oldest (survey finished oldest m).1 d.0 active
        (survey-Found m finished oldest n.1 d.1))
  | inr over ↦ rw over (
      Found-over id r m oldest (survey (finished + 1) (older id oldest) m).1 d.0 n.0 over
        (survey-Found m (finished + 1) (older id oldest) n.1 d.1))
]

count-del-none :
    (k : ℕ) (m : Map ℕ RequestState) → get k m ≡ none → finished_count (del k m) ≡ finished_count m
unfolding get del
count-del-none k [] h = refl
count-del-none k ((id, r) ∷ m) h = elim (Bool-cases (k == id)) [
  | inl hit ↦
      let here : get k ((id, r) ∷ m) ≡ some r = rw hit refl in absurd (none_or_some (sym h ∙ here))
  | inr miss ↦
      let rest : get k m ≡ none = sym (rw miss refl) ∙ h in
      rw miss (rw (count-del-none k m rest) refl)
]

count-del :
    (k : ℕ) (r : RequestState) (m : Map ℕ RequestState)
    → Distinct m
    → get k m ≡ some r
    → is_active r ≡ false
    → finished_count (del k m) + 1 ≡ finished_count m
unfolding get del
count-del k r [] d h over = absurd (none_or_some h)
count-del k r ((id, s) ∷ m) d h over = elim (Bool-cases (k == id)) [
  | inl hit ↦
      let same : s ≡ r = some_inj (sym (rw hit refl) ∙ h) in
      let gone : get k m ≡ none = ap (λ (i : ℕ). get i m) ((nat_beq_iff k id).0 hit) ∙ d.0 in
      let finished : is_active s ≡ false = ap is_active same ∙ over in
      rw (hit, finished, count-del-none k m gone) refl
  | inr miss ↦
      let rest : get k m ≡ some r = sym (rw miss refl) ∙ h in
      let smaller = count-del k r m d.1 rest over in
      elim (Bool-cases (is_active s)) [
        | inl active ↦ rw (miss, active) smaller
        | inr done ↦ rw (miss, done) (ap (λ (n : ℕ). n + 1) smaller)
      ]
]

-- What a trimming leaves.
pub record Trimmed (m m' : Map ℕ RequestState) : Type 0 where
  pub bounded : finished_count m ≤ 201 → finished_count m' ≤ 200
  pub active_kept :
      (j : ℕ) (r : RequestState) → get j m ≡ some r → is_active r ≡ true → get j m' ≡ some r
  pub oldest_gone :
      (j : ℕ)
      → get j m ≢ get j m'
      → (201 ≤ finished_count m)
        × ((i : ℕ) (r : RequestState) → get i m ≡ some r → is_active r ≡ false → j ≤ i)

trim-cases :
    (m : Map ℕ RequestState)
    → ((finished_count m ≤ 200) × (trim_finished_requests m ≡ m))
      ⊎ ((201 ≤ finished_count m) × (trim_finished_requests m ≡ del (survey 0 0 m).1 m))
unfolding trim_finished_requests
trim-cases m =
    let n = survey-count m 0 0 in
    elim (Bool-cases (ltb max_finished (survey 0 0 m).0)) [
      | inl full ↦ inr (ground (arith, full, n), rw full refl)
      | inr room ↦ inl (ground (arith, room, n), rw room refl)
    ]

some_finished :
    (m : Map ℕ RequestState)
    → Distinct m
    → 1 ≤ finished_count m
    → (j : ℕ) × (r : RequestState) × (get j m ≡ some r) × (is_active r ≡ false)
some_finished [] d h = absurd (omega arith)
some_finished ((id, r) ∷ m) d h = elim (Bool-cases (is_active r)) [
  | inl active ↦
      let more : 1 ≤ finished_count m = ground (arith, h, active) in
      let (j, s, e, done) = some_finished m d.1 more in (j, s, get-cons id j r s m d.0 e, done)
  | inr over ↦ (id, r, get-first id r m, over)
]

survey-oldest :
    (m : Map ℕ RequestState)
    → Numbers m
    → Distinct m
    → 1 ≤ finished_count m
    → (r : RequestState) × (get (survey 0 0 m).1 m ≡ some r) × (is_active r ≡ false)
survey-oldest m n d h =
    let v = survey-Found m 0 0 n d in
    let (j, s, e, done) = some_finished m d h in
    let least = v.least j s e done in
    elim v.inside [ inl zero_key ↦ absurd (omega (arith, least, zero_key)) | inr found ↦ found ]

get-del_other : (k j : ℕ) (m : Map ℕ RequestState) → ((k ≡ j) → ⊥) → get j (del k m) ≡ get j m
get-del_other k j m h = elim (Bool-cases (j == k)) [
  | inl same ↦ absurd (h (sym ((nat_beq_iff j k).0 same)))
  | inr apart ↦ get-del k j m ∙ rw apart refl
]

removed-Trimmed :
    (m : Map ℕ RequestState)
    → Numbers m
    → Distinct m
    → 201 ≤ finished_count m
    → Trimmed m (del (survey 0 0 m).1 m)
removed-Trimmed m n d full =
    let k = (survey 0 0 m).1 in
    let v = survey-Found m 0 0 n d in
    let (s, found, over) = survey-oldest m n d (omega (arith, full)) in
    let smaller = count-del k s m d found over in
    record {
      bounded = λ h. omega (arith, smaller, h);
      active_kept = λ j r e active.
          get-del_other k j m (λ same.
            let here : s ≡ r = some_inj (sym found ∙ ap (λ (i : ℕ). get i m) same ∙ e) in
            true_or_false (sym active ∙ sym (ap is_active here) ∙ over))
          ∙ e;
      oldest_gone = λ j apart. (
        full,
        λ i r e done. elim (Bool-cases (k == j)) [
          | inl same ↦
              let least = v.least i r e done in
              let at = (nat_beq_iff k j).0 same in omega (arith, least, at)
          | inr other ↦ absurd (
              apart (
                sym (
                  get-del_other k j m
                    (λ same. true_or_false (sym ((nat_beq_iff k j).1 same) ∙ other)))))
        ],
      );
    }

-- With distinct ids from 1 on, trimming brings 201 finished requests back to 200; it leaves every
-- running or committed request alone, and if it removes a request at all, more than 200 were
-- finished and none of the finished ones is older.
pub trim_finished_requests-Trimmed :
    (m : Map ℕ RequestState) → Numbers m → Distinct m → Trimmed m (trim_finished_requests m)
trim_finished_requests-Trimmed m n d = elim (trim-cases m) [
  | inl (room, same) ↦
      let kept : Trimmed m m = record {
        bounded = λ h. room;
        active_kept = λ j r e active. e;
        oldest_gone = λ j apart. absurd (apart refl);
      } in
      subst (Trimmed m) (sym same) kept
  | inr (full, removed) ↦ subst (Trimmed m) (sym removed) (removed-Trimmed m n d full)
]
