-- ===== src/Keys/Cooling.antt =====
-- Which keys are cooling, internal/relay/keyselect.go.
use Prim.Native.String.{String}
use nova_vei.Base.{
  ℕ, ◌+◌, ◌*◌, ◌%◌, ◌≤◌, arith, ◌≡◌, refl, sym, ap, ◌∙◌, Bool, true, false, ◌&&◌, Option, none,
  some, if◌then◌else◌, ltb, ◌==◌, nat_eq, string_eq, ℤ, pos_part, Bool-cases, Option-cases, inl,
  inr,
}
use nova_vei.Base.Maps.{Map, get, put, del, get-put, get-del}
use nova_vei.Group.{default_group_relay_config}
use nova_vei.Keylimit.{second}
use native.Mathlib.Nat.{mod-eq_of_lt}
use nova_vei.Keys.{
  after_seconds, two_63, two_64, KeyRef, key_ref_eq, KeyHealth, mark_channel_key_cooldown,
  channel_key_cooling,
}

abbrev pub deadline_ahead : ℕ → Option ℕ → Bool
deadline_ahead now none = false
deadline_ahead now (some deadline) = ltb now deadline

-- Whether the key's cooldown lasts beyond the time.
abbrev pub is_cool : ℕ → String → ℕ → KeyHealth → Bool
is_cool channel_id key_id now h =
    deadline_ahead now (get (record { channel_id = channel_id; key_id = key_id }) h.cooldowns)

pub channel_key_cooling-answer :
    (c : ℕ) (k : String) (now : ℕ) (h : KeyHealth)
    → (channel_key_cooling c k now h).1 ≡ is_cool c k now h
unfolding channel_key_cooling
channel_key_cooling-answer c k now h =
    let ref : KeyRef = record { channel_id = c; key_id = k } in
    elim (Option-cases (get ref h.cooldowns)) [
      | inl miss ↦ rw (miss, channel_key_cooling) refl
      | inr (deadline, hit) ↦ elim (Bool-cases (ltb now deadline)) [
        | inl ahead ↦ rw (hit, channel_key_cooling, ahead) refl
        | inr over ↦ rw (hit, channel_key_cooling, over) refl
      ]
    ]

dropped :
    (now : ℕ) (ref other : KeyRef) (h : KeyHealth)
    → deadline_ahead now (get ref h.cooldowns) ≡ false
    → deadline_ahead now (get other (del ref h.cooldowns))
      ≡ deadline_ahead now (get other h.cooldowns)
dropped now ref other h over = elim (Bool-cases (other == ref)) [
  | inl same ↦
      let e : other ≡ ref = (key_ref_eq.agree_iff other ref).0 same in
      let gone : get other (del ref h.cooldowns) ≡ none =
        get-del ref other h.cooldowns ∙ rw same refl in
      rw gone (sym over ∙ ap (λ (r : KeyRef). deadline_ahead now (get r h.cooldowns)) (sym e))
  | inr apart ↦
      let there : get other (del ref h.cooldowns) ≡ get other h.cooldowns =
        get-del ref other h.cooldowns ∙ rw apart refl in
      rw there refl
]

-- Asking does not change who is cooling.
pub channel_key_cooling-same :
    (c : ℕ) (k : String) (now : ℕ) (h : KeyHealth) (d : ℕ) (j : String)
    → is_cool d j now (channel_key_cooling c k now h).0 ≡ is_cool d j now h
unfolding channel_key_cooling
channel_key_cooling-same c k now h d j =
    let ref : KeyRef = record { channel_id = c; key_id = k } in
    let other : KeyRef = record { channel_id = d; key_id = j } in
    elim (Option-cases (get ref h.cooldowns)) [
      | inl miss ↦ rw (miss, channel_key_cooling) refl
      | inr (deadline, hit) ↦ elim (Bool-cases (ltb now deadline)) [
        | inl ahead ↦ rw (hit, channel_key_cooling, ahead) refl
        | inr over ↦
            rw (hit, channel_key_cooling, over)
              (dropped now ref other h (ap (deadline_ahead now) hit ∙ over))
      ]
    ]

abbrev pub cooldown_seconds : ℤ → ℕ
cooldown_seconds seconds = if ltb (pos_part seconds) 1 then 60 else pos_part seconds

-- The most seconds of a duration in nanoseconds within an int64.
abbrev pub max_seconds : ℕ
max_seconds = 9223372036

after_seconds-small :
    (now seconds : ℕ) → seconds ≤ max_seconds → after_seconds now seconds ≡ now + seconds * second
unfolding after_seconds
after_seconds-small now seconds small =
    let fits : seconds * second % two_64 ≡ seconds * second = mod-eq_of_lt (omega (arith, small)) in
    let positive : ltb (seconds * second) two_63 ≡ true = ground (arith, small) in
    rw (fits, positive) refl

marked :
    (c : ℕ) (k : String) (seconds : ℤ) (now : ℕ) (h : KeyHealth)
    → (mark_channel_key_cooldown c k seconds now h).cooldowns
      ≡ put
          (record { channel_id = c; key_id = k })
          (after_seconds now (cooldown_seconds seconds))
          h.cooldowns
unfolding mark_channel_key_cooldown default_group_relay_config
marked c k seconds now h = refl

chosen :
    (b : Bool) (later until : ℕ) (o : Option ℕ)
    → deadline_ahead later (if b then some until else o)
      ≡ (if b then ltb later until else deadline_ahead later o)
chosen true later until o = refl
chosen false later until o = refl

-- A key that was marked for at most 9223372036 seconds, so that the nanoseconds are within an int64, is
-- cooling exactly until they are over (60 seconds if they are not positive), and whether any other key
-- is cooling is as before.
pub mark_channel_key_cooldown-cool :
    (c : ℕ) (k : String) (seconds : ℤ) (now later : ℕ) (h : KeyHealth) (d : ℕ) (j : String)
    → pos_part seconds ≤ max_seconds
    → (channel_key_cooling d j later (mark_channel_key_cooldown c k seconds now h)).1 ≡ (
        if d == c && j == k
        then ltb later (now + cooldown_seconds seconds * second)
        else (channel_key_cooling d j later h).1)
mark_channel_key_cooldown-cool c k seconds now later h d j small =
    let ref : KeyRef = record { channel_id = c; key_id = k } in
    let other : KeyRef = record { channel_id = d; key_id = j } in
    let until = now + cooldown_seconds seconds * second in
    channel_key_cooling-answer d j later (mark_channel_key_cooldown c k seconds now h)
    ∙ ap (λ (m : Map KeyRef ℕ). deadline_ahead later (get other m))
        (marked c k seconds now h
          ∙ ap (λ (t : ℕ). put ref t h.cooldowns)
              (after_seconds-small now (cooldown_seconds seconds) (ground (arith, small))))
    ∙ ap (deadline_ahead later) (get-put ref other until h.cooldowns)
    ∙ chosen (other == ref) later until (get other h.cooldowns)
    ∙ ap (λ (b : Bool). if other == ref then ltb later until else b)
        (sym (channel_key_cooling-answer d j later h))
