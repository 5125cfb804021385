-- ===== src/Keys/Ring.antt =====
-- The choice of selectChannelKey: in turn, and past the keys that are cooling.
use Prim.Native.String.{String}
use nova_vei.Base.{
  ℕ, zero, suc, ◌+◌, ◌-◌, ◌%◌, ◌≤◌, ◌<◌, ◌≡◌, refl, sym, ap, ◌∙◌, true, false, List, Option-cases,
  ltb, [], ◌∷◌, Option, none, some, if◌then◌else◌, ◌==◌, nat_eq, length, get_elem?, get_elem?_total,
  arith, Bool-cases, inl, inr, some_inj,
}
use native.Mathlib.Nat.{mod-lt, mod-eq_of_lt, add-zero}
use nova_vei.Base.Maps.{Map, get, put, val, get-put}
use nova_vei.Channel.{Channel, ChannelKey}
use nova_vei.Keys.{
  KeyRef, key_ref_eq, KeyHealth, two_64, take_ticket, channel_key_cooling, scan_keys,
  select_channel_key,
}
use nova_vei.Keys.Cooling.{is_cool, channel_key_cooling-answer, channel_key_cooling-same}

module _ (c : ℕ) (keys : List ChannelKey) (now start : ℕ) (h : KeyHealth) where
  -- The key at an offset from the start is cooling, if there is one.
  abbrev pub CoolAt : ℕ → Type 0
  CoolAt offset =
      (k : ChannelKey)
      → get_elem? keys ((start + offset) % length keys) ≡ some k
      → is_cool c k.id now h ≡ true

  -- The outcome of a scan from one offset to another.
  abbrev pub Scanned : ℕ → ℕ → Option (ℕ × ChannelKey) → Type 0
  Scanned from to none = (i : ℕ) → from ≤ i → i < to → CoolAt i
  Scanned from to (some (idx, key)) =
      (offset : ℕ) × (from ≤ offset)
      × (offset < to)
      × (idx ≡ (start + offset) % length keys)
      × (get_elem? keys idx ≡ some key)
      × (is_cool c key.id now h ≡ false)
      × ((i : ℕ) → from ≤ i → i < offset → CoolAt i)

  SameCool : KeyHealth → Type 0
  SameCool h' = (j : String) → is_cool c j now h' ≡ is_cool c j now h

  widen :
      (offset to : ℕ) (r : Option (ℕ × ChannelKey))
      → CoolAt offset
      → Scanned (offset + 1) to r
      → Scanned offset to r
  widen offset to none here rest = λ i from below. elim (Bool-cases (i == offset)) [
    | inl same ↦ let e : i ≡ offset = ground (arith, same) in rw e here
    | inr later ↦ rest i (ground (arith, from, later)) below
  ]
  widen offset to (some (idx, key)) here (at, from, below, e, read, warm, before) = (
    at,
    omega (arith, from),
    below,
    e,
    read,
    warm,
    λ i low high. elim (Bool-cases (i == offset)) [
      | inl same ↦ let e' : i ≡ offset = ground (arith, same) in rw e' here
      | inr later ↦ before i (ground (arith, low, later)) high
    ],
  )

scan_keys-step :
    (c : ℕ) (keys : List ChannelKey) (now start offset left : ℕ) (h : KeyHealth) (k : ChannelKey)
    → get_elem? keys ((start + offset) % length keys) ≡ some k
    → scan_keys c keys now start offset (suc left) h ≡ (
        if (channel_key_cooling c k.id now h).1
        then scan_keys c keys now start (offset + 1) left (channel_key_cooling c k.id now h).0
        else ((channel_key_cooling c k.id now h).0, some ((start + offset) % length keys, k)))
unfolding scan_keys
scan_keys-step c keys now start offset left h k e = rw (e, scan_keys) refl

scan_keys-Scanned :
    (c : ℕ) (keys : List ChannelKey) (now start : ℕ) (h : KeyHealth) (offset left : ℕ)
    (h' : KeyHealth)
    → 0 < length keys
    → SameCool c keys now start h h'
    → Scanned c keys now start h offset
        (offset + left)
        (scan_keys c keys now start offset left h').1
unfolding scan_keys SameCool
scan_keys-Scanned c keys now start h offset zero h' some_key same =
    λ i from below. absurd (omega (arith, from, below))
scan_keys-Scanned c keys now start h offset (suc left) h' some_key same =
    let idx = (start + offset) % length keys in
    let (k, read) = get_elem?_total keys idx (mod-lt (start + offset) some_key) in
    let asked = channel_key_cooling-answer c k.id now h' in
    let one : offset + 1 + left ≡ offset + suc left = omega arith in
    let kept_same = λ (j : String). channel_key_cooling-same c k.id now h' c j ∙ same j in
    let rest =
      scan_keys-Scanned c keys now start h (offset + 1) left (channel_key_cooling c k.id now h').0
        some_key kept_same in
    elim (Bool-cases (channel_key_cooling c k.id now h').1) [
      | inl cooling ↦
          let here : CoolAt c keys now start h offset = λ (j : ChannelKey) e.
            let same_key : k ≡ j = some_inj (sym read ∙ e) in
            ap (λ (x : ChannelKey). is_cool c x.id now h) (sym same_key)
            ∙ sym (same k.id)
            ∙ sym asked
            ∙ cooling in
          rw (scan_keys-step c keys now start offset left h' k read, cooling)
            (widen c keys now start h offset (offset + suc left) _ here (rw (← one) rest))
      | inr warm ↦
          rw (scan_keys-step c keys now start offset left h' k read, warm)
            (
              offset,
              omega arith,
              omega arith,
              refl,
              read,
              sym (same k.id) ∙ sym asked ∙ warm,
              λ i low high. absurd (omega (arith, low, high)),
            )
    ]

-- Where the next selection starts.
abbrev pub turn : Channel → KeyHealth → ℕ
turn channel h = val channel.id h.cursors % length channel.keys

abbrev issued : Channel → KeyHealth → KeyHealth
issued channel h = (take_ticket channel.id h).1

ticket_turn :
    (cursor n : ℕ) → cursor < two_64 → ((cursor + 1) % two_64 + (two_64 - 1)) % two_64 ≡ cursor
ticket_turn cursor n h = omega (arith, h)

select_channel_key-scan :
    (channel : Channel) (now : ℕ) (h : KeyHealth)
    → 0 < length channel.keys
    → val channel.id h.cursors < two_64
    → select_channel_key channel now h
      ≡ scan_keys channel.id channel.keys now
          (turn channel h)
          0
          (length channel.keys)
          (issued channel h)
unfolding select_channel_key take_ticket
select_channel_key-scan channel now h some_key small =
    let many : (length channel.keys == 0) ≡ false = ground (arith, some_key) in
    rw (many, ticket_turn (val channel.id h.cursors) 0 small) refl

-- Of a channel with keys, a selection gives the first key that is not cooling, going round from the
-- one whose turn it is, and none only if all are cooling, while the channel's cursor has not run
-- over 64 bits.
pub select_channel_key-Scanned :
    (channel : Channel) (now : ℕ) (h : KeyHealth)
    → 0 < length channel.keys
    → val channel.id h.cursors < two_64
    → Scanned channel.id channel.keys now
        (turn channel h)
        h
        0
        (length channel.keys)
        (select_channel_key channel now h).1
unfolding SameCool take_ticket
select_channel_key-Scanned channel now h some_key small =
    let scanned =
      scan_keys-Scanned channel.id channel.keys now (turn channel h) h 0 (length channel.keys)
        (issued channel h) some_key (λ j. refl) in
    let zero_left : 0 + length channel.keys ≡ length channel.keys = omega arith in
    rw (select_channel_key-scan channel now h some_key small) (rw zero_left at scanned)

-- Selections one after another at the same time, and the indices they give.
unfoldable pub select_many : ℕ → Channel → ℕ → KeyHealth → List (Option ℕ)
unfolding select_channel_key
select_many zero channel now h = []
select_many (suc n) channel now h =
    let (h', selected) = select_channel_key channel now h in
    elim selected as (λ _. Option ℕ) [ none ↦ none | some (idx, key) ↦ some idx ]
    ∷ select_many n channel now h'

-- The numbers that follow each other in a ring.
abbrev pub ring_from : ℕ → ℕ → ℕ → List (Option ℕ)
ring_from zero cursor len = []
ring_from (suc n) cursor len = some (cursor % len) ∷ ring_from n (cursor + 1) len

-- No key of the channel is cooling at the time.
abbrev pub AllWarm : Channel → ℕ → KeyHealth → Type 0
AllWarm channel now h =
    (i : ℕ) (k : ChannelKey)
    → get_elem? channel.keys i ≡ some k
    → is_cool channel.id k.id now h ≡ false

channel_key_cooling-cursors :
    (c : ℕ) (k : String) (now : ℕ) (h : KeyHealth)
    → (channel_key_cooling c k now h).0.cursors ≡ h.cursors
unfolding channel_key_cooling
channel_key_cooling-cursors c k now h =
    let ref : KeyRef = record { channel_id = c; key_id = k } in
    elim (Option-cases (get ref h.cooldowns)) [
      | inl miss ↦ rw (miss, channel_key_cooling) refl
      | inr (deadline, hit) ↦ elim (Bool-cases (ltb now deadline)) [
        | inl ahead ↦ rw (hit, channel_key_cooling, ahead) refl
        | inr over ↦ rw (hit, channel_key_cooling, over) refl
      ]
    ]

-- What a selection leaves when it gives a key: the ticket is taken, and the key was asked for.
abbrev asked_for : Channel → ℕ → ChannelKey → KeyHealth → KeyHealth
asked_for channel now key h = (channel_key_cooling channel.id key.id now (issued channel h)).0

select_channel_key-healthy :
    (channel : Channel) (now : ℕ) (h : KeyHealth)
    → 0 < length channel.keys
    → val channel.id h.cursors < two_64
    → AllWarm channel now h
    → (key : ChannelKey) × (select_channel_key channel now h
        ≡ (asked_for channel now key h, some (turn channel h, key)))
unfolding take_ticket
select_channel_key-healthy channel now h some_key small warm =
    let start = turn channel h in
    let len = length channel.keys in
    let inside : (start + 0) % len ≡ start =
      mod_small start len some_key (mod-lt (val channel.id h.cursors) some_key) in
    let (k, read) =
      get_elem?_total channel.keys ((start + 0) % len) (mod-lt (start + 0) some_key) in
    let asked : (channel_key_cooling channel.id k.id now (issued channel h)).1 ≡ false =
      channel_key_cooling-answer channel.id k.id now (issued channel h)
      ∙ warm ((start + 0) % len) k read in
    let (left, more) = some_left channel.keys some_key in
    (
      k,
      select_channel_key-scan channel now h some_key small
          ∙ ap (λ (n : ℕ). scan_keys channel.id channel.keys now start 0 n (issued channel h)) more
          ∙ scan_keys-step channel.id channel.keys now start 0 left (issued channel h) k read
          ∙ rw (asked, inside) refl,
    )
  where
    some_left : (xs : List ChannelKey) → 0 < length xs → (n : ℕ) × (length xs ≡ suc n)
    some_left [] h = absurd (omega arith)
    some_left (x ∷ xs) h = (length xs, refl)

    mod_small : (a n : ℕ) → 0 < n → a < n → (a + 0) % n ≡ a
    mod_small a n h k = rw (add-zero a) (mod-eq_of_lt k)

issued-cursor :
    (channel : Channel) (h : KeyHealth)
    → val channel.id h.cursors + 1 < two_64
    → val channel.id (issued channel h).cursors ≡ val channel.id h.cursors + 1
unfolding take_ticket
issued-cursor channel h small =
    let now_at = (val channel.id h.cursors + 1) % two_64 in
    let stays : now_at ≡ val channel.id h.cursors + 1 = mod-eq_of_lt small in
    let read : get channel.id (put channel.id now_at h.cursors) ≡ some now_at =
      get-put channel.id channel.id now_at h.cursors
      ∙ rw ((nat_eq.agree_iff channel.id channel.id).1 refl) refl in
    ap (λ (o : Option ℕ). elim o as (λ _. ℕ) [ none ↦ 0 | some v ↦ v ]) read ∙ stays

-- While no key of the channel is cooling, selections one after another give the keys in turn, beginning
-- with the one at the cursor, for as long as the cursor stays within 64 bits.
pub select_many-ring :
    (n : ℕ) (channel : Channel) (now : ℕ) (h : KeyHealth)
    → 0 < length channel.keys
    → val channel.id h.cursors + n < two_64
    → AllWarm channel now h
    → select_many n channel now h ≡ ring_from n (val channel.id h.cursors) (length channel.keys)
unfolding select_many take_ticket
select_many-ring zero channel now h some_key small warm = refl
select_many-ring (suc n) channel now h some_key small warm =
    let (key, first) =
      select_channel_key-healthy channel now h some_key (omega (arith, small)) warm in
    let left = asked_for channel now key h in
    let moved : val channel.id left.cursors ≡ val channel.id h.cursors + 1 =
      ap (λ (m : Map ℕ ℕ). val channel.id m)
        (channel_key_cooling-cursors channel.id key.id now (issued channel h))
      ∙ issued-cursor channel h (omega (arith, small)) in
    let still : AllWarm channel now left = λ i k read.
      channel_key_cooling-same channel.id key.id now (issued channel h) channel.id k.id
      ∙ warm i k read in
    let rest = select_many-ring n channel now left some_key (omega (arith, small, moved)) still in
    rw first (
      ap (some (turn channel h) ∷◌)
        (rest ∙ ap (λ (m : ℕ). ring_from n m (length channel.keys)) moved))
