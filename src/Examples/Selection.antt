-- ===== src/Examples/Selection.antt =====
-- The theorems on keys, sessions and the limits of channels, applied.
use Prim.Native.String.{String}
use nova_vei.Base.{
  ℕ, ◌+◌, ◌*◌, ◌≤◌, ◌<◌, ◌≡◌, ◌≢◌, refl, false, ◌&&◌, List, [], ◌∷◌, if◌then◌else◌, ltb, ◌==◌,
  nat_eq, string_eq, pos, arith, zero, suc, sym, ap, some_inj,
}
use nova_vei.Base.Maps
use nova_vei.Rate
use nova_vei.Base.Maps.{get, put, Distinct}
use nova_vei.Channel.{Channel, ChannelKey}
use nova_vei.Group.{default_group_relay_config}
use nova_vei.Keylimit.{initial, second}
use nova_vei.Keys.{
  after_seconds, KeyRef, KeyHealth, no_key_health, channel_key_cooling, mark_channel_key_cooldown,
  select_channel_key,
}
use nova_vei.Keys.Cooling.{is_cool, cooldown_seconds, mark_channel_key_cooldown-cool}
use nova_vei.Keys.Ring.{
  AllWarm, Scanned, turn, select_channel_key-Scanned, select_many, ring_from, select_many-ring,
}
use nova_vei.ChannelLimit.{
  ChannelLimits, channel_object, Deed, comes, gives_back, removes, deed, deeds, woken, timer_fired,
  still_waiting, acquire_channel_concurrency, try_channel_rpm_permit, stored_window, wait_for,
  rings, may_go, wait_channel_rpm, start_of, from_index,
}
use nova_vei.Keylimit.{acquire_rpm_permit, window_of}
use nova_vei.ChannelLimit.Places.{as_limiter, key_deed, deed-limiter}
use nova_vei.ChannelLimit.Waits.{
  no_limits, Fair, acquire_channel_concurrency-Fair, acquire_channel_concurrency-settled,
}
use nova_vei.ChannelLimit.Permits.{
  answer_of, try_channel_rpm_permit-acquire, wait_channel_rpm-passes,
}
use nova_vei.Route.State.{item_of, find_item}
use nova_vei.Route.Sticky.{
  Stickies, sessions_of, is_cooling, pick_session_sticky, prune_session_sticky, bind_session_sticky,
}
use nova_vei.Route.Sticky.Laws.{prune_session_sticky-pick, bind_session_sticky-pick}
use nova_vei.Examples.{channel_of, two_members}

abbrev two_keys : Channel
two_keys = record (channel_of 1) {
  keys =
      record { id = "a"; key = "k1"; remark = "" }
      ∷ record { id = "b"; key = "k2"; remark = "" }
      ∷ [];
}

abbrev one : ℕ
one = 1

abbrev name : String
name = "a"

mark_channel_key_cooldown-cool_example :
    (channel_key_cooling 1 "a" 90 (mark_channel_key_cooldown 1 "a" (pos 5) 10 no_key_health)).1 ≡ (
      if (one == one) && (name == name)
      then ltb 90 (10 + cooldown_seconds (pos 5) * second)
      else (channel_key_cooling 1 "a" 90 no_key_health).1)
mark_channel_key_cooldown-cool_example =
    mark_channel_key_cooldown-cool 1 "a" (pos 5) 10 90 no_key_health 1 "a" (omega arith)

-- Nanoseconds beyond an int64: the key that was just marked is not cooling.
wrapped :
    (channel_key_cooling 1 "a" 11
      (mark_channel_key_cooldown 1 "a" (pos 9999999999) 10 no_key_health)).1
    ≡ false
unfolding channel_key_cooling mark_channel_key_cooldown after_seconds get put
wrapped = refl

abbrev first_cooling : KeyHealth
first_cooling = record {
  cursors = (1, 4) ∷ [];
  cooldowns = (record { channel_id = 1; key_id = "a" }, 100) ∷ [];
}

select_channel_key-Scanned_example :
    Scanned 1 two_keys.keys 50
      (turn two_keys first_cooling)
      first_cooling
      0
      2
      (select_channel_key two_keys 50 first_cooling).1
unfolding get
select_channel_key-Scanned_example =
    select_channel_key-Scanned two_keys 50 first_cooling (omega arith) (omega arith)

abbrev healthy : KeyHealth
healthy = record {
  cursors = (1, 4) ∷ [];
  cooldowns =
      (record { channel_id = 1; key_id = "a" }, 40)
      ∷ (record { channel_id = 2; key_id = "b" }, 90)
      ∷ [];
}

-- An entry that has run out, and one of another channel.
healthy_keys : AllWarm two_keys 50 healthy
unfolding get
healthy_keys zero k read = ap (λ (x : ChannelKey). is_cool 1 x.id 50 healthy) (sym (some_inj read))
healthy_keys (suc zero) k read =
    ap (λ (x : ChannelKey). is_cool 1 x.id 50 healthy) (sym (some_inj read))
healthy_keys (suc (suc i)) k read = absurd (ground (arith, read))

select_many-ring_example :
    select_many 2 two_keys 50 healthy ≡ ring_from 2 (Maps.val 1 healthy.cursors) 2
unfolding get
select_many-ring_example =
    select_many-ring 2 two_keys 50 healthy (omega arith) (omega arith) healthy_keys

abbrev busy : List Deed
busy = comes 1 (pos 1) ∷ comes 1 (pos 2) ∷ gives_back 0 ∷ removes 2 ∷ []

deed-limiter_example :
    as_limiter (deed (comes 1 (pos 2)) (deeds busy no_limits))
    ≡ key_deed (comes 1 (pos 2)) (as_limiter (deeds busy no_limits))
deed-limiter_example = deed-limiter (comes 1 (pos 2)) (deeds busy no_limits)

acquire_channel_concurrency-Fair_example :
    Fair
      (channel_object 1 (deeds busy no_limits)).0
      1
      (channel_object 1 (deeds busy no_limits)).1
      (woken 20 (gives_back 1 ∷ []) ∷ timer_fired (gives_back 3 ∷ []) ∷ [])
      (acquire_channel_concurrency 1
        (pos 1)
        10
        (woken 20 (gives_back 1 ∷ []) ∷ timer_fired (gives_back 3 ∷ []) ∷ [])
        (deeds busy no_limits))
acquire_channel_concurrency-Fair_example =
    acquire_channel_concurrency-Fair 1 (pos 1) 10
      (woken 20 (gives_back 1 ∷ []) ∷ timer_fired (gives_back 3 ∷ []) ∷ []) busy (omega arith)

acquire_channel_concurrency-settled_example :
    (acquire_channel_concurrency 1
      (pos 1)
      10
      (woken 20 [] ∷ timer_fired (gives_back 3 ∷ []) ∷ [])
      (deeds busy no_limits)).1
    ≢ still_waiting
acquire_channel_concurrency-settled_example =
    acquire_channel_concurrency-settled 1 (pos 1) 10
      (woken 20 [] ∷ timer_fired (gives_back 3 ∷ []) ∷ []) (deeds busy no_limits) (ground arith)

abbrev key_a : KeyRef
key_a = record { channel_id = 1; key_id = "a" }

abbrev passed_twice : ChannelLimits
passed_twice = record no_limits { windows = (key_a, 10 ∷ 20 ∷ []) ∷ [] }

same_window :
    stored_window key_a passed_twice
    ≡ window_of 7 (record initial { windows = (7, 10 ∷ 20 ∷ []) ∷ [] })
unfolding stored_window window_of get initial
same_window = refl

try_channel_rpm_permit-acquire_example :
    let tried = try_channel_rpm_permit 60 50 key_a 2 passed_twice in
    let acquired =
      acquire_rpm_permit 60 50 7 (pos 2) (record initial { windows = (7, 10 ∷ 20 ∷ []) ∷ [] }) in
    (stored_window key_a tried.0 ≡ window_of 7 acquired.0) × (answer_of tried.1 ≡ acquired.1)
try_channel_rpm_permit-acquire_example =
    try_channel_rpm_permit-acquire 60 50 key_a 7 (pos 2) passed_twice
      (record initial { windows = (7, 10 ∷ 20 ∷ []) ∷ [] }) (omega arith) same_window

told : (try_channel_rpm_permit 60 50 key_a 2 passed_twice).1 ≡ wait_for 20
unfolding try_channel_rpm_permit stored_window get start_of from_index
told = refl

in_order : Rate.Window.Bounds.Ascending 0 (stored_window key_a passed_twice)
unfolding stored_window get
in_order = (omega arith, (omega arith, tt))

not_later : Rate.Window.Waits.Until 50 (stored_window key_a passed_twice)
unfolding stored_window get
not_later = (omega arith, (omega arith, tt))

wait_channel_rpm-passes_example :
    (0 < 20)
    × (20 ≤ 60)
    × ((wait_channel_rpm 60 key_a
          (pos 2)
          50
          (rings (50 + 20) (try_channel_rpm_permit 60 50 key_a 2 passed_twice).0 ∷ [])
          passed_twice).1
        ≡ may_go)
wait_channel_rpm-passes_example =
    wait_channel_rpm-passes 60 50 20 key_a (pos 2) passed_twice (omega arith) in_order not_later
      told

abbrev one_session : Stickies
one_session = record {
  tables = (1, ("s", record { item_id = 1; expire_at = 500 }) ∷ []) ∷ [];
  last_prune = 0;
}

one_key : Distinct (sessions_of 1 one_session)
unfolding sessions_of get
one_key = (refl, tt)

prune_session_sticky-pick_example :
    (pick_session_sticky two_members "s" [] 200
      (prune_session_sticky two_members 100 one_session)).1
    ≡ (pick_session_sticky two_members "s" [] 200 one_session).1
prune_session_sticky-pick_example =
    prune_session_sticky-pick two_members "s" [] 100 200 one_session one_key (omega arith)

of_group : (item_of two_members 2).id ≡ 2
unfolding find_item
of_group = refl

warm : is_cooling [] 1 2 200 ≡ false
unfolding is_cooling get
warm = refl

bind_session_sticky-pick_example :
    (pick_session_sticky two_members "s" [] 200
      (bind_session_sticky two_members "s" 2 100 one_session)).1
    ≡ item_of two_members 2
unfolding default_group_relay_config
bind_session_sticky-pick_example =
    bind_session_sticky-pick two_members "s" [] 2 100 200 one_session refl (omega arith) of_group
      (omega arith) (omega arith) warm
