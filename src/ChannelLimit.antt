-- ===== src/ChannelLimit.antt =====
-- internal/relay/channellimit.go: the limits of a channel, on concurrent requests, with at most a
-- second of waiting, and on the requests per minute of each of its keys. Times are nanoseconds. A
-- state object is its number in `objects`, a release closure its number in `slots`, and `wake` the
-- number of the wake channel that is open.
pub mod Places
pub mod Waits
pub mod Permits
use nova_vei.Base.{
  ℕ, zero, suc, ◌+◌, ◌-◌, ◌≡◌, Bool, true, false, not, List, [], ◌∷◌, ◌++◌, Option, none, some,
  if◌then◌else◌, leb, ltb, ◌==◌, nat_eq, ℤ, pos_part, length, get_elem?, set,
}
use nova_vei.Base.Maps.{Map, get, put, del, retain}
use nova_vei.Keylimit.{Slot, second}
use nova_vei.Keys.{KeyRef, key_ref_eq, KeyHealth, cleanup_channel_keys, clear_key_cooldowns}

pub record ConcurrencyState : Type 0 where
  pub active : ℕ
  pub wake : ℕ

pub record ChannelLimits : Type 0 where
  pub states : Map ℕ ℕ  -- channelConcurrencyStates: channel to object
  pub windows : Map KeyRef (List ℕ)  -- channelKeyWindows
  pub objects : List ConcurrencyState
  pub slots : List Slot

-- resetChannelLimits; the objects and closures that are out stay with their callers.
unfoldable pub reset_channel_limits : ChannelLimits → ChannelLimits
reset_channel_limits l = record l { states = []; windows = [] }

abbrev pub new_channel_concurrency_state : ConcurrencyState
new_channel_concurrency_state = record { active = 0; wake = 0 }

unfoldable pub object_of : ChannelLimits → ℕ → ConcurrencyState
object_of l object = elim (get_elem? l.objects object) [
  | none ↦ new_channel_concurrency_state
  | some st ↦ st
]

-- The channel's state object, made if there is none.
unfoldable pub channel_object : ℕ → ChannelLimits → ℕ × ChannelLimits
channel_object channel_id l = elim (get channel_id l.states) [
  | some object ↦ (object, l)
  | none ↦ (
    length l.objects,
    record l {
      states = put channel_id (length l.objects) l.states;
      objects = l.objects ++ new_channel_concurrency_state ∷ [];
    },
  )
]

-- One pass through the loop up to the unlocking: the closure's number, or nothing if it is full.
unfoldable pub try_place : ℕ → ℕ → ChannelLimits → ChannelLimits × Option ℕ
unfolding object_of
try_place object limit l =
    let st = object_of l object in
    if ltb st.active limit
    then (
      record l {
        objects = set l.objects object (record st { active = st.active + 1 });
        slots = l.slots ++ record { object = object; released = false } ∷ [];
      },
      some (length l.slots),
    )
    else (l, none)

-- channelConcurrencyState.release
unfoldable pub release_state : ConcurrencyState → ConcurrencyState
release_state st = record {
  active = if ltb 0 st.active then st.active - 1 else st.active;
  wake = st.wake + 1;
}

unfoldable pub release_unfired : ℕ → Slot → ChannelLimits → ChannelLimits
unfolding object_of release_state
release_unfired i s l = if s.released then l else record l {
  objects = set l.objects s.object (release_state (object_of l s.object));
  slots = set l.slots i (record s { released = true });
}

-- A call of the closure: sync.Once runs `release` on the first one only.
unfoldable pub release_place : ℕ → ChannelLimits → ChannelLimits
unfolding release_unfired
release_place i l = elim (get_elem? l.slots i) [ none ↦ l | some s ↦ release_unfired i s l ]

-- The windows of a channel that cleanupChannelLimits clears, and how many they are.
unfoldable pub cleanup_channel_limits : ℕ → ChannelLimits → ℕ × ChannelLimits
unfolding retain del
cleanup_channel_limits channel_id l =
    let left =
      retain (λ (ref : KeyRef) (w : List ℕ). not (ref.channel_id == channel_id)) l.windows in
    (length l.windows - length left, record l { states = del channel_id l.states; windows = left })

-- What other requests do while one of them waits: a request comes, a waiting one tries again, a
-- closure is called, a channel is removed.
pub data Deed : Type 0 where
  comes : ℕ → ℤ → Deed
  retries : ℕ → ℕ → Deed
  gives_back : ℕ → Deed
  removes : ℕ → Deed

unfoldable pub deed : Deed → ChannelLimits → ChannelLimits
unfolding channel_object try_place release_place cleanup_channel_limits
deed (comes channel_id limit) l =
    if pos_part limit == 0
    then l
    else (let (object, l') = channel_object channel_id l in
        (try_place object (pos_part limit) l').0)
deed (retries object limit) l =
    if ltb object (length l.objects) then (try_place object limit l).0 else l
deed (gives_back i) l = release_place i l
deed (removes channel_id) l = (cleanup_channel_limits channel_id l).1

unfoldable pub deeds : List Deed → ChannelLimits → ChannelLimits
unfolding deed
deeds [] l = l
deeds (d ∷ ds) l = deeds ds (deed d l)

-- What ends the select: the wake channel was closed, and the clock by the time the lock is taken again;
-- the context was done; or the timer fired. Each carries what others did since the lock was given up.
pub data Waking : Type 0 where
  woken : ℕ → List Deed → Waking
  context_done timer_fired : List Deed → Waking

-- `still_waiting` is that nothing has ended the select yet.
pub data Place : Type 0 where
  no_limit : Place
  granted_place : ℕ → Place
  context_error concurrency_limit_reached still_waiting : Place

unfoldable pub on_full :
    ℕ → ℕ → ChannelLimits × Place → ChannelLimits × Option ℕ → ChannelLimits × Place
on_full deadline now otherwise (l, some closure) = (l, granted_place closure)
on_full deadline now otherwise (l, none) =
    if leb deadline now then (l, concurrency_limit_reached) else otherwise

-- The loop of acquireChannelConcurrency.
unfoldable pub acquire_turns : ℕ → ℕ → ℕ → ℕ → ChannelLimits → List Waking → ChannelLimits × Place
unfolding try_place on_full deeds
acquire_turns deadline object limit now l [] =
    on_full deadline now (l, still_waiting) (try_place object limit l)
acquire_turns deadline object limit now l (woken clock ds ∷ turns) =
    let again = acquire_turns deadline object limit clock (deeds ds l) turns in
    on_full deadline now again (try_place object limit l)
acquire_turns deadline object limit now l (context_done ds ∷ turns) =
    on_full deadline now (deeds ds l, context_error) (try_place object limit l)
acquire_turns deadline object limit now l (timer_fired ds ∷ turns) =
    on_full deadline now (deeds ds l, concurrency_limit_reached) (try_place object limit l)

unfoldable pub acquire_channel_concurrency :
    ℕ → ℤ → ℕ → List Waking → ChannelLimits → ChannelLimits × Place
unfolding channel_object acquire_turns
acquire_channel_concurrency channel_id limit now turns l =
    if pos_part limit == 0
    then (l, no_limit)
    else (let (object, l') = channel_object channel_id l in
        acquire_turns (now + second) object (pos_part limit) now l' turns)

-- The number of instants at the front of a window that are not after the cutoff.
unfoldable pub start_of : ℕ → ℕ → List ℕ → ℕ
start_of window_length now [] = 0
start_of window_length now (t ∷ ts) =
    let more = start_of window_length now ts in if leb (t + window_length) now then suc more else 0

-- `window[start:]`
unfoldable pub from_index {ℓ} : {A : Type ℓ} → ℕ → List A → List A
from_index zero xs = xs
from_index (suc n) [] = []
from_index (suc n) (x ∷ xs) = from_index n xs

pub data Turn : Type 0 where
  passed : Turn
  wait_for : ℕ → Turn
  panicked : Turn

unfoldable pub stored_window : KeyRef → ChannelLimits → List ℕ
unfolding get
stored_window ref l = elim (get ref l.windows) [ none ↦ [] | some w ↦ w ]

-- tryChannelRPMPermit
unfoldable pub try_channel_rpm_permit : ℕ → ℕ → KeyRef → ℕ → ChannelLimits → ChannelLimits × Turn
unfolding start_of from_index stored_window put
try_channel_rpm_permit rpm_window now ref rpm l =
    let stored = stored_window ref l in
    let window = from_index (start_of rpm_window now stored) stored in
    let refusal = elim (get_elem? window (length window - rpm)) as (λ _. Turn) [
      | none ↦ panicked
      | some t ↦ wait_for (t + rpm_window - now)
    ] in
    if leb rpm (length window)
    then (record l { windows = put ref window l.windows }, refusal)
    else (record l { windows = put ref (window ++ now ∷ []) l.windows }, passed)

-- What ends the select of waitChannelRPM: the timer, with the clock and the limits as the others left
-- them by then; the context; or the stop channel.
pub data Alarm : Type 0 where
  rings : ℕ → ChannelLimits → Alarm
  context_ends admin_stops : Alarm

pub data Passage : Type 0 where
  may_go : Passage
  context_cut admin_stopped sleeping : Passage
  crashed : Passage

unfoldable pub on_turn : ChannelLimits × Passage → ChannelLimits × Turn → ChannelLimits × Passage
on_turn otherwise (l, passed) = (l, may_go)
on_turn otherwise (l, wait_for d) = otherwise
on_turn otherwise (l, panicked) = (l, crashed)

unfoldable pub wait_turns :
    ℕ → KeyRef → ℕ → ℕ → ChannelLimits → List Alarm → ChannelLimits × Passage
unfolding try_channel_rpm_permit on_turn
wait_turns rpm_window ref rpm now l [] =
    let tried = try_channel_rpm_permit rpm_window now ref rpm l in on_turn (tried.0, sleeping) tried
wait_turns rpm_window ref rpm now l (rings clock l' ∷ alarms) =
    let again = wait_turns rpm_window ref rpm clock l' alarms in
    on_turn again (try_channel_rpm_permit rpm_window now ref rpm l)
wait_turns rpm_window ref rpm now l (context_ends ∷ alarms) =
    let tried = try_channel_rpm_permit rpm_window now ref rpm l in
    on_turn (tried.0, context_cut) tried
wait_turns rpm_window ref rpm now l (admin_stops ∷ alarms) =
    let tried = try_channel_rpm_permit rpm_window now ref rpm l in
    on_turn (tried.0, admin_stopped) tried

-- waitChannelRPM
unfoldable pub wait_channel_rpm :
    ℕ → KeyRef → ℤ → ℕ → List Alarm → ChannelLimits → ChannelLimits × Passage
unfolding wait_turns del
wait_channel_rpm rpm_window ref rpm now alarms l =
    if pos_part rpm == 0
    then (record l { windows = del ref l.windows }, may_go)
    else wait_turns rpm_window ref (pos_part rpm) now l alarms

-- ClearChannelKeyStateForUI: how many cooldowns and windows of the channel were cleared.
unfoldable pub clear_channel_key_state_for_ui :
    ℕ → KeyHealth → ChannelLimits → ℕ × KeyHealth × ChannelLimits
unfolding clear_key_cooldowns cleanup_channel_limits
clear_channel_key_state_for_ui channel_id h l =
    let (cooldowns, h') = clear_key_cooldowns channel_id h in
    let (windows, l') = cleanup_channel_limits channel_id l in (cooldowns + windows, h', l')

-- CleanupChannelKeyState
unfoldable pub cleanup_channel_key_state : ℕ → KeyHealth → ChannelLimits → KeyHealth × ChannelLimits
unfolding cleanup_channel_keys cleanup_channel_limits
cleanup_channel_key_state channel_id h l =
    (cleanup_channel_keys channel_id h, (cleanup_channel_limits channel_id l).1)
