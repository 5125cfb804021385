-- ===== src/Keylimit.antt =====
-- internal/keylimit/keylimit.go: the limits of a downstream API key, on concurrent requests and on
-- requests per minute. A concurrencyState is an object that the closures handed out keep alive, so
-- the objects stand in a heap of their own, by number, and the table maps a key to its object.
pub mod Slots
pub mod Traces
use nova_vei.Base.{
  ℕ, suc, ◌+◌, ◌-◌, ◌/◌, max, Bool, true, false, List, [], ◌∷◌, ◌++◌, Option, none, some,
  if◌then◌else◌, leb, ltb, ◌==◌, nat_eq, ℤ, pos_part, length, get_elem?, set,
}
use nova_vei.Base.Maps.{Map, get, put, del}
use nova_vei.Rate.Window.{Admission, granted, full, out_of_range, admit}

-- The closure that AcquireConcurrency returns for a slot: its state object, and whether its
-- sync.Once has fired.
pub record Slot : Type 0 where
  pub object : ℕ
  pub released : Bool

pub record Limiter : Type 0 where
  pub states : Map ℕ ℕ  -- key to object
  pub windows : Map ℕ (List ℕ)  -- key to the instants let through
  pub objects : List ℕ  -- `active` of each concurrencyState
  pub slots : List Slot  -- every closure handed out

unfoldable pub initial : Limiter
initial = record { states = []; windows = []; objects = []; slots = [] }

-- `unlimited` is the closure that does nothing; `acquired` carries the closure's number.
pub data Acquired : Type 0 where
  unlimited : Acquired
  acquired : ℕ → Acquired
  concurrency_full : Acquired

unfoldable pub active_of : Limiter → ℕ → ℕ
active_of l object = elim (get_elem? l.objects object) [ none ↦ 0 | some n ↦ n ]

-- The key's state object, made on the first call.
unfoldable pub state_object : ℕ → Limiter → ℕ × Limiter
state_object key l = elim (get key l.states) [
  | some object ↦ (object, l)
  | none ↦ (
    length l.objects,
    record l { states = put key (length l.objects) l.states; objects = l.objects ++ 0 ∷ [] },
  )
]

unfoldable pub take_slot : ℕ → ℕ → Limiter → Limiter × Acquired
unfolding active_of
take_slot object limit l = if leb limit (active_of l object) then (l, concurrency_full) else (
  record l {
    objects = set l.objects object (active_of l object + 1);
    slots = l.slots ++ record { object = object; released = false } ∷ [];
  },
  acquired (length l.slots),
)

unfoldable pub acquire_concurrency : ℕ → ℤ → Limiter → Limiter × Acquired
unfolding state_object take_slot
acquire_concurrency key limit l =
    if pos_part limit == 0
    then (l, unlimited)
    else (let (object, l') = state_object key l in take_slot object (pos_part limit) l')

-- concurrencyState.release
unfoldable pub release_object : ℕ → Limiter → Limiter
unfolding active_of
release_object object l =
    if ltb 0 (active_of l object)
    then record l { objects = set l.objects object (active_of l object - 1) }
    else l

unfoldable pub release_fresh : ℕ → Slot → Limiter → Limiter
unfolding release_object
release_fresh i s l =
    if s.released
    then l
    else release_object s.object (record l { slots = set l.slots i (record s { released = true }) })

-- A call of the closure: sync.Once runs `release` on the first one only.
unfoldable pub release : ℕ → Limiter → Limiter
unfolding release_fresh
release i l = elim (get_elem? l.slots i) [ none ↦ l | some s ↦ release_fresh i s l ]

pub data Permit : Type 0 where
  permitted : Permit
  rate_limited : ℕ → Permit  -- Retry-After, in seconds
  panics : Permit

abbrev pub second : ℕ
second = 1_000_000_000

-- `int(math.Ceil(d.Seconds()))`, at least 1.
unfoldable pub retry_after : ℕ → ℕ
retry_after wait = max ((wait + (second - 1)) / second) 1

unfoldable pub permit_of : ℕ → Admission → Permit
unfolding retry_after
permit_of now granted = permitted
permit_of now (full at) = rate_limited (retry_after (at - now))
permit_of now out_of_range = panics

unfoldable pub window_of : ℕ → Limiter → List ℕ
window_of key l = elim (get key l.windows) [ none ↦ [] | some w ↦ w ]

-- `rpm_window` is the package's variable of that name, `now` the clock.
unfoldable pub acquire_rpm_permit : ℕ → ℕ → ℕ → ℤ → Limiter → Limiter × Permit
unfolding admit window_of permit_of
acquire_rpm_permit rpm_window now key rpm l =
    if pos_part rpm == 0
    then (record l { windows = del key l.windows }, permitted)
    else (let answer = admit rpm_window now (pos_part rpm) (window_of key l) in
        (record l { windows = put key answer.0 l.windows }, permit_of now answer.1))

unfoldable pub cleanup : ℕ → Limiter → Limiter
cleanup key l = record l { states = del key l.states; windows = del key l.windows }

-- The test isolation entry: the tables are new, the objects and closures are what callers hold.
unfoldable pub reset : Limiter → Limiter
reset l = record l { states = []; windows = [] }
