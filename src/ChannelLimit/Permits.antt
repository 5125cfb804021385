-- ===== src/ChannelLimit/Permits.antt =====
-- tryChannelRPMPermit and waitChannelRPM (internal/relay/channellimit.go) beside AcquireRPMPermit of
-- internal/keylimit/keylimit.go.
use nova_vei.Base.{
  ℕ, ◌+◌, ◌-◌, ◌≤◌, ◌<◌, ◌≡◌, refl, sym, ap, subst, ◌∙◌, false, List, [], ◌∷◌, some, leb, ◌==◌,
  nat_eq, ℤ, pos_part, length, get_elem?, arith, Bool-cases, Option-cases, inl, inr,
}
use nova_vei.Base.Maps.{get, put, get-put}
use nova_vei.Rate.Window.{trim, admit, decide_full, Admission, granted, full, out_of_range}
use nova_vei.Rate.Window.Bounds.{Ascending}
use nova_vei.Rate.Window.Waits.{Until, full_bounds, full_retry}
use nova_vei.Keylimit.{
  Limiter, Permit, permitted, rate_limited, panics, retry_after, permit_of, window_of,
  acquire_rpm_permit,
}
use nova_vei.Keys.{KeyRef, key_ref_eq}
use nova_vei.ChannelLimit.{
  ChannelLimits, start_of, from_index, Turn, passed, wait_for, panicked, stored_window,
  try_channel_rpm_permit, Alarm, rings, Passage, sleeping, may_go, on_turn, wait_turns,
  wait_channel_rpm,
}

from_index-trim : (w now : ℕ) (win : List ℕ) → from_index (start_of w now win) win ≡ trim w now win
unfolding from_index start_of trim
from_index-trim w now [] = refl
from_index-trim w now (t ∷ win) = elim (Bool-cases (leb (t + w) now)) [
  | inl out ↦ rw out (from_index-trim w now win)
  | inr stay ↦ rw stay refl
]

-- A verdict of the key's window as one of the channel's.
abbrev pub turn_of : ℕ → Admission → Turn
turn_of now granted = passed
turn_of now (full at) = wait_for (at - now)
turn_of now out_of_range = panicked

put_window : KeyRef → ChannelLimits → List ℕ → ChannelLimits
put_window ref l win = record l { windows = put ref win l.windows }

try_channel_rpm_permit-admit :
    (w now : ℕ) (ref : KeyRef) (rpm : ℕ) (l : ChannelLimits)
    → try_channel_rpm_permit w now ref rpm l ≡ (
      put_window ref l (admit w now rpm (stored_window ref l)).0,
      turn_of now (admit w now rpm (stored_window ref l)).1,
    )
unfolding try_channel_rpm_permit admit put_window decide_full
try_channel_rpm_permit-admit w now ref rpm l =
    let stored = stored_window ref l in
    rw (from_index-trim w now stored) (elim (Bool-cases (leb rpm (length (trim w now stored)))) [
      | inl many ↦
          rw many
            (elim (Option-cases
              (get_elem? (trim w now stored) (length (trim w now stored) - rpm))) [
                | inl miss ↦ rw (miss, decide_full) refl
                | inr (t, hit) ↦ rw (hit, decide_full) refl
              ])
      | inr few ↦ rw few refl
    ])

stored_window-put :
    (ref : KeyRef) (l : ChannelLimits) (win : List ℕ)
    → stored_window ref (put_window ref l win) ≡ win
unfolding stored_window put_window
stored_window-put ref l win =
    let read : get ref (put ref win l.windows) ≡ some win =
      get-put ref ref win l.windows ∙ rw ((key_ref_eq.agree_iff ref ref).1 refl) refl in
    rw (read, stored_window) refl

with_window : ℕ → Limiter → List ℕ → Limiter
with_window key k win = record k { windows = put key win k.windows }

window_of-put : (key : ℕ) (k : Limiter) (win : List ℕ) → window_of key (with_window key k win) ≡ win
unfolding window_of with_window
window_of-put key k win =
    let read : get key (put key win k.windows) ≡ some win =
      get-put key key win k.windows ∙ rw ((nat_eq.agree_iff key key).1 refl) refl in
    rw (read, window_of) refl

-- A verdict of the channel's window as the answer that a caller of the key's window gets.
abbrev pub answer_of : Turn → Permit
answer_of passed = permitted
answer_of (wait_for d) = rate_limited (retry_after d)
answer_of panicked = panics

answer_of-turn : (now : ℕ) (a : Admission) → answer_of (turn_of now a) ≡ permit_of now a
unfolding permit_of
answer_of-turn now granted = refl
answer_of-turn now (full at) = refl
answer_of-turn now out_of_range = refl

-- Under a positive limit and with the same instants stored, the window of a channel's key and the
-- window of a downstream key give the same verdict, the wait being told in nanoseconds by the one
-- and in seconds by the other, and store the same instants.
pub try_channel_rpm_permit-acquire :
    (w now : ℕ) (ref : KeyRef) (key : ℕ) (rpm : ℤ) (l : ChannelLimits) (k : Limiter)
    → 0 < pos_part rpm
    → stored_window ref l ≡ window_of key k
    → let tried = try_channel_rpm_permit w now ref (pos_part rpm) l in
      let acquired = acquire_rpm_permit w now key rpm k in
      (stored_window ref tried.0 ≡ window_of key acquired.0) × (answer_of tried.1 ≡ acquired.1)
unfolding acquire_rpm_permit with_window
try_channel_rpm_permit-acquire w now ref key rpm l k positive same =
    let limited : (pos_part rpm == 0) ≡ false = ground (arith, positive) in
    let stored = window_of key k in
    rw (try_channel_rpm_permit-admit w now ref (pos_part rpm) l, limited)
      (
        stored_window-put ref l _
            ∙ ap (λ (s : List ℕ). (admit w now (pos_part rpm) s).0) same
            ∙ sym (window_of-put key k _),
        answer_of-turn now _
            ∙ ap (λ (s : List ℕ). permit_of now (admit w now (pos_part rpm) s).1) same,
      )

wait_for_full :
    (now d : ℕ) (a : Admission)
    → turn_of now a ≡ wait_for d
    → (at : ℕ) × (a ≡ full at) × (d ≡ at - now)
wait_for_full now d granted e = absurd (ground (arith, e))
wait_for_full now d (full at) e = (at, refl, ground (arith, e))
wait_for_full now d out_of_range e = absurd (ground (arith, e))

on_turn-wait :
    (d : ℕ) (o : ChannelLimits × Passage) (p : ChannelLimits × Turn)
    → p.1 ≡ wait_for d
    → on_turn o p ≡ o
unfolding on_turn
on_turn-wait d o (l, t) e = rw e refl

on_turn-passed :
    (o : ChannelLimits × Passage) (p : ChannelLimits × Turn)
    → p.1 ≡ passed
    → (on_turn o p).1 ≡ may_go
unfolding on_turn
on_turn-passed o (l, t) e = rw e refl

wait_turns-second :
    (w : ℕ) (ref : KeyRef) (rpm now at d : ℕ) (l left : ChannelLimits)
    → (try_channel_rpm_permit w now ref rpm l).1 ≡ wait_for d
    → (try_channel_rpm_permit w at ref rpm left).1 ≡ passed
    → (wait_turns w ref rpm now l (rings at left ∷ [])).1 ≡ may_go
unfolding wait_turns
wait_turns-second w ref rpm now at d l left told second =
    ap (λ (p : ChannelLimits × Passage). p.1)
      (on_turn-wait d (wait_turns w ref rpm at left []) (try_channel_rpm_permit w now ref rpm l)
        told)
    ∙ on_turn-passed ((try_channel_rpm_permit w at ref rpm left).0, sleeping)
        (try_channel_rpm_permit w at ref rpm left) second

wait_channel_rpm-turns :
    (w : ℕ) (ref : KeyRef) (rpm : ℤ) (now : ℕ) (alarms : List Alarm) (l : ChannelLimits)
    → 0 < pos_part rpm
    → wait_channel_rpm w ref rpm now alarms l ≡ wait_turns w ref (pos_part rpm) now l alarms
unfolding wait_channel_rpm
wait_channel_rpm-turns w ref rpm now alarms l positive =
    let limited : (pos_part rpm == 0) ≡ false = ground (arith, positive) in rw limited refl

module _ (w now d : ℕ) (ref : KeyRef) (rpm : ℕ) (l : ChannelLimits) (positive : 0 < rpm) where
  abbrev told_window : List ℕ
  told_window = stored_window ref l

  abbrev told_limits : ChannelLimits
  told_limits = (try_channel_rpm_permit w now ref rpm l).0

  passes_on_time :
      (at : ℕ)
      → Ascending 0 told_window
      → Until now told_window
      → (try_channel_rpm_permit w now ref rpm l).1 ≡ wait_for d
      → (admit w now rpm told_window).1 ≡ full at
      → d ≡ at - now
      → (0 < d)
        × (d ≤ w)
        × ((wait_turns w ref rpm now l (rings (now + d) told_limits ∷ [])).1 ≡ may_go)
  passes_on_time at asc past told refused e =
      let bounds = full_bounds w now rpm told_window positive asc past refused in
      let again = full_retry w now rpm told_window positive asc refused in
      let on_time : at ≡ now + d = omega (arith, e, bounds) in
      let left_window : stored_window ref told_limits ≡ (admit w now rpm told_window).0 =
        ap (λ (p : ChannelLimits × Turn). stored_window ref p.0)
          (try_channel_rpm_permit-admit w now ref rpm l)
        ∙ stored_window-put ref l (admit w now rpm told_window).0 in
      let second : (try_channel_rpm_permit w at ref rpm told_limits).1 ≡ passed =
        ap (λ (p : ChannelLimits × Turn). p.1)
          (try_channel_rpm_permit-admit w at ref rpm told_limits)
        ∙ ap (λ (s : List ℕ). turn_of at (admit w at rpm s).1) left_window
        ∙ ap (turn_of at) again in
      (
        omega (arith, e, bounds),
        omega (arith, e, bounds),
        subst (λ (t : ℕ). (wait_turns w ref rpm now l (rings t told_limits ∷ [])).1 ≡ may_go)
            on_time (wait_turns-second w ref rpm now at d l told_limits told second),
      )

-- Under a positive limit, with the instants stored for the key in order and none after the present, a
-- request that is told to wait waits for at least a nanosecond and at most one window length, and is
-- let through when the timer rings on time and no other request of the key came meanwhile.
pub wait_channel_rpm-passes :
    (w now d : ℕ) (ref : KeyRef) (rpm : ℤ) (l : ChannelLimits)
    → 0 < pos_part rpm
    → Ascending 0 (stored_window ref l)
    → Until now (stored_window ref l)
    → (try_channel_rpm_permit w now ref (pos_part rpm) l).1 ≡ wait_for d
    → let left = (try_channel_rpm_permit w now ref (pos_part rpm) l).0 in
      (0 < d)
      × (d ≤ w)
      × ((wait_channel_rpm w ref rpm now (rings (now + d) left ∷ []) l).1 ≡ may_go)
wait_channel_rpm-passes w now d ref rpm l positive asc past told =
    let tried = try_channel_rpm_permit-admit w now ref (pos_part rpm) l in
    let found =
      wait_for_full now d (admit w now (pos_part rpm) (stored_window ref l)).1
        (sym (ap (λ (p : ChannelLimits × Turn). p.1) tried) ∙ told) in
    let r =
      passes_on_time w now d ref (pos_part rpm) l positive found.0 asc past told found.1 found.2 in
    (
      r.0,
      r.1,
      ap (λ (p : ChannelLimits × Passage). p.1)
            (wait_channel_rpm-turns w ref rpm now
              (rings (now + d) (try_channel_rpm_permit w now ref (pos_part rpm) l).0 ∷ []) l
              positive)
          ∙ r.2,
    )
