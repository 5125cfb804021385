-- ===== src/Group/Normal.antt =====
-- NormalizeGroupRelayConfig of internal/model/group.go. Its first test, `*config == (GroupRelayConfig{})`,
-- compares all fields with their zero values.
use nova_vei.Base.{
  ◌≤◌, ◌≡◌, refl, Bool, false, ◌&&◌, not, if◌then◌else◌, ◌==◌, nat_eq, ℤ, pos, negsuc, pos_part,
  is_negative, arith, Bool-cases, inl, inr,
}
use nova_vei.Group.{
  GroupRelayConfig, Fraction, default_group_relay_config, at_least_one, not_negative, multiplier_or,
}

unfoldable pub is_zero : ℤ → Bool
is_zero (pos n) = n == 0
is_zero (negsuc n) = false

unfoldable pub is_zero_config : GroupRelayConfig → Bool
unfolding is_zero
is_zero_config c =
    is_zero c.member_max_attempts
    && is_zero c.member_infra_max_retries
    && is_zero c.member_retry_interval_seconds
    && is_zero c.member_non_stream_response_timeout_seconds
    && is_zero c.member_stream_first_event_timeout_seconds
    && is_zero c.member_stream_idle_timeout_seconds
    && is_zero c.member_stream_max_bytes
    && is_zero c.member_stream_max_events
    && is_zero c.member_cooldown_seconds
    && is_zero c.member_affinity_seconds
    && is_zero c.max_request_rounds
    && is_zero c.max_request_seconds
    && not c.session_sticky_enabled
    && is_zero c.session_sticky_seconds
    && is_zero c.cooldown_backoff_multiplier.numerator
    && is_zero c.cooldown_max_seconds
    && is_zero c.all_cooldown_retry_base_seconds
    && is_zero c.all_cooldown_retry_max_seconds
    && not c.background_probe_enabled
    && is_zero c.background_probe_interval_seconds
    && is_zero c.emergency_item_id
    && not c.prefer_passthrough
    && not c.mask_enabled
    && not c.auto_match_models

unfoldable pub fill_in : GroupRelayConfig → GroupRelayConfig → GroupRelayConfig
fill_in d c = record c {
  member_max_attempts = at_least_one c.member_max_attempts d.member_max_attempts;
  member_infra_max_retries = not_negative c.member_infra_max_retries d.member_infra_max_retries;
  member_retry_interval_seconds =
      at_least_one c.member_retry_interval_seconds d.member_retry_interval_seconds;
  member_non_stream_response_timeout_seconds =
      at_least_one c.member_non_stream_response_timeout_seconds
        d.member_non_stream_response_timeout_seconds;
  member_stream_first_event_timeout_seconds =
      at_least_one c.member_stream_first_event_timeout_seconds
        d.member_stream_first_event_timeout_seconds;
  member_stream_idle_timeout_seconds =
      not_negative c.member_stream_idle_timeout_seconds d.member_stream_idle_timeout_seconds;
  member_stream_max_bytes = not_negative c.member_stream_max_bytes d.member_stream_max_bytes;
  member_stream_max_events = not_negative c.member_stream_max_events d.member_stream_max_events;
  member_cooldown_seconds = at_least_one c.member_cooldown_seconds d.member_cooldown_seconds;
  member_affinity_seconds = not_negative c.member_affinity_seconds d.member_affinity_seconds;
  max_request_rounds = at_least_one c.max_request_rounds d.max_request_rounds;
  max_request_seconds = not_negative c.max_request_seconds d.max_request_seconds;
  session_sticky_seconds = at_least_one c.session_sticky_seconds d.session_sticky_seconds;
  cooldown_backoff_multiplier =
      multiplier_or c.cooldown_backoff_multiplier d.cooldown_backoff_multiplier;
  cooldown_max_seconds = at_least_one c.cooldown_max_seconds d.cooldown_max_seconds;
  all_cooldown_retry_base_seconds =
      not_negative c.all_cooldown_retry_base_seconds d.all_cooldown_retry_base_seconds;
  all_cooldown_retry_max_seconds =
      at_least_one c.all_cooldown_retry_max_seconds d.all_cooldown_retry_max_seconds;
  background_probe_interval_seconds =
      at_least_one c.background_probe_interval_seconds d.background_probe_interval_seconds;
  emergency_item_id = not_negative c.emergency_item_id (pos 0);
}

unfoldable pub normalize_group_relay_config : GroupRelayConfig → GroupRelayConfig
unfolding is_zero_config fill_in default_group_relay_config at_least_one not_negative multiplier_or
normalize_group_relay_config c =
    if is_zero_config c then default_group_relay_config else fill_in default_group_relay_config c

-- What the relay relies on in a configuration.
pub record IsNormal (c : GroupRelayConfig) : Type 0 where
  pub attempts : 1 ≤ pos_part c.member_max_attempts
  pub infra : is_negative c.member_infra_max_retries ≡ false
  pub interval : 1 ≤ pos_part c.member_retry_interval_seconds
  pub response_timeout : 1 ≤ pos_part c.member_non_stream_response_timeout_seconds
  pub first_event_timeout : 1 ≤ pos_part c.member_stream_first_event_timeout_seconds
  pub idle_timeout : is_negative c.member_stream_idle_timeout_seconds ≡ false
  pub stream_bytes : is_negative c.member_stream_max_bytes ≡ false
  pub stream_events : is_negative c.member_stream_max_events ≡ false
  pub cooldown : 1 ≤ pos_part c.member_cooldown_seconds
  pub affinity : is_negative c.member_affinity_seconds ≡ false
  pub rounds : 1 ≤ pos_part c.max_request_rounds
  pub seconds : is_negative c.max_request_seconds ≡ false
  pub sticky : 1 ≤ pos_part c.session_sticky_seconds
  pub multiplier :
      c.cooldown_backoff_multiplier.denominator ≤ pos_part c.cooldown_backoff_multiplier.numerator
  pub ceiling : 1 ≤ pos_part c.cooldown_max_seconds
  pub retry_base : is_negative c.all_cooldown_retry_base_seconds ≡ false
  pub retry_max : 1 ≤ pos_part c.all_cooldown_retry_max_seconds
  pub probe_interval : 1 ≤ pos_part c.background_probe_interval_seconds
  pub emergency : is_negative c.emergency_item_id ≡ false

at_least_one-pos : (x d : ℤ) → 1 ≤ pos_part d → 1 ≤ pos_part (at_least_one x d)
unfolding at_least_one
at_least_one-pos x d h = ground arith

at_least_one-same : (x d : ℤ) → 1 ≤ pos_part x → at_least_one x d ≡ x
unfolding at_least_one
at_least_one-same x d h = ground arith

not_negative_lem : (x d : ℤ) → is_negative d ≡ false → is_negative (not_negative x d) ≡ false
unfolding not_negative
not_negative_lem x d h = ground arith

not_negative-same : (x d : ℤ) → is_negative x ≡ false → not_negative x d ≡ x
unfolding not_negative
not_negative-same x d h = ground arith

multiplier_or-ge :
    (m d : Fraction)
    → d.denominator ≤ pos_part d.numerator
    → (multiplier_or m d).denominator ≤ pos_part (multiplier_or m d).numerator
unfolding multiplier_or
multiplier_or-ge m d h = ground arith

multiplier_or-same : (m d : Fraction) → m.denominator ≤ pos_part m.numerator → multiplier_or m d ≡ m
unfolding multiplier_or
multiplier_or-same m d h = ground arith

default-IsNormal : IsNormal default_group_relay_config
unfolding default_group_relay_config
default-IsNormal = record {
  attempts = omega arith;
  infra = refl;
  interval = omega arith;
  response_timeout = omega arith;
  first_event_timeout = omega arith;
  idle_timeout = refl;
  stream_bytes = refl;
  stream_events = refl;
  cooldown = omega arith;
  affinity = refl;
  rounds = omega arith;
  seconds = refl;
  sticky = omega arith;
  multiplier = omega arith;
  ceiling = omega arith;
  retry_base = refl;
  retry_max = omega arith;
  probe_interval = omega arith;
  emergency = refl;
}

fill_in-IsNormal : (d c : GroupRelayConfig) → IsNormal d → IsNormal (fill_in d c)
unfolding fill_in
fill_in-IsNormal d c v = record {
  attempts = at_least_one-pos _ _ v.attempts;
  infra = not_negative_lem _ _ v.infra;
  interval = at_least_one-pos _ _ v.interval;
  response_timeout = at_least_one-pos _ _ v.response_timeout;
  first_event_timeout = at_least_one-pos _ _ v.first_event_timeout;
  idle_timeout = not_negative_lem _ _ v.idle_timeout;
  stream_bytes = not_negative_lem _ _ v.stream_bytes;
  stream_events = not_negative_lem _ _ v.stream_events;
  cooldown = at_least_one-pos _ _ v.cooldown;
  affinity = not_negative_lem _ _ v.affinity;
  rounds = at_least_one-pos _ _ v.rounds;
  seconds = not_negative_lem _ _ v.seconds;
  sticky = at_least_one-pos _ _ v.sticky;
  multiplier = multiplier_or-ge c.cooldown_backoff_multiplier _ v.multiplier;
  ceiling = at_least_one-pos _ _ v.ceiling;
  retry_base = not_negative_lem _ _ v.retry_base;
  retry_max = at_least_one-pos _ _ v.retry_max;
  probe_interval = at_least_one-pos _ _ v.probe_interval;
  emergency = not_negative_lem c.emergency_item_id (pos 0) refl;
}

fill_in-same : (d c : GroupRelayConfig) → IsNormal c → fill_in d c ≡ c
unfolding fill_in
fill_in-same d c v = λ i. record c {
  member_max_attempts = at_least_one-same c.member_max_attempts d.member_max_attempts v.attempts i;
  member_infra_max_retries =
      not_negative-same c.member_infra_max_retries d.member_infra_max_retries v.infra i;
  member_retry_interval_seconds =
      at_least_one-same c.member_retry_interval_seconds d.member_retry_interval_seconds v.interval
        i;
  member_non_stream_response_timeout_seconds =
      at_least_one-same c.member_non_stream_response_timeout_seconds
        d.member_non_stream_response_timeout_seconds v.response_timeout i;
  member_stream_first_event_timeout_seconds =
      at_least_one-same c.member_stream_first_event_timeout_seconds
        d.member_stream_first_event_timeout_seconds v.first_event_timeout i;
  member_stream_idle_timeout_seconds =
      not_negative-same c.member_stream_idle_timeout_seconds d.member_stream_idle_timeout_seconds
        v.idle_timeout i;
  member_stream_max_bytes =
      not_negative-same c.member_stream_max_bytes d.member_stream_max_bytes v.stream_bytes i;
  member_stream_max_events =
      not_negative-same c.member_stream_max_events d.member_stream_max_events v.stream_events i;
  member_cooldown_seconds =
      at_least_one-same c.member_cooldown_seconds d.member_cooldown_seconds v.cooldown i;
  member_affinity_seconds =
      not_negative-same c.member_affinity_seconds d.member_affinity_seconds v.affinity i;
  max_request_rounds = at_least_one-same c.max_request_rounds d.max_request_rounds v.rounds i;
  max_request_seconds = not_negative-same c.max_request_seconds d.max_request_seconds v.seconds i;
  session_sticky_seconds =
      at_least_one-same c.session_sticky_seconds d.session_sticky_seconds v.sticky i;
  cooldown_backoff_multiplier =
      multiplier_or-same c.cooldown_backoff_multiplier d.cooldown_backoff_multiplier v.multiplier i;
  cooldown_max_seconds =
      at_least_one-same c.cooldown_max_seconds d.cooldown_max_seconds v.ceiling i;
  all_cooldown_retry_base_seconds =
      not_negative-same c.all_cooldown_retry_base_seconds d.all_cooldown_retry_base_seconds
        v.retry_base i;
  all_cooldown_retry_max_seconds =
      at_least_one-same c.all_cooldown_retry_max_seconds d.all_cooldown_retry_max_seconds
        v.retry_max i;
  background_probe_interval_seconds =
      at_least_one-same c.background_probe_interval_seconds d.background_probe_interval_seconds
        v.probe_interval i;
  emergency_item_id = not_negative-same c.emergency_item_id (pos 0) v.emergency i;
}

not-is_zero_config : (c : GroupRelayConfig) → IsNormal c → is_zero_config c ≡ false
unfolding is_zero_config
not-is_zero_config c v = rw (not_zero c.member_max_attempts v.attempts)
  where
    not_zero : (x : ℤ) → 1 ≤ pos_part x → is_zero x ≡ false
    not_zero (pos n) h = ground arith
    not_zero (negsuc n) h = refl

-- Whatever the stored configuration, the normalised one is within the ranges that the relay
-- relies on.
pub normalize_group_relay_config-IsNormal :
    (c : GroupRelayConfig) → IsNormal (normalize_group_relay_config c)
unfolding normalize_group_relay_config
normalize_group_relay_config-IsNormal c = elim (Bool-cases (is_zero_config c)) [
  | inl zeros ↦ rw (zeros, normalize_group_relay_config) default-IsNormal
  | inr some_set ↦
      rw (some_set, normalize_group_relay_config)
        (fill_in-IsNormal default_group_relay_config c default-IsNormal)
]

-- A configuration that is within the ranges is left as it is, the fields that 0 switches off
-- included.
pub normalize_group_relay_config-same :
    (c : GroupRelayConfig) → IsNormal c → normalize_group_relay_config c ≡ c
unfolding normalize_group_relay_config
normalize_group_relay_config-same c v =
    rw (not-is_zero_config c v, normalize_group_relay_config)
      (fill_in-same default_group_relay_config c v)
