-- ===== src/Relay/Settings.antt =====
-- The limits that internal/relay/handler.go reads from a group's configuration.
use nova_vei.Base.{
  ℕ, ◌-◌, ◌*◌, Bool, true, false, not, ◌&&◌, if◌then◌else◌, ltb, leb, ◌==◌, nat_eq, ℤ, pos_part,
  is_negative,
}
use nova_vei.Group.{GroupRelayConfig, default_group_relay_config}

-- `if x > 0 { return x }; return d`
abbrev positive_or : ℤ → ℤ → ℕ
positive_or x d = if ltb 0 (pos_part x) then pos_part x else pos_part d

-- `if x >= 0 { return x }; return d`
abbrev unsigned_or : ℤ → ℤ → ℕ
unsigned_or x d = if is_negative x then pos_part d else pos_part x

-- maxRequestRounds
unfoldable pub max_request_rounds : GroupRelayConfig → ℕ
unfolding default_group_relay_config
max_request_rounds config =
    positive_or config.max_request_rounds default_group_relay_config.max_request_rounds

-- requestDeadlineExceeded, of times in milliseconds.
unfoldable pub request_deadline_exceeded : GroupRelayConfig → ℕ → ℕ → Bool
unfolding default_group_relay_config
request_deadline_exceeded config started_at now =
    let seconds =
      unsigned_or config.max_request_seconds default_group_relay_config.max_request_seconds in
    let late = leb (seconds * 1000) (now - started_at) in
    if not (is_negative config.max_request_seconds) && pos_part config.max_request_seconds == 0
    then false
    else late

-- memberTimeoutSeconds
unfoldable pub member_timeout_seconds : GroupRelayConfig → Bool → ℕ
unfolding default_group_relay_config
member_timeout_seconds config true =
    positive_or config.member_stream_first_event_timeout_seconds
      default_group_relay_config.member_stream_first_event_timeout_seconds
member_timeout_seconds config false =
    positive_or config.member_non_stream_response_timeout_seconds
      default_group_relay_config.member_non_stream_response_timeout_seconds

-- streamIdleSeconds
unfoldable pub stream_idle_seconds : GroupRelayConfig → ℕ
unfolding default_group_relay_config
stream_idle_seconds config =
    unsigned_or config.member_stream_idle_timeout_seconds
      default_group_relay_config.member_stream_idle_timeout_seconds

-- streamMaxBytes
unfoldable pub stream_max_bytes : GroupRelayConfig → ℕ
unfolding default_group_relay_config
stream_max_bytes config =
    unsigned_or config.member_stream_max_bytes default_group_relay_config.member_stream_max_bytes

-- streamMaxEvents
unfoldable pub stream_max_events : GroupRelayConfig → ℕ
unfolding default_group_relay_config
stream_max_events config =
    unsigned_or config.member_stream_max_events default_group_relay_config.member_stream_max_events
