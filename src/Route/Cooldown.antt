-- ===== src/Route/Cooldown.antt =====
-- cooldownMillis of internal/relay/route.go. Its float64 arithmetic is exact arithmetic on
-- fractions here, so no rounding of a power is modelled.
use nova_vei.Base.{ℕ, ◌*◌, ◌/◌, ◌^◌, max, ◌&&◌, if◌then◌else◌, ltb, leb, pos_part}
use nova_vei.Group.{GroupRelayConfig}

-- `max(config.CooldownBackoffMultiplier, 1)`, its numerator and denominator.
unfoldable pub multiplier : GroupRelayConfig → ℕ × ℕ
multiplier c =
    if ltb (pos_part c.cooldown_backoff_multiplier.numerator)
      c.cooldown_backoff_multiplier.denominator
    then (1, 1)
    else (
      pos_part c.cooldown_backoff_multiplier.numerator,
      c.cooldown_backoff_multiplier.denominator,
    )

-- `seconds` before the ceiling.
unfoldable pub backoff : ℕ → ℕ × ℕ → ℕ → ℕ × ℕ
backoff base (n, d) level = (base * n ^ level, d ^ level)

unfoldable pub capped_millis : ℕ → ℕ × ℕ → ℕ
capped_millis ceiling (n, d) =
    if leb 1 ceiling && ltb (ceiling * d) n then ceiling * 1000 else n * 1000 / d

unfoldable pub cooldown_millis : GroupRelayConfig → ℕ → ℕ
unfolding multiplier backoff capped_millis
cooldown_millis c level =
    capped_millis (pos_part c.cooldown_max_seconds)
      (backoff (max (pos_part c.member_cooldown_seconds) 1) (multiplier c) level)
