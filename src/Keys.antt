-- ===== src/Keys.antt =====
-- internal/relay/keyselect.go: the keys of a channel, used in turn, and their cooldowns. Times are
-- nanoseconds. The proxy template is resolved by the helper package, a parameter.
pub mod Cooling
pub mod Ring
use Prim.Native.String.{String}
use nova_vei.Base.{
  ℕ, zero, suc, ◌+◌, ◌-◌, ◌*◌, ◌%◌, ◌≡◌, ◌↔◌, Bool, true, false, not, ◌&&◌, ◌||◌, List, [], ◌∷◌,
  Option, none, some, if◌then◌else◌, ltb, leb, ◌==◌, Keyed, nat_eq, string_eq, length, get_elem?, ℤ,
  pos, pos_part, arith,
}
use nova_vei.Base.Maps.{Map, get, put, del, retain, val}
use nova_vei.Channel.{Channel, ChannelKey}
use nova_vei.Keylimit.{second}
use nova_vei.Group.{default_group_relay_config}

pub record KeyRef : Type 0 where
  pub channel_id : ℕ
  pub key_id : String

abbrev pub same_ref : KeyRef → KeyRef → Bool
same_ref a b = a.channel_id == b.channel_id && a.key_id == b.key_id

pub same_ref_iff : (a b : KeyRef) → (same_ref a b ≡ true) ↔ (a ≡ b)
same_ref_iff a b =
    ground
      (arith, nat_eq.agree_iff a.channel_id b.channel_id, string_eq.agree_iff a.key_id b.key_id)

instance abbrev pub key_ref_eq : Keyed KeyRef
key_ref_eq = record { agree = same_ref; agree_iff = same_ref_iff }

-- keyCursors and keyCooldowns.
pub record KeyHealth : Type 0 where
  pub cursors : Map ℕ ℕ
  pub cooldowns : Map KeyRef ℕ

-- resetChannelKeyHealth
abbrev pub no_key_health : KeyHealth
no_key_health = record { cursors = []; cooldowns = [] }

abbrev pub two_64 : ℕ
two_64 = 18446744073709551616

abbrev pub two_63 : ℕ
two_63 = 9223372036854775808

-- `cursor.Add(1)` on the channel's cursor, made if there is none.
unfoldable pub take_ticket : ℕ → KeyHealth → ℕ × KeyHealth
unfolding get put
take_ticket channel_id h =
    let ticket = (val channel_id h.cursors + 1) % two_64 in
    (ticket, record h { cursors = put channel_id ticket h.cursors })

-- The instant so many seconds after another, where `time.Duration(seconds) * time.Second` wraps as an
-- int64 does: a product beyond its range may be negative, and the instant lies in the past.
unfoldable pub after_seconds : ℕ → ℕ → ℕ
after_seconds now seconds =
    let d = seconds * second % two_64 in if ltb d two_63 then now + d else now - (two_64 - d)

-- markChannelKeyCooldown
unfoldable pub mark_channel_key_cooldown : ℕ → String → ℤ → ℕ → KeyHealth → KeyHealth
unfolding put default_group_relay_config after_seconds
mark_channel_key_cooldown channel_id key_id seconds now h =
    let configured = pos_part seconds in
    let used =
      if ltb configured 1
      then pos_part default_group_relay_config.member_cooldown_seconds
      else configured in
    record h {
      cooldowns =
          put (record { channel_id = channel_id; key_id = key_id }) (after_seconds now used)
            h.cooldowns;
    }

-- channelKeyCooling
unfoldable pub channel_key_cooling : ℕ → String → ℕ → KeyHealth → KeyHealth × Bool
unfolding get del
channel_key_cooling channel_id key_id now h =
    let ref : KeyRef = record { channel_id = channel_id; key_id = key_id } in
    elim (get ref h.cooldowns) [
      | none ↦ (h, false)
      | some deadline ↦
          if ltb now deadline
          then (h, true)
          else (record h { cooldowns = del ref h.cooldowns }, false)
    ]

abbrev pub single_key : Channel → ChannelKey
single_key channel = record { id = ""; key = channel.key; remark = "" }

-- The loop of selectChannelKey from an offset on, with so many keys left to look at.
unfoldable pub scan_keys :
    ℕ → List ChannelKey → ℕ → ℕ → ℕ → ℕ → KeyHealth → KeyHealth × Option (ℕ × ChannelKey)
unfolding channel_key_cooling
scan_keys channel_id keys now start offset zero h = (h, none)
scan_keys channel_id keys now start offset (suc left) h =
    let idx = (start + offset) % length keys in
    elim (get_elem? keys idx) [
      | none ↦ (h, none)
      | some candidate ↦
          let (h', cooling) = channel_key_cooling channel_id candidate.id now h in
          let rest = scan_keys channel_id keys now start (offset + 1) left h' in
          if cooling then rest else (h', some (idx, candidate))
    ]

-- selectChannelKey; `none` is that no key can be used.
unfoldable pub select_channel_key : Channel → ℕ → KeyHealth → KeyHealth × Option (ℕ × ChannelKey)
unfolding take_ticket scan_keys
select_channel_key channel now h =
    if length channel.keys == 0
    then (h, some (0, single_key channel))
    else (let (ticket, h') = take_ticket channel.id h in
        let start = (ticket + (two_64 - 1)) % two_64 % length channel.keys in
        scan_keys channel.id channel.keys now start 0 (length channel.keys) h')

unfoldable pub first_healthy :
    ℕ → ℕ → ℕ → List ChannelKey → KeyHealth → KeyHealth × Option (ℕ × ChannelKey)
unfolding channel_key_cooling
first_healthy channel_id now idx [] h = (h, none)
first_healthy channel_id now idx (candidate ∷ keys) h =
    let (h', cooling) = channel_key_cooling channel_id candidate.id now h in
    let rest = first_healthy channel_id now (idx + 1) keys h' in
    if cooling then rest else (h', some (idx, candidate))

-- selectProbeChannelKey
unfoldable pub select_probe_channel_key :
    Channel → ℕ → KeyHealth → KeyHealth × Option (ℕ × ChannelKey)
unfolding first_healthy
select_probe_channel_key channel now h =
    if length channel.keys == 0
    then (h, some (0, single_key channel))
    else first_healthy channel.id now 0 channel.keys h

pub data KeyError : Type 0 where
  all_keys_cooling proxy_template_invalid channel_disabled : KeyError

pub data Effective : Type 0 where
  effective : Channel → Effective
  refused : KeyError → Effective

-- effectiveChannelForKey. `resolve_proxy` is the helper's template with the alias of the channel and
-- key, and `none` for its error; `has_account` tells whether a template names the account.
module _ (has_account : String → Bool) (resolve_proxy : String → ℕ → String → Option String) where
  unfoldable pub effective_channel_for_key : Channel → ChannelKey → Effective
  effective_channel_for_key channel selected =
      let used = record channel { key = selected.key; keys = [] } in
      elim channel.channel_proxy [
        | none ↦ effective used
        | some template ↦
            let resolved = resolve_proxy template channel.id selected.id in
            let answer = elim resolved as (λ _. Effective) [
              | none ↦ refused proxy_template_invalid
              | some address ↦ effective (record used { channel_proxy = some address })
            ] in
            if has_account template then answer else effective used
      ]

  -- effectiveProbeChannel
  unfoldable pub effective_probe_channel : Channel → ℕ → KeyHealth → KeyHealth × Effective
  unfolding select_probe_channel_key effective_channel_for_key
  effective_probe_channel channel now h =
      let (h', selected) = select_probe_channel_key channel now h in
      let answer = elim selected as (λ _. Effective) [
        | none ↦ refused all_keys_cooling
        | some (idx, key) ↦ effective_channel_for_key channel key
      ] in
      if ltb 0 channel.id && not channel.enabled
      then (h, refused channel_disabled)
      else (h', answer)

-- PruneExpiredKeyCooldowns: how many entries were removed.
unfoldable pub prune_expired_key_cooldowns : ℕ → KeyHealth → ℕ × KeyHealth
unfolding retain
prune_expired_key_cooldowns now h =
    let left = retain (λ ref deadline. ltb now deadline) h.cooldowns in
    (length h.cooldowns - length left, record h { cooldowns = left })

abbrev pub is_of_channel : ℕ → KeyRef → ℕ → Bool
is_of_channel channel_id ref deadline = ref.channel_id == channel_id

-- The loop of ClearChannelKeyStateForUI and CleanupChannelKeyState over the cooldowns.
unfoldable pub clear_key_cooldowns : ℕ → KeyHealth → ℕ × KeyHealth
unfolding retain
clear_key_cooldowns channel_id h =
    let left = retain (λ ref deadline. not (is_of_channel channel_id ref deadline)) h.cooldowns in
    (length h.cooldowns - length left, record h { cooldowns = left })

-- CleanupChannelKeyState, as far as the keys go.
unfoldable pub cleanup_channel_keys : ℕ → KeyHealth → KeyHealth
unfolding clear_key_cooldowns del
cleanup_channel_keys channel_id h =
    (clear_key_cooldowns channel_id (record h { cursors = del channel_id h.cursors })).1
