-- ===== src/Group.antt =====
-- internal/model/group.go: groups, their members and their relay configuration. A configured int
-- that validation does not reach may be negative, so it is a ℤ. The float64 multiplier is a
-- fraction, numerator over denominator. Database keys are ℕ, with 0 for "none".
pub mod Normal
pub mod Members
pub mod References
use Prim.Native.String.{String}
use nova_vei.Base.{
  ℕ, ◌+◌, ◌*◌, Bool, true, false, ◌&&◌, not, List, Option, none, some, if◌then◌else◌, leb, ltb,
  ◌==◌, string_eq, nat_eq, ℤ, pos, pos_part, is_negative,
}

pub data GroupMode : Type 0 where
  manual failover : GroupMode

pub record Fraction : Type 0 where
  pub numerator : ℤ
  pub denominator : ℕ

pub record GroupRelayConfig : Type 0 where
  pub member_max_attempts : ℤ
  pub member_infra_max_retries : ℤ
  pub member_retry_interval_seconds : ℤ
  pub member_non_stream_response_timeout_seconds : ℤ
  pub member_stream_first_event_timeout_seconds : ℤ
  pub member_stream_idle_timeout_seconds : ℤ
  pub member_stream_max_bytes : ℤ
  pub member_stream_max_events : ℤ
  pub member_cooldown_seconds : ℤ
  pub member_affinity_seconds : ℤ
  pub max_request_rounds : ℤ
  pub max_request_seconds : ℤ
  pub session_sticky_enabled : Bool
  pub session_sticky_seconds : ℤ
  pub cooldown_backoff_multiplier : Fraction
  pub cooldown_max_seconds : ℤ
  pub all_cooldown_retry_base_seconds : ℤ
  pub all_cooldown_retry_max_seconds : ℤ
  pub background_probe_enabled : Bool
  pub background_probe_interval_seconds : ℤ
  pub emergency_item_id : ℤ
  pub prefer_passthrough : Bool
  pub mask_enabled : Bool
  pub auto_match_models : Bool

pub record ChannelModel : Type 0 where
  pub channel_id : ℕ
  pub name : String

pub record GroupItem : Type 0 where
  pub id : ℕ
  pub group_id : ℕ
  pub channel_model_id : ℕ
  pub ref_group_name : String
  pub channel_model : Option ChannelModel
  pub priority : ℤ

-- `model.GroupItem{}`, with which the router says that it found none.
abbrev pub no_item : GroupItem
no_item = record {
  id = 0;
  group_id = 0;
  channel_model_id = 0;
  ref_group_name = "";
  channel_model = none;
  priority = pos 0;
}

unfoldable pub is_group_ref : GroupItem → Bool
is_group_ref i = i.channel_model_id == 0 && not (i.ref_group_name == "")

pub record Group : Type 0 where
  pub id : ℕ
  pub name : String
  pub mode : GroupMode
  pub active_item_id : ℕ
  pub display_order : ℤ
  pub relay_config : GroupRelayConfig
  pub items : List GroupItem

unfoldable pub default_group_relay_config : GroupRelayConfig
default_group_relay_config = record {
  member_max_attempts = pos 3;
  member_infra_max_retries = pos 3;
  member_retry_interval_seconds = pos 2;
  member_non_stream_response_timeout_seconds = pos 1200;
  member_stream_first_event_timeout_seconds = pos 60;
  member_stream_idle_timeout_seconds = pos 120;
  member_stream_max_bytes = pos 0;
  member_stream_max_events = pos 0;
  member_cooldown_seconds = pos 60;
  member_affinity_seconds = pos 300;
  max_request_rounds = pos 600;
  max_request_seconds = pos 0;
  session_sticky_enabled = true;
  session_sticky_seconds = pos 300;
  cooldown_backoff_multiplier = record { numerator = pos 2; denominator = 1 };
  cooldown_max_seconds = pos 1800;
  all_cooldown_retry_base_seconds = pos 3;
  all_cooldown_retry_max_seconds = pos 60;
  background_probe_enabled = false;
  background_probe_interval_seconds = pos 60;
  emergency_item_id = pos 0;
  prefer_passthrough = false;
  mask_enabled = false;
  auto_match_models = false;
}

-- `if x < 1 { x = d }`
unfoldable pub at_least_one : ℤ → ℤ → ℤ
at_least_one x d = if ltb (pos_part x) 1 then d else x

-- `if x < 0 { x = d }`
unfoldable pub not_negative : ℤ → ℤ → ℤ
not_negative x d = if is_negative x then d else x

-- `if m < 1 { m = d }` of the multiplier.
unfoldable pub multiplier_or : Fraction → Fraction → Fraction
multiplier_or m d = if ltb (pos_part m.numerator) m.denominator then d else m
