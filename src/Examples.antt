-- ===== src/Examples.antt =====
-- Small configurations, groups and routes, on which the theorems are applied.
pub mod Limits
pub mod Groups
pub mod Routes
pub mod Masking
pub mod History
pub mod Relaying
pub mod Selection
use nova_vei.Base.{ℕ, Bool, true, false, List, [], ◌∷◌, Option, none, some, pos}
use nova_vei.Channel.{Channel, openai, anthropic}
use nova_vei.Group.{Group, GroupItem, ChannelModel, default_group_relay_config, failover}
use nova_vei.Route.State.{RouteState, new_route, Lookup}

abbrev pub member : ℕ → GroupItem
member i = record {
  id = i;
  group_id = 1;
  channel_model_id = i;
  ref_group_name = "";
  channel_model = some (record { channel_id = i; name = "m" });
  priority = pos 0;
}

abbrev pub channel_of : ℕ → Channel
channel_of i = record {
  id = i;
  type = openai;
  enabled = true;
  key = "k";
  keys = [];
  channel_proxy = none;
  rate_limit_rpm = pos 0;
  pass_through_body_enabled = false;
}

abbrev pub channels : Lookup
channels i = some (channel_of i)

abbrev pub two_members : Group
two_members = record {
  id = 1;
  name = "g";
  mode = failover;
  active_item_id = 0;
  display_order = pos 0;
  relay_config = default_group_relay_config;
  items = member 1 ∷ member 2 ∷ [];
}

-- Member 1 is being confirmed after its first cooldown.
abbrev pub confirming : RouteState
confirming = record (new_route 1) {
  cooldowns = (1, 1000) ∷ [];
  levels = (1, 1) ∷ [];
  half_opens = (1, 1) ∷ [];
  probe_item_id = 1;
}
