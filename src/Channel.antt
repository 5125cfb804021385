-- ===== src/Channel.antt =====
-- internal/model/channel.go: the fields of a channel that selection reads, and supportsNativeFormat
-- of internal/relay/channel.go. The names of client formats are constants of the llm package; a
-- format that the relay does not name is `other`.
use Prim.Native.String.{String}
use nova_vei.Base.{ℕ, Bool, true, false, ◌&&◌, not, List, Option, ℤ, if◌then◌else◌}

pub data ChannelProvider : Type 0 where
  openai openai_responses anthropic gemini volcengine custom : ChannelProvider
  unknown : String → ChannelProvider

pub record ChannelKey : Type 0 where
  pub id : String
  pub key : String
  pub remark : String

pub record Channel : Type 0 where
  pub id : ℕ
  pub type : ChannelProvider
  pub enabled : Bool
  pub key : String
  pub keys : List ChannelKey
  pub channel_proxy : Option String
  pub rate_limit_rpm : ℤ
  pub pass_through_body_enabled : Bool

pub data ApiFormat : Type 0 where
  openai_chat openai_image_generation openai_image_edit openai_image_variation : ApiFormat
  openai_video openai_speech openai_transcription openai_translation openai_embedding : ApiFormat
  openai_response anthropic_message : ApiFormat
  other : String → ApiFormat

unfoldable pub is_custom : ChannelProvider → Bool
is_custom custom = true
is_custom _ = false

-- The formats of the OpenAI family.
unfoldable pub is_openai_format : ApiFormat → Bool
is_openai_format openai_response = false
is_openai_format anthropic_message = false
is_openai_format (other name) = false
is_openai_format _ = true

unfoldable pub is_native : ChannelProvider → ApiFormat → Bool
unfolding is_openai_format
is_native openai format = is_openai_format format
is_native openai_responses openai_response = true
is_native anthropic anthropic_message = true
is_native _ _ = false

unfoldable pub supports_native_format : Channel → ApiFormat → Bool
unfolding is_custom is_native
supports_native_format channel format =
    if channel.pass_through_body_enabled && not (is_custom channel.type)
    then true
    else is_native channel.type format
