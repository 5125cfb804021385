-- ===== src/Requests/State.antt =====
-- internal/relay/state.go: one request, its rounds and its end. Times are milliseconds. A cancel
-- function is a number, and the calls of cancel functions and the closing of the stop channel are
-- recorded in the state, so that theorems can count them. The token usage, the client's address and
-- key, the details of the masking and the snapshots for the status stream are left out.
use Prim.Native.String.{String}
use nova_vei.Base.{
  ℕ, zero, suc, Bool, false, List, [], ◌∷◌, Option, none, if◌then◌else◌, leb, ◌==◌, nat_eq,
  string_eq, length, take,
}
use nova_vei.Mask.Bytes.{Bytes, but_last}
use nova_vei.Requests.Failures.{ErrClass}

pub data Status : Type 0 where
  running : Status
  committed : Status
  success : Status
  failed : Status
  canceled : Status

pub data AttemptOutcome : Type 0 where
  attempt_open : AttemptOutcome
  attempt_success : AttemptOutcome
  attempt_failed : AttemptOutcome
  attempt_canceled : AttemptOutcome

abbrev pub err_class_upstream : ErrClass
err_class_upstream = "upstream_error"

abbrev pub err_class_upstream_4xx : ErrClass
err_class_upstream_4xx = "upstream_4xx"

abbrev pub err_class_upstream_5xx : ErrClass
err_class_upstream_5xx = "upstream_5xx"

abbrev pub err_class_admin_abort : ErrClass
err_class_admin_abort = "admin_abort"

abbrev pub err_class_client_cancel : ErrClass
err_class_client_cancel = "client_cancel"

pub record AttemptRecord : Type 0 where
  pub seq : ℕ
  pub channel_id : ℕ
  pub channel_name : String
  pub member_id : ℕ
  pub model : String
  pub key_label : String
  pub proxy_addr : String
  pub first_token_ms : ℕ
  pub latency_ms : ℕ
  pub outcome : AttemptOutcome
  pub err_class : ErrClass
  pub err_brief : Bytes

pub record RoundTarget : Type 0 where
  pub member_id : ℕ
  pub channel_id : ℕ
  pub channel_name : String
  pub model : String
  pub key_label : String
  pub thinking_level : String
  pub client_format : String
  pub upstream_type : String
  pub passthrough : Bool
  pub proxy_addr : String

pub record RequestState : Type 0 where
  pub id : ℕ
  pub status : Status
  pub started_at : ℕ
  pub first_token_at : Option ℕ
  pub duration : ℕ
  pub model : String
  pub round : ℕ
  pub target_channel : String
  pub target_model : String
  pub key_label : String
  pub thinking_level : String
  pub client_format : String
  pub upstream_type : String
  pub relay_mode : String
  pub proxy_addr : String
  pub sending : Bool
  pub error : Bytes
  pub class : ErrClass
  pub attempts : List AttemptRecord
  pub body : Bytes
  pub response_body : Bytes
  pub cancel : Option ℕ
  pub stop_requested : Bool
  pub round_started_at : Option ℕ
  -- The cancel functions that were called, the latest first, and how often stopCh was closed.
  pub cancel_calls : List ℕ
  pub stop_closes : ℕ

abbrev pub max_attempts : ℕ
max_attempts = 200

abbrev pub err_brief_limit : ℕ
err_brief_limit = 256

abbrev pub max_body_preview : ℕ
max_body_preview = 65536

-- newRequestState, without the registration.
abbrev pub new_request : ℕ → ℕ → String → Bytes → RequestState
new_request id now model body = record {
  id = id;
  status = Status.running;
  started_at = now;
  first_token_at = none;
  duration = 0;
  model = model;
  round = 0;
  target_channel = "";
  target_model = "";
  key_label = "";
  thinking_level = "";
  client_format = "";
  upstream_type = "";
  relay_mode = "";
  proxy_addr = "";
  sending = false;
  error = [];
  class = "";
  attempts = [];
  body = body;
  response_body = [];
  cancel = none;
  stop_requested = false;
  round_started_at = none;
  cancel_calls = [];
  stop_closes = 0;
}

-- truncateUTF8Bytes. `whole_end` tells whether utf8.DecodeLastRuneInString finds a whole rune at the
-- end of a text.
unfoldable pub cut_back : (Bytes → Bool) → ℕ → Bytes → Bytes
unfolding but_last
cut_back whole_end zero cut = cut
cut_back whole_end (suc n) [] = []
cut_back whole_end (suc n) (x ∷ xs) =
    let shorter = cut_back whole_end n (but_last (x ∷ xs)) in
    if whole_end (x ∷ xs) then x ∷ xs else shorter

unfoldable pub truncate_utf8_bytes : (Bytes → Bool) → Bytes → ℕ → Bytes
unfolding cut_back
truncate_utf8_bytes whole_end text limit =
    if leb (length text) limit then text else cut_back whole_end limit (take limit text)

-- classifyStatusCode
unfoldable pub classify_status_code : ℕ → ErrClass
classify_status_code code =
    if leb 500 code
    then err_class_upstream_5xx
    else if leb 400 code
    then err_class_upstream_4xx
    else err_class_upstream

-- `r.Attempts[len(r.Attempts)-1] = f(...)` when its Seq is the present round.
unfoldable pub update_last :
    ℕ → (AttemptRecord → AttemptRecord) → List AttemptRecord → List AttemptRecord
update_last round f [] = []
update_last round f (a ∷ []) = (if a.seq == round then f a else a) ∷ []
update_last round f (a ∷ b ∷ rest) = a ∷ update_last round f (b ∷ rest)
