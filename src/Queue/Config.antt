-- ===== src/Queue/Config.antt =====
-- internal/queue/config.go. An environment is a lookup function; of the Go library the code uses
-- strings.TrimSpace, strconv.ParseBool and strconv.Atoi, which enter as three functions. A warning
-- is the name of the variable it is about.
pub mod Bounds
use laburi_to.Base.{
  ℤ, pos, String, Bool, true, false, Option, none, some, List, [], ◌∷◌, ◌==◌, string_eq,
  if◌then◌else◌, int_ltb, ◌||◌,
}
use laburi_to.Errors.{
  Result, ok, err, sentinel, wrap, missing_queue_config, invalid_queue_config, ◌>>=◌,
}

abbrev pub env_enabled : String
env_enabled = "RECOMMENDATIONS_QUEUE_ENABLED"

abbrev pub env_region : String
env_region = "AWS_REGION"

abbrev pub env_queue_url : String
env_queue_url = "AWS_SQS_RECOMMENDATIONS_QUEUE_URL"

abbrev pub env_dlq_url : String
env_dlq_url = "AWS_SQS_RECOMMENDATIONS_DLQ_URL"

abbrev pub env_visibility_timeout : String
env_visibility_timeout = "AWS_SQS_VISIBILITY_TIMEOUT_SECONDS"

abbrev pub env_wait_time : String
env_wait_time = "AWS_SQS_WAIT_TIME_SECONDS"

abbrev pub env_max_messages : String
env_max_messages = "AWS_SQS_MAX_MESSAGES"

abbrev pub env_max_retry_attempts : String
env_max_retry_attempts = "AWS_SQS_MAX_RETRY_ATTEMPTS"

abbrev pub env_endpoint_url : String
env_endpoint_url = "AWS_SQS_ENDPOINT_URL"

abbrev pub env_worker_enabled : String
env_worker_enabled = "RECOMMENDATIONS_WORKER_ENABLED"

abbrev pub Lookup : Type 0
Lookup = String → Option String

pub record Parsers : Type 0 where
  pub trim_space : String → String
  pub parse_bool : String → Option Bool
  pub atoi : String → Option ℤ

pub record Config : Type 0 where
  pub enabled : Bool
  pub region : String
  pub queue_url : String
  pub dlq_url : String
  pub visibility_timeout_seconds : ℤ
  pub wait_time_seconds : ℤ
  pub max_messages : ℤ
  pub max_retry_attempts : ℤ
  pub endpoint_url : String
  pub warnings : List String

pub record WorkerConfig : Type 0 where
  pub enabled : Bool
  pub warnings : List String

-- Config{Enabled: false, Warnings: warnings}: the other fields at their zero value
unfoldable pub disabled_config : List String → Config
disabled_config warnings = record {
  enabled = false;
  region = "";
  queue_url = "";
  dlq_url = "";
  visibility_timeout_seconds = pos 0;
  wait_time_seconds = pos 0;
  max_messages = pos 0;
  max_retry_attempts = pos 0;
  endpoint_url = "";
  warnings = warnings;
}

-- The value of a variable, trimmed; none when it is absent or blank.
present : Parsers → Option String → Option String
present p none = none
present p (some raw) =
    let trimmed = p.trim_space raw in if trimmed == "" then none else some trimmed

module _ (p : Parsers) (lookup : Lookup) where
  switch_of : String → Option String → Bool × List String
  switch_of key none = (false, [])
  switch_of key (some trimmed) = elim (p.parse_bool trimmed) [
    | some value ↦ (value, [])
    | none ↦ (false, key ∷ [])
  ]

  -- The switch and its warning.
  unfoldable pub lookup_switch : String → Bool × List String
  unfolding present switch_of
  lookup_switch key = switch_of key (present p (lookup key))

  required_of : Option String → Result String
  required_of none = err (wrap (sentinel missing_queue_config))
  required_of (some value) = ok value

  unfoldable pub lookup_required : String → Result String
  unfolding present required_of
  lookup_required key = required_of (present p (lookup key))

  unfoldable pub lookup_optional : String → String
  lookup_optional key = elim (lookup key) [ none ↦ "" | some raw ↦ raw ]

  in_range : ℤ → ℤ → ℤ → Result ℤ
  in_range lower upper value =
      if int_ltb value lower || int_ltb upper value
      then err (wrap (sentinel invalid_queue_config))
      else ok value

  number_of : ℤ → ℤ → Option ℤ → Result ℤ
  unfolding in_range
  number_of lower upper none = err (wrap (sentinel invalid_queue_config))
  number_of lower upper (some value) = in_range lower upper value

  bounded_of : ℤ → ℤ → ℤ → Option String → Result ℤ
  unfolding number_of
  bounded_of fallback lower upper none = ok fallback
  bounded_of fallback lower upper (some trimmed) = number_of lower upper (p.atoi trimmed)

  unfoldable pub lookup_bounded_int : String → ℤ → ℤ → ℤ → Result ℤ
  unfolding present bounded_of
  lookup_bounded_int key fallback lower upper =
      bounded_of fallback lower upper (present p (lookup key))

  unfoldable pub load_worker_config : Result WorkerConfig
  unfolding lookup_switch
  load_worker_config =
      let (enabled, warnings) = lookup_switch env_worker_enabled in
      ok (record { enabled = enabled; warnings = warnings })

  -- The part of LoadConfig after the switch. The conversions to int32 are the identity in range.
  unfoldable pub load_enabled : List String → Result Config
  unfolding lookup_required lookup_bounded_int lookup_optional
  load_enabled warnings = do
    region ← lookup_required env_region
    queue_url ← lookup_required env_queue_url
    dlq_url ← lookup_required env_dlq_url
    visibility ← lookup_bounded_int env_visibility_timeout (pos 60) (pos 0) (pos 43200)
    wait ← lookup_bounded_int env_wait_time (pos 20) (pos 0) (pos 20)
    messages ← lookup_bounded_int env_max_messages (pos 10) (pos 1) (pos 10)
    retries ← lookup_bounded_int env_max_retry_attempts (pos 3) (pos 1) (pos 10)
    ok (record {
      enabled = true;
      region = region;
      queue_url = queue_url;
      dlq_url = dlq_url;
      visibility_timeout_seconds = visibility;
      wait_time_seconds = wait;
      max_messages = messages;
      max_retry_attempts = retries;
      endpoint_url = p.trim_space (lookup_optional env_endpoint_url);
      warnings = warnings;
    })

  config_of : Bool × List String → Result Config
  unfolding load_enabled
  config_of (false, warnings) = ok (disabled_config warnings)
  config_of (true, warnings) = load_enabled warnings

  unfoldable pub load_config : Result Config
  unfolding config_of
  load_config = config_of (lookup_switch env_enabled)

-- Whether to consume, and the reason that is logged.
unfoldable pub should_consume : WorkerConfig → Config → Bool × String
should_consume w transport =
    if w.enabled
    then if transport.enabled then (true, "recommendation worker enabled") else (
      false,
      "recommendation worker enabled but the recommendation queue is disabled: nothing to consume",
    )
    else (false, "recommendation worker disabled")
