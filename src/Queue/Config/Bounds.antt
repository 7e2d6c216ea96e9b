-- ===== src/Queue/Config/Bounds.antt =====
-- The ranges of a configuration that loads, and what a disabled one depends on.
use laburi_to.Base.{
  false, true, ◌≡◌, refl, ℤ, pos, String, Bool, true, Option, none, some, int_leb, int_ltb, arith,
  ◌&&◌, List, ◌↔◌,
}
use laburi_to.Errors.{Result, ok, err, ◌>>=◌}
use laburi_to.Queue.Config.{
  lookup_optional, env_endpoint_url, env_visibility_timeout, env_wait_time, env_max_messages,
  env_max_retry_attempts, env_region, env_queue_url, env_dlq_url, lookup_required, Parsers, Lookup,
  Config, lookup_bounded_int, in_range, number_of, bounded_of, present, load_enabled,
  should_consume, config_of, load_config, WorkerConfig, lookup_switch, disabled_config, env_enabled,
}

-- The ranges that the transport accepts.
unfoldable pub within : ℤ → ℤ → ℤ → Bool
within lower upper value = int_leb lower value && int_leb value upper

unfoldable pub config_valid : Config → Bool
unfolding within
config_valid c =
    within (pos 0) (pos 43200) c.visibility_timeout_seconds
    && within (pos 0) (pos 20) c.wait_time_seconds
    && within (pos 1) (pos 10) c.max_messages
    && within (pos 1) (pos 10) c.max_retry_attempts

in_range-within :
    (p : Parsers) (lookup : Lookup) (lower upper value v : ℤ)
    → in_range p lookup lower upper value ≡ ok v
    → within lower upper v ≡ true
unfolding in_range within int_leb int_ltb
in_range-within p lookup lower upper value v h = ground arith

number_of-within :
    (p : Parsers) (lookup : Lookup) (lower upper : ℤ) (value : Option ℤ) (v : ℤ)
    → number_of p lookup lower upper value ≡ ok v
    → within lower upper v ≡ true
unfolding number_of
number_of-within p lookup lower upper none v h = cc
number_of-within p lookup lower upper (some value) v h =
    in_range-within p lookup lower upper value v h

bounded_of-within :
    (p : Parsers) (lookup : Lookup) (fallback lower upper : ℤ) (value : Option String) (v : ℤ)
    → within lower upper fallback ≡ true
    → bounded_of p lookup fallback lower upper value ≡ ok v
    → within lower upper v ≡ true
unfolding bounded_of
bounded_of-within p lookup fallback lower upper none v w h = cc
bounded_of-within p lookup fallback lower upper (some trimmed) v w h =
    number_of-within p lookup lower upper (p.atoi trimmed) v h

-- A number of the environment that is read is in its range, as its default is.
pub lookup_bounded_int-within :
    (p : Parsers) (lookup : Lookup) (key : String) (fallback lower upper v : ℤ)
    → within lower upper fallback ≡ true
    → lookup_bounded_int p lookup key fallback lower upper ≡ ok v
    → within lower upper v ≡ true
unfolding lookup_bounded_int
lookup_bounded_int-within p lookup key fallback lower upper v w h =
    bounded_of-within p lookup fallback lower upper (present p (lookup key)) v w h

-- The configuration that seven results make, in the order in which they are asked for.
unfoldable assembled :
    List String
    → String
    → Result String
    → Result String
    → Result String
    → Result ℤ
    → Result ℤ
    → Result ℤ
    → Result ℤ
    → Result Config
assembled warnings endpoint r s t v w m n = do
  region ← r
  queue_url ← s
  dlq_url ← t
  visibility ← v
  wait ← w
  messages ← m
  retries ← n
  ok (record {
    enabled = true;
    region = region;
    queue_url = queue_url;
    dlq_url = dlq_url;
    visibility_timeout_seconds = visibility;
    wait_time_seconds = wait;
    max_messages = messages;
    max_retry_attempts = retries;
    endpoint_url = endpoint;
    warnings = warnings;
  })

-- The numbers of the four results that are in range make a valid configuration.
assembled_valid :
    (warnings : List String) (endpoint : String) (r s t : Result String) (v w m n : Result ℤ)
    (config : Config)
    → ((i : ℤ) → v ≡ ok i → within (pos 0) (pos 43200) i ≡ true)
    → ((i : ℤ) → w ≡ ok i → within (pos 0) (pos 20) i ≡ true)
    → ((i : ℤ) → m ≡ ok i → within (pos 1) (pos 10) i ≡ true)
    → ((i : ℤ) → n ≡ ok i → within (pos 1) (pos 10) i ≡ true)
    → assembled warnings endpoint r s t v w m n ≡ ok config
    → config_valid config ≡ true
unfolding assembled config_valid
assembled_valid _ _ (err _) s t v w m n config hv hw hm hn h = cc
assembled_valid _ _ (ok _) (err _) t v w m n config hv hw hm hn h = cc
assembled_valid _ _ (ok _) (ok _) (err _) v w m n config hv hw hm hn h = cc
assembled_valid _ _ (ok _) (ok _) (ok _) (err _) w m n config hv hw hm hn h = cc
assembled_valid _ _ (ok _) (ok _) (ok _) (ok _) (err _) m n config hv hw hm hn h = cc
assembled_valid _ _ (ok _) (ok _) (ok _) (ok _) (ok _) (err _) n config hv hw hm hn h = cc
assembled_valid _ _ (ok _) (ok _) (ok _) (ok _) (ok _) (ok _) (err _) config hv hw hm hn h = cc
assembled_valid _ _ (ok _) (ok _) (ok _) (ok v) (ok w) (ok m) (ok n) config hv hw hm hn h =
    let v_in = hv v refl in
    let w_in = hw w refl in let m_in = hm m refl in let n_in = hn n refl in ground arith

module _ (p : Parsers) (lookup : Lookup) where
  load_enabled-valid :
      (warnings : List String) (config : Config)
      → load_enabled p lookup warnings ≡ ok config
      → config_valid config ≡ true
  unfolding load_enabled assembled within int_leb
  load_enabled-valid warnings config h =
      assembled_valid warnings (p.trim_space (lookup_optional p lookup env_endpoint_url))
        (lookup_required p lookup env_region) (lookup_required p lookup env_queue_url)
        (lookup_required p lookup env_dlq_url)
        (lookup_bounded_int p lookup env_visibility_timeout (pos 60) (pos 0) (pos 43200))
        (lookup_bounded_int p lookup env_wait_time (pos 20) (pos 0) (pos 20))
        (lookup_bounded_int p lookup env_max_messages (pos 10) (pos 1) (pos 10))
        (lookup_bounded_int p lookup env_max_retry_attempts (pos 3) (pos 1) (pos 10)) config
        (λ i e.
          lookup_bounded_int-within p lookup env_visibility_timeout (pos 60) (pos 0) (pos 43200) i
            refl e)
        (λ i e. lookup_bounded_int-within p lookup env_wait_time (pos 20) (pos 0) (pos 20) i refl e)
        (λ i e.
          lookup_bounded_int-within p lookup env_max_messages (pos 10) (pos 1) (pos 10) i refl e)
        (λ i e.
          lookup_bounded_int-within p lookup env_max_retry_attempts (pos 3) (pos 1) (pos 10) i refl
            e)
        h

  config_of-valid :
      (s : Bool × List String) (config : Config)
      → config_of p lookup s ≡ ok config
      → config.enabled ≡ true
      → config_valid config ≡ true
  unfolding config_of disabled_config
  config_of-valid (false, warnings) config h k = cc
  config_of-valid (true, warnings) config h k = load_enabled-valid warnings config h

  -- An enabled configuration that loads, from any environment, has a visibility timeout of 0 to
  -- 43200 seconds, a wait of 0 to 20 seconds, and 1 to 10 messages and retries.
  pub load_config-valid :
      (config : Config)
      → load_config p lookup ≡ ok config
      → config.enabled ≡ true
      → config_valid config ≡ true
  unfolding load_config
  load_config-valid config h k = config_of-valid (lookup_switch p lookup env_enabled) config h k

-- An instance consumes exactly when both its worker and its transport are enabled.
pub should_consume_iff :
    (w : WorkerConfig) (transport : Config)
    → ((should_consume w transport).0 ≡ true) ↔ ((w.enabled ≡ true) × (transport.enabled ≡ true))
unfolding should_consume
should_consume_iff w transport = ground arith
