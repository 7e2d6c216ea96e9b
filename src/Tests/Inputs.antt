-- ===== src/Tests/Inputs.antt =====
-- Query parameters, configuration, the in-memory queue and pairs, at concrete inputs.

use laburi_to.Base.{
  ℤ, pos, String, ◌≡◌, refl, true, Option, none, some, [], ◌==◌, string_eq, if◌then◌else◌, int_leb,
  arith, ◌<◌, int_eq,
}
use laburi_to.Errors.{ok, sentinel, wrap, invalid_pair}
use laburi_to.Queue.Fake.{Fake, new, send}
use laburi_to.Queue.Config.{
  Parsers, Lookup, Config, WorkerConfig, load_config, should_consume, env_enabled, disabled_config,
}
use laburi_to.Queue.Config.Bounds.{config_valid, load_config-valid}
use laburi_to.Recommendation.Pagination.{Values}
use laburi_to.Scoring.Levels.{
  two_to_5y, one_year, ExperienceLevel, experience_of, education_of, experience_at_least,
  experience_valid,
}
use laburi_to.Scoring.Models.{Pair}
use laburi_to.Scoring.Validate.{validate}

abbrev read_int : String → Option ℤ
read_int text = if text == "30" then some (pos 30) else none

abbrev limit_30 : Values
limit_30 key = if key == "limit" then some "30" else none

abbrev parsers : Parsers
parsers = record {
  trim_space = λ s. s;
  parse_bool = λ s. if s == "true" then some true else none;
  atoi = λ s. none;
}

abbrev environment : Lookup
environment key =
    if key == "RECOMMENDATIONS_QUEUE_ENABLED"
    then some "true"
    else if key == "AWS_REGION"
    then some "us-east-1"
    else if key == "AWS_SQS_RECOMMENDATIONS_QUEUE_URL"
    then some "q"
    else if key == "AWS_SQS_RECOMMENDATIONS_DLQ_URL"
    then some "d"
    else none

abbrev defaults : Config
defaults = record {
  enabled = true;
  region = "us-east-1";
  queue_url = "q";
  dlq_url = "d";
  visibility_timeout_seconds = pos 60;
  wait_time_seconds = pos 20;
  max_messages = pos 10;
  max_retry_attempts = pos 3;
  endpoint_url = "";
  warnings = [];
}

defaults_load : load_config parsers environment ≡ ok defaults
unfolding load_config laburi_to.Queue.Config.lookup_switch
defaults_load = refl

load_config-valid_example : config_valid defaults ≡ true
load_config-valid_example = load_config-valid parsers environment defaults defaults_load refl

abbrev two_sent : Fake
two_sent = (send "b" (send "a" new).1).1

no_failure : two_sent.receive_err ≡ none
unfolding send new
no_failure = refl

visible_for_some_time : 0 < two_sent.visible_in
unfolding send new
visible_for_some_time = omega arith

abbrev nobody : Pair
nobody = record {
  employee = record {
    employee_id = pos 0;
    experience = experience_of "1-3";
    highest_education = none;
    available_hours_per_day = none;
    timezone = none;
    technical_resources = none;
  };
  job = record {
    job_position_id = pos 5;
    required_experience = experience_of "1-3";
    required_education_level = education_of "secondary";
    available_hours_per_day = pos 8;
    timezone = "";
    technical_resources = none;
  };
}

nobody_refused : validate nobody ≡ some (wrap (sentinel invalid_pair))
unfolding validate int_leb
nobody_refused = refl

abbrev two_years : ExperienceLevel
two_years = two_to_5y

abbrev a_year : ExperienceLevel
a_year = one_year

three_valid : experience_valid two_years ≡ true
unfolding experience_valid experience_of
three_valid = refl

one_valid : experience_valid a_year ≡ true
unfolding experience_valid experience_of
one_valid = refl

above : experience_at_least two_years a_year ≡ true
unfolding experience_at_least experience_of
above = refl

itself : experience_at_least a_year a_year ≡ true
unfolding experience_at_least experience_of
itself = refl
