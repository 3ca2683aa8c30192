-- ===== src/Orchestrator/Config.antt =====
-- src/orchestrator/config.py. The integers are naturals: a negative one, which the code rejects
-- with zero, does not occur in the model.
pub mod Sound
use xray_vision.Base.{
  ℕ, ◌≤◌, String, Option, none, some, List, [], ◌∷◌, Bool, true, false, ◌||◌, not, Result, ok, err,
  ltb, leb, str_eq, if◌then◌else◌, contains, add, ◌>>=◌, ◌>>◌, raise_if,
}

pub record RetryPolicy : Type 0 where
  pub min_delay_ms : ℕ
  pub max_delay_ms : ℕ
  pub max_attempts : ℕ
  pub max_elapsed_ms : Option ℕ

pub record BufferRetentionConfig : Type 0 where
  pub max_records : ℕ
  pub max_age_ms : Option ℕ

pub record OutputPublishConfig : Type 0 where
  pub max_pending : ℕ
  pub max_block_ms : Option ℕ

pub record SchedulerConfig : Type 0 where
  pub mode : String
  pub timer_interval_ms : Option ℕ
  pub boundary_interval_ms : Option ℕ
  pub boundary_delay_ms : Option ℕ

pub record EngineConfig : Type 0 where
  pub engine_mode : String
  pub hysteresis_state_path : Option String

pub record SourceConfig : Type 0 where
  pub source_id : String
  pub symbols : List String

pub record OrchestratorConfig : Type 0 where
  pub sources : List SourceConfig
  pub scheduler : SchedulerConfig
  pub engine : EngineConfig
  pub ingestion_retry : RetryPolicy
  pub buffer_retry : RetryPolicy
  pub engine_retry : RetryPolicy
  pub publish_retry : RetryPolicy
  pub buffer_retention : BufferRetentionConfig
  pub output_publish : OutputPublishConfig

pub data ConfigError : Type 0 where
  no_sources source_id_unset duplicate_source_id symbols_unset bad_scheduler_mode : ConfigError
  bad_engine_mode path_required must_be_positive must_be_non_negative delays_crossed : ConfigError

-- `_require_positive`, where the value may be `None` too.
unfoldable pub require_positive : Option ℕ → Result ConfigError Unit
require_positive none = err must_be_positive
require_positive (some v) = raise_if (leb v 0) must_be_positive

unfoldable pub require_non_negative : Option ℕ → Result ConfigError Unit
require_non_negative none = err must_be_non_negative
require_non_negative (some v) = ok tt

-- `if x is not None: _require_positive(x)`.
unfoldable pub require_positive_if_set : Option ℕ → Result ConfigError Unit
unfolding require_positive
require_positive_if_set none = ok tt
require_positive_if_set (some v) = require_positive (some v)

unfoldable pub validate_retry : RetryPolicy → Result ConfigError Unit
unfolding require_positive require_positive_if_set
validate_retry r = do
  require_positive (some r.min_delay_ms)
  require_positive (some r.max_delay_ms)
  raise_if (ltb r.max_delay_ms r.min_delay_ms) delays_crossed
  raise_if (leb r.max_attempts 0) must_be_positive
  require_positive_if_set r.max_elapsed_ms

abbrev pub boundary_fields : SchedulerConfig → Result ConfigError Unit
boundary_fields s = do
  require_positive s.boundary_interval_ms
  require_non_negative s.boundary_delay_ms

unfoldable pub validate_scheduler : SchedulerConfig → Result ConfigError Unit
validate_scheduler s = do
  raise_if (not (str_eq s.mode "timer" || str_eq s.mode "boundary")) bad_scheduler_mode
  if str_eq s.mode "timer" then require_positive s.timer_interval_ms else ok tt
  if str_eq s.mode "boundary" then boundary_fields s else ok tt

-- `not path`: `None` or the empty string.
abbrev pub is_unset : Option String → Bool
is_unset none = true
is_unset (some p) = str_eq p ""

unfoldable pub validate_engine : EngineConfig → Result ConfigError Unit
validate_engine e = do
  raise_if (not (str_eq e.engine_mode "truth" || str_eq e.engine_mode "hysteresis")) bad_engine_mode
  if str_eq e.engine_mode "hysteresis"
      then raise_if (is_unset e.hysteresis_state_path) path_required
      else ok tt

abbrev pub is_empty {ℓ} : {A : Type ℓ} → List A → Bool
is_empty [] = true
is_empty (x ∷ xs) = false

-- The loop over the sources, with the set of the ids seen so far.
unfoldable pub validate_sources : List String → List SourceConfig → Result ConfigError Unit
validate_sources seen [] = ok tt
validate_sources seen (s ∷ ss) =
    let rest = validate_sources (add s.source_id seen) ss in
    do
      raise_if (str_eq s.source_id "") source_id_unset
      raise_if (contains s.source_id seen) duplicate_source_id
      raise_if (is_empty s.symbols) symbols_unset
      rest

unfoldable pub validate_config : OrchestratorConfig → Result ConfigError Unit
validate_config c = do
  raise_if (is_empty c.sources) no_sources
  validate_sources [] c.sources
  validate_scheduler c.scheduler
  validate_engine c.engine
  validate_retry c.ingestion_retry
  validate_retry c.buffer_retry
  validate_retry c.engine_retry
  validate_retry c.publish_retry
  require_positive (some c.buffer_retention.max_records)
  require_positive_if_set c.buffer_retention.max_age_ms
  require_positive (some c.output_publish.max_pending)
  require_positive_if_set c.output_publish.max_block_ms
