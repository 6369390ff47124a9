-- ===== src/Staleness/Setup.antt =====
-- `Neo4jStalenessRemovalTask.init`. The configuration has its defaults already.
use amundsen_fork.Prelude.{
  ℕ, ◌≤◌, ◌≡◌, ltb, String, Bool, Option, none, some, List, if◌then◌else◌, is_some, ◌&&◌, arith,
  ◌⊎◌,
}
use amundsen_fork.Prelude.Effects.{Result, return, raise}

-- A name of a label or a relation type, or `TargetWithCondition`.
pub data Target : Type 0 where
  plain : String → Target
  with_condition : String → String → Target

pub data Marker : Type 0 where
  milliseconds : ℕ → Marker
  publish_tag : String → Marker

pub record Config : Type 0 where
  pub target_nodes : List Target
  pub target_relations : List Target
  pub batch_size : ℕ
  pub dry_run : Bool
  pub staleness_max_pct : ℕ
  pub staleness_pct_max_dict : List (String × ℕ)
  pub retain_data_with_no_publisher_metadata : Bool
  pub job_publish_tag : Option String
  pub milliseconds_to_expire : Option ℕ
  pub minimum_milliseconds_to_expire : ℕ

pub record Task : Type 0 where
  pub target_nodes : List Target
  pub target_relations : List Target
  pub batch_size : ℕ
  pub dry_run : Bool
  pub staleness_pct : ℕ
  pub staleness_pct_dict : List (String × ℕ)
  pub retain : Bool
  pub ms_to_expire : Option ℕ
  pub marker : Marker

pub data ConfigError : Type 0 where
  both_given too_small no_publish_tag : ConfigError

abbrev task_with : Config → Option ℕ → Marker → Task
task_with conf ms marker = record {
  target_nodes = conf.target_nodes;
  target_relations = conf.target_relations;
  batch_size = conf.batch_size;
  dry_run = conf.dry_run;
  staleness_pct = conf.staleness_max_pct;
  staleness_pct_dict = conf.staleness_pct_max_dict;
  retain = conf.retain_data_with_no_publisher_metadata;
  ms_to_expire = ms;
  marker = marker;
}

-- The part that sets the marker.
abbrev marked : Config → Option ℕ → Option String → Result ConfigError Task
marked conf (some ms) tag =
    if ltb ms conf.minimum_milliseconds_to_expire
    then raise too_small
    else return (task_with conf (some ms) (milliseconds ms))
marked conf none (some tag) = return (task_with conf none (publish_tag tag))
marked conf none none = raise no_publish_tag

unfoldable pub init : Config → Result ConfigError Task
init conf =
    if is_some conf.job_publish_tag && is_some conf.milliseconds_to_expire
    then raise both_given
    else marked conf conf.milliseconds_to_expire conf.job_publish_tag

-- A configuration is accepted only with exactly one of the two markers, and an expiry time is at
-- least the configured minimum; the accepted task has the marker that was given.
pub init_accepts :
    (conf : Config) (t : Task)
    → init conf ≡ return t
    → ((ms : ℕ) × (conf.milliseconds_to_expire ≡ some ms)
        × (conf.job_publish_tag ≡ none)
        × (conf.minimum_milliseconds_to_expire ≤ ms)
        × (t.marker ≡ milliseconds ms)
        × (t.ms_to_expire ≡ some ms))
      ⊎ ((tag : String) × (conf.job_publish_tag ≡ some tag)
          × (conf.milliseconds_to_expire ≡ none)
          × (t.marker ≡ publish_tag tag)
          × (t.ms_to_expire ≡ none))
unfolding init
init_accepts conf t h = ground arith
