-- ===== src/Staleness/Run.antt =====
-- `run` of the task and what it calls.
use amundsen_fork.Prelude.{
  ℕ, zero, suc, ◌+◌, ◌*◌, String, str_eq, leb, ◌==◌, ◌||◌, Bool, false, Option, none, some, List,
  [], ◌∷◌, if◌then◌else◌,
}
use amundsen_fork.Prelude.Effects.{Result, return, raise}
use amundsen_fork.Staleness.Setup.{Target, Marker, Task}
use amundsen_fork.Staleness.Statements.{
  Kind, nodes, relations, Statement, delete_stale, validate_staleness, staleness_condition,
  target_type, extra_condition,
}

-- `param_dict`
pub record Params : Type 0 where
  pub batch_size : Option ℕ
  pub marker : Option Marker

-- The database driver: the first record's count, if there is a record. It is given the statement's
-- `text`, which the statement determines.
abbrev pub Query : Type 0 → Type 0 → Type 0
Query W E = Statement → Params → W → Result E (Option ℕ) × W

pub data StalenessError (E : Type 0) : Type 0 where
  database : E → StalenessError E
  over_threshold : (type : String) (stale total threshold : ℕ) → StalenessError E

abbrev threshold_in : List (String × ℕ) → ℕ → String → ℕ
threshold_in [] default type = default
threshold_in ((k, v) ∷ d) default type = if str_eq k type then v else threshold_in d default type

-- `self.staleness_pct_dict.get(target_type, self.staleness_pct)`
unfoldable pub threshold : Task → String → ℕ
threshold t type = threshold_in t.staleness_pct_dict t.staleness_pct type

-- Whether the target would be stopped. Both sides are multiplied by the total, where the code
-- divides in floating point.
unfoldable pub is_over : ℕ → ℕ → ℕ → Bool
is_over total stale limit =
    if total == 0 || stale == 0 then false else leb (limit * total) (stale * 100)

unfoldable pub count_or_zero : Option ℕ → ℕ
count_or_zero none = 0
count_or_zero (some n) = n

module _ {W E : Type 0} (query : Query W E) (t : Task) where
  unfoldable pub validate_staleness_pct : ℕ → ℕ → String → Result (StalenessError E) (Unit {0})
  validate_staleness_pct total stale type =
      if is_over total stale (threshold t type)
      then raise (over_threshold type stale total (threshold t type))
      else return tt

  abbrev pub total_statement : Kind → Target → Statement
  total_statement kind target = record {
    template = validate_staleness kind;
    staleness_condition = "true";
    type = target_type target;
    extra_condition = extra_condition target;
  }

  abbrev pub stale_statement : Kind → Target → Statement
  stale_statement kind target = record {
    template = validate_staleness kind;
    staleness_condition = staleness_condition t;
    type = target_type target;
    extra_condition = extra_condition target;
  }

  abbrev pub delete_statement : Kind → Target → Statement
  delete_statement kind target = record {
    template = delete_stale kind;
    staleness_condition = staleness_condition t;
    type = target_type target;
    extra_condition = extra_condition target;
  }

  -- One round of the loops of `_validate_node_staleness_pct` and `_validate_relation_staleness_pct`.
  unfoldable pub validate_target : Kind → Target → W → Result (StalenessError E) (Unit {0}) × W
  validate_target kind target w =
      let (total, w') =
        query (total_statement kind target) (record { batch_size = none; marker = none }) w in
      elim total [
        | raise e ↦ (raise (database e), w')
        | return total_records ↦
            let (stale, w'') =
              query (stale_statement kind target)
                (record { batch_size = none; marker = some t.marker }) w' in
            elim stale [
              | raise e ↦ (raise (database e), w'')
              | return stale_records ↦ (
                validate_staleness_pct (count_or_zero total_records) (count_or_zero stale_records)
                    (target_type target),
                w'',
              )
            ]
      ]

  unfoldable pub validate_targets :
      Kind → List Target → W → Result (StalenessError E) (Unit {0}) × W
  validate_targets kind [] w = (return tt, w)
  validate_targets kind (target ∷ targets) w =
      let (r, w') = validate_target kind target w in
      elim r [ raise e ↦ (raise e, w') | return _ ↦ validate_targets kind targets w' ]

  unfoldable pub validate : W → Result (StalenessError E) (Unit {0}) × W
  validate w =
      let (r, w') = validate_targets nodes t.target_nodes w in
      elim r [
        | raise e ↦ (raise e, w')
        | return _ ↦ validate_targets relations t.target_relations w'
      ]

  -- A dry run sends nothing and gets no record.
  unfoldable pub execute_delete : Kind → Target → W → Result E (Option ℕ) × W
  execute_delete kind target w =
      if t.dry_run
      then (return none, w)
      else query (delete_statement kind target)
          (record { batch_size = some t.batch_size; marker = some t.marker }) w

  -- `while True:` for one target, with fuel; `none` means that the fuel ran out.
  unfoldable pub delete_target :
      ℕ → Kind → Target → ℕ → W → Option (Result (StalenessError E) ℕ × W)
  delete_target zero kind target total_count w = none
  delete_target (suc fuel) kind target total_count w =
      let (r, w') = execute_delete kind target w in
      elim r [
        | raise e ↦ some (raise (database e), w')
        | return first ↦
            let count = count_or_zero first in
            let rest = delete_target fuel kind target (total_count + count) w' in
            if count == 0 then some (return (total_count + count), w') else rest
      ]

  -- `_batch_delete`
  unfoldable pub batch_delete :
      ℕ → Kind → List Target → W → Option (Result (StalenessError E) (Unit {0}) × W)
  batch_delete fuel kind [] w = some (return tt, w)
  batch_delete fuel kind (target ∷ targets) w = elim (delete_target fuel kind target 0 w) [
    | none ↦ none
    | some (raise e, w') ↦ some (raise e, w')
    | some (return _, w') ↦ batch_delete fuel kind targets w'
  ]

  unfoldable pub run : ℕ → W → Option (Result (StalenessError E) (Unit {0}) × W)
  run fuel w =
      let (r, w') = validate w in
      elim r [
        | raise e ↦ some (raise e, w')
        | return _ ↦ elim (batch_delete fuel nodes t.target_nodes w') [
          | none ↦ none
          | some (raise e, w'') ↦ some (raise e, w'')
          | some (return _, w'') ↦ batch_delete fuel relations t.target_relations w''
        ]
      ]
