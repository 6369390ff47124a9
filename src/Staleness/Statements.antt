-- ===== src/Staleness/Statements.antt =====
-- The Cypher statements of the task, and their staleness condition.
use amundsen_fork.Prelude.{
  ℕ, zero, suc, String, ◌<>◌, Bool, true, false, Option, none, some, if◌then◌else◌,
}
use amundsen_fork.Staleness.Setup.{Target, plain, with_condition, Task}

pub data Kind : Type 0 where
  nodes relations : Kind

pub data Template : Type 0 where
  delete_stale validate_staleness : Kind → Template

-- A template with what `format` puts into it.
pub record Statement : Type 0 where
  pub template : Template
  pub staleness_condition : String
  pub type : String
  pub extra_condition : String

pattern_of : Kind → String → String
pattern_of nodes type = "\nMATCH (target:" <> type <> ")"
pattern_of relations type = "\nMATCH (start_node)-[target:" <> type <> "]-(end_node)"

ending : Template → String
ending (delete_stale nodes) =
    "\nWITH target LIMIT $batch_size\nDETACH DELETE (target)\nRETURN count(*) as count\n"
ending (delete_stale relations) =
    "\nWITH target LIMIT $batch_size\nDELETE target\nRETURN count(*) as count\n"
ending (validate_staleness _) = "\nRETURN count(*) as count\n"

kind_of : Template → Kind
kind_of (delete_stale k) = k
kind_of (validate_staleness k) = k

-- The text that is sent to the database.
unfoldable pub text : Statement → String
unfolding pattern_of ending kind_of
text s =
    pattern_of (kind_of s.template) s.type
    <> "\nWHERE "
    <> s.staleness_condition
    <> s.extra_condition
    <> ending s.template

-- `if self.ms_to_expire:` is false for `None` and for 0.
abbrev by_time : Option ℕ → Bool
by_time none = false
by_time (some zero) = false
by_time (some (suc _)) = true

abbrev null_check : Bool → String → String
null_check retain property = if retain then "" else "\nOR NOT EXISTS(" <> property <> ")"

-- The condition of `_decorate_staleness`.
unfoldable pub staleness_condition : Task → String
staleness_condition t =
    if by_time t.ms_to_expire
    then "("
      <> "target.publisher_last_updated_epoch_ms < (timestamp() - $marker)"
      <> null_check t.retain "target.publisher_last_updated_epoch_ms"
      <> ")"
    else "("
      <> "target.published_tag < $marker"
      <> null_check t.retain "target.published_tag"
      <> ")"

abbrev pub target_type : Target → String
target_type (plain t) = t
target_type (with_condition t _) = t

abbrev pub extra_condition : Target → String
extra_condition (plain _) = ""
extra_condition (with_condition _ c) = " AND " <> c
