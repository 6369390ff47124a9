-- ===== src/Elastic/Bulk.antt =====
-- `ElasticsearchPublisher.publish_impl` of publisher/elasticsearch_publisher.py.
use amundsen_fork.Prelude.{
  ℕ, suc, String, ◌==◌, Option, none, some, List, [], ◌∷◌, ◌++◌, map, if◌then◌else◌,
}
use amundsen_fork.Prelude.Effects.{return, Action, pure, ◌>>=◌, ◌>>◌}
use amundsen_fork.Models.Graph.{str}
use amundsen_fork.Publisher.{Record, put}
use amundsen_fork.Elastic.Connection.{AliasAction, add, remove_index, Client}

pub record ElasticsearchPublisher : Type 0 where
  pub elasticsearch_type : String
  pub elasticsearch_new_index : String
  pub elasticsearch_alias : String
  pub elasticsearch_batch_size : ℕ

module _ {W E : Type 0} (c : Client W E) (p : ElasticsearchPublisher) where
  -- `action['resource_type'] = self.elasticsearch_type`
  unfoldable pub typed : Record → Record
  typed action = put "resource_type" (str p.elasticsearch_type) action

  abbrev pub row : Record → String × Record
  row action = (p.elasticsearch_new_index, action)

  -- `if bulk_actions:`. What the response says is not looked at.
  unfoldable pub final_bulk : List (String × Record) → Action W E (Unit {0})
  final_bulk [] w = (return tt, w)
  final_bulk (r ∷ bulk_actions) w = (c.bulk (r ∷ bulk_actions) >>= λ _. pure tt) w

  -- The loop over the actions, with `bulk_actions` and `cnt`, and the final bulk.
  unfoldable pub bulk_all : List Record → List (String × Record) → ℕ → Action W E (Unit {0})
  bulk_all [] bulk_actions cnt w = final_bulk bulk_actions w
  bulk_all (action ∷ actions) bulk_actions cnt w =
      let bulk_actions' = bulk_actions ++ row (typed action) ∷ [] in
      let full = (c.bulk bulk_actions' >> bulk_all actions [] 0) w in
      let more = bulk_all actions bulk_actions' (suc cnt) w in
      if suc cnt == p.elasticsearch_batch_size then full else more

  abbrev pub or_empty : Option (List String) → List String
  or_empty none = []
  or_empty (some indices) = indices

  -- `_fetch_old_index`
  unfoldable pub fetch_old_index : Action W E (List String)
  fetch_old_index = c.get_alias p.elasticsearch_alias >>= λ found. pure (or_empty found)

  abbrev pub alias_actions : List String → List AliasAction
  alias_actions old =
      add p.elasticsearch_new_index p.elasticsearch_alias ∷ map (λ index. remove_index index) old

  -- What follows the creation of the index.
  unfoldable pub fill_and_swap : List Record → Action W E (Unit {0})
  fill_and_swap actions =
      bulk_all actions [] 0 >> (fetch_old_index >>= λ old. c.update_aliases (alias_actions old))

  unfoldable pub publish_impl : List Record → Action W E (Unit {0})
  publish_impl [] w = (return tt, w)
  publish_impl (action ∷ actions) w =
      (c.create p.elasticsearch_new_index >> fill_and_swap (action ∷ actions)) w
