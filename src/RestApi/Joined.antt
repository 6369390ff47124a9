-- ===== src/RestApi/Joined.antt =====
-- The records that `RestApiQuery.execute` yields are the join of those before with the sub-records.
use amundsen_fork.Prelude.{
  String, ◌≡◌, false, none, List, [], ◌∷◌, ◌++◌, map, length, ◌≤◌, if◌then◌else◌,
}
use amundsen_fork.Prelude.Effects.{return, Action}
use amundsen_fork.RestApi.Rows.{Width}
use amundsen_fork.RestApi.Merger.{Dict}
use amundsen_fork.RestApi.Execution.{each, Query, Hooks, RestApiQuery, set_fields}
use amundsen_fork.RestApi.Round.{listed}

module _ {W E V R : Type 0} (h : Hooks W E V R) (q : RestApiQuery E) where
  -- The records of one response: those of its sub-records, or the record itself if there are none.
  abbrev pub joined : Dict V → List (List V) → List (Dict V)
  joined record_dict [] = if q.skip_no_result then [] else record_dict ∷ []
  joined record_dict (s ∷ subs) =
      map (λ sub_record. set_fields record_dict q.field_names sub_record) (s ∷ subs)

  -- The methods of the class itself, without a merger, and a server whose answers are fixed, for the
  -- records that are asked for: the others may lack the keys that the URL is formatted with.
  pub record Serves (asked : Dict V → Type 0) (answer : Dict V → List (List V)) : Type 0 where
    pub fails : q.fail_no_result ≡ false
    pub url : Dict V → String
    pub response : String → R
    pub authenticates : (w : W) → h.authenticate w ≡ (return tt, w)
    pub preprocesses : (d : Dict V) (w : W) → asked d → h.preprocess_url d w ≡ (return (url d), w)
    pub sends :
        (d : Dict V) (w : W) → asked d → h.send_request (url d) w ≡ (return (response (url d)), w)
    pub holds :
        (d : Dict V)
        → asked d
        → h.found (response (url d))
          ≡ return (listed q.json_path_contains_or (length q.field_names) (answer d))
    pub posts : (r : R) (w : W) → h.post_process r w ≡ (return tt, w)
    pub one_page : (w : W) → h.more_pages w ≡ false
    pub merges : h.merge_into ≡ none
    pub named : 1 ≤ length q.field_names
    pub wide : (d : Dict V) → asked d → Width (length q.field_names) (answer d)

-- The query yields those records, and does nothing else.
abbrev pub Yields : {W F V : Type 0} → Query W F V → List (Dict V) → Type 0
Yields {W = W} {F = F} {V = V} query records =
    (body : Dict V → Action W F (Unit {0})) (w : W) → query body w ≡ each body records w

module _ {W E V R : Type 0} (h : Hooks W E V R) (q : RestApiQuery E) (asked : Dict V → Type 0)
    (answer : Dict V → List (List V)) where
  abbrev pub join : List (Dict V) → List (Dict V)
  join [] = []
  join (d ∷ ds) = joined h q d (answer d) ++ join ds
