-- ===== src/Elastic/Contract.antt =====
-- What is relied on of Elasticsearch. Every call may raise.
use amundsen_fork.Prelude.{
  String, str_eq, ◌≡◌, ◌≢◌, Bool, Option, List, [], ◌∷◌, ◌++◌, map, contains, string_eq,
  if◌then◌else◌,
}
use amundsen_fork.Prelude.Effects.{return, raise}
use amundsen_fork.Publisher.{Record}
use amundsen_fork.Elastic.Connection.{AliasAction, add, remove_index, Client}

-- The indices without one.
unfoldable pub without : String → List String → List String
without i [] = []
without i (j ∷ js) = let rest = without i js in if str_eq j i then rest else j ∷ rest

-- The indices of the alias after the actions, taken in order.
unfoldable pub applied : String → List AliasAction → List String → List String
applied alias [] indices = indices
applied alias (add i a ∷ acts) indices =
    applied alias acts (
      if str_eq a alias then if contains i indices then indices else indices ++ i ∷ [] else indices)
applied alias (remove_index i ∷ acts) indices = applied alias acts (without i indices)

unfoldable pub removed : List AliasAction → List String
removed [] = []
removed (add _ _ ∷ acts) = removed acts
removed (remove_index i ∷ acts) = i ∷ removed acts

-- `indices` are the indices of the alias, and `docs` the documents of an index.
pub record Cluster {W E : Type 0} (c : Client W E) (alias : String) : Type 0 where
  pub indices : W → List String
  pub docs : String → W → List Record
  pub create_indices : (i : String) (w : W) → indices (c.create i w).1 ≡ indices w
  pub create_docs : (i j : String) (w : W) → j ≢ i → docs j (c.create i w).1 ≡ docs j w
  pub creates : (i : String) (w : W) → (c.create i w).0 ≡ return tt → docs i (c.create i w).1 ≡ []
  pub bulk_indices : (rows : List (String × Record)) (w : W) → indices (c.bulk rows w).1 ≡ indices w
  pub bulk_docs :
      (i j : String) (ds : List Record) (w : W)
      → j ≢ i
      → docs j (c.bulk (map (λ d. (i, d)) ds) w).1 ≡ docs j w
  pub bulks :
      (i : String) (ds : List Record) (w : W)
      → (c.bulk (map (λ d. (i, d)) ds) w).0 ≡ return Bool.false
      → docs i (c.bulk (map (λ d. (i, d)) ds) w).1 ≡ docs i w ++ ds
  pub get_alias_world : (w : W) → (c.get_alias alias w).1 ≡ w
  pub get_alias_some :
      (w : W) (found : List String)
      → (c.get_alias alias w).0 ≡ return (Option.some found)
      → found ≡ indices w
  pub get_alias_none : (w : W) → (c.get_alias alias w).0 ≡ return Option.none → indices w ≡ []
  -- The actions of one call are done together, or none of them.
  pub update_indices :
      (acts : List AliasAction) (w : W)
      → (c.update_aliases acts w).0 ≡ return tt
      → indices (c.update_aliases acts w).1 ≡ applied alias acts (indices w)
  pub update_docs :
      (acts : List AliasAction) (i : String) (w : W)
      → contains i (removed acts) ≡ Bool.false
      → docs i (c.update_aliases acts w).1 ≡ docs i w
  pub update_raises :
      (acts : List AliasAction) (e : E) (w : W)
      → (c.update_aliases acts w).0 ≡ raise e
      → (c.update_aliases acts w).1 ≡ w
