-- ===== src/Etl/Chain.antt =====
-- transformer/base_transformer.py: the setting up and the closing of `ChainedTransformer`.
use mathlib.Core.List.{append-nil, append_assoc}
use amundsen_fork.Prelude.{
  ◌≡◌, sym, ap, ◌∙◌, Bool, Option, none, some, List, [], ◌∷◌, ◌++◌, map, if◌then◌else◌,
}
use amundsen_fork.Prelude.Effects.{Result, return, raise, Action, ◌>>◌}

module _ {W E : Type 0} where
  -- One call for each of the transformers.
  unfoldable pub in_turn : List (Action W E (Unit {0})) → Action W E (Unit {0})
  in_turn [] w = (return tt, w)
  in_turn (call ∷ calls) w = (call >> in_turn calls) w

  -- `ChainedTransformer.init`, with the calls of `init` for the scoped configurations.
  unfoldable pub init : Bool → List (Action W E (Unit {0})) → Action W E (Unit {0})
  init is_init_transformers inits w =
      if is_init_transformers then in_turn inits w else (return tt, w)

  -- `ChainedTransformer.close`, with the transformers' calls of `close`.
  unfoldable pub close : List (Action W E (Unit {0})) → Action W E (Unit {0})
  close closes = in_turn closes

-- A transformer that logs itself when it is closed, and may raise then.
abbrev pub Member : Type 0 → Type 0 → Type 0
Member C E = C × Option E

abbrev pub outcome : {E : Type 0} → Option E → Result E (Unit {0})
outcome none = return tt
outcome (some e) = raise e

module _ {C E : Type 0} where
  abbrev pub logs : Member C E → Action (List C) E (Unit {0})
  logs (c, o) log = (outcome o, log ++ c ∷ [])

  -- The transformers up to the first that raises, and its exception.
  abbrev pub up_to_raise : List (Member C E) → List C × Option E
  up_to_raise [] = ([], none)
  up_to_raise ((c, none) ∷ ms) = let (cs, o) = up_to_raise ms in (c ∷ cs, o)
  up_to_raise ((c, some e) ∷ ms) = (c ∷ [], some e)

  in_turn-logs :
      (ms : List (Member C E)) (log : List C)
      → in_turn (map logs ms) log ≡ (outcome (up_to_raise ms).1, log ++ (up_to_raise ms).0)
  unfolding in_turn
  in_turn-logs [] log = ap (λ l. (return tt, l)) (sym (append-nil log))
  in_turn-logs ((c, none) ∷ ms) log =
      in_turn-logs ms (log ++ c ∷ [])
      ∙ ap (λ l. (outcome (up_to_raise ms).1, l)) (append_assoc log (c ∷ []) (up_to_raise ms).0)
  in_turn-logs ((c, some e) ∷ ms) log = λ i. (raise e, log ++ c ∷ [])

  -- Where each transformer adds an entry to a log, closing a chain closes its transformers in order up
  -- to the first one that raises, and raises its exception; those after it are not closed.
  pub close-logs :
      (ms : List (Member C E)) (log : List C)
      → close (map logs ms) log ≡ (outcome (up_to_raise ms).1, log ++ (up_to_raise ms).0)
  unfolding close
  close-logs ms log = in_turn-logs ms log
