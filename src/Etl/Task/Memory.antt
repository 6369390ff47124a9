-- ===== src/Etl/Task/Memory.antt =====
-- `DefaultTask.run` over an extractor that reads a list and may raise for any of its records, and at
-- their end, a transformer that may give anything for
-- a record or raise, and a loader that appends to a list and may raise.
use amundsen_fork.Prelude.{ℕ, ◌≡◌, Bool, false, Option, none, some, List, [], ◌∷◌, ◌++◌}
use amundsen_fork.Prelude.Effects.{Result, return, raise}
use amundsen_fork.Etl.Closer
use amundsen_fork.Etl.Closer.{registered}
use amundsen_fork.Etl.Transformer.{Iter, iter, stop, raised, item, Output, single, iterator}
use amundsen_fork.Etl.Task.{Stages}

pub data Part : Type 0 where
  extractor transformer loader : Part

pub record Memory (R : Type 0) : Type 0 where
  pub pending : List R
  pub loaded : List R
  pub closed : List Part

-- What the transformer does with a record: raise, give one value, or yield some values and then
-- stop or raise.
pub data Plan (E R : Type 0) : Type 0 where
  fail : E → Plan E R
  one : R → Plan E R
  many : List R → Option E → Plan E R

pub record Parts (E R : Type 0) : Type 0 where
  pub nothing : R
  pub truthy : R → Bool
  pub nothing_false : truthy nothing ≡ false
  pub plan : R → Plan E R
  pub load_error : R → Option E
  -- What extracting a record raises, and what extracting after the last one does.
  pub extract_error : R → Option E
  pub end_error : Option E
  pub progress_report_frequency : ℕ
  pub zero_division : E
  pub close_error : Part → Option E

abbrev pub outcome : {E : Type 0} → Option E → Result E (Unit {0})
outcome none = return tt
outcome (some e) = raise e

abbrev pub given : {E R : Type 0} → Option E → R → Result E R
given none r = return r
given (some e) r = raise e

module _ {E R : Type 0} where
  unfoldable pub iter_of : List R → Option E → Iter (Memory R) E R
  iter_of [] none = iter (λ m. stop m)
  iter_of [] (some e) = iter (λ m. raised e m)
  iter_of (r ∷ rs) end = iter (λ m. item r (iter_of rs end) m)

  abbrev pub output_of : Plan E R → Result E (Output (Memory R) E R)
  output_of (fail e) = raise e
  output_of (one r) = return (single r)
  output_of (many rs end) = return (iterator (iter_of rs end))

module _ {E R : Type 0} (p : Parts E R) where
  unfoldable pub extract_from : List R → Memory R → Result E R × Memory R
  extract_from [] m = (given p.end_error p.nothing, m)
  extract_from (r ∷ rs) m = (given (p.extract_error r) r, record m { pending = rs })

  abbrev pub load_one : Option E → R → Memory R → Result E (Unit {0}) × Memory R
  load_one none r m = (return tt, record m { loaded = m.loaded ++ r ∷ [] })
  load_one (some e) r m = (raise e, m)

  unfoldable pub stages : Stages (Memory R) E R
  unfolding extract_from
  stages = record {
    extract = λ m. extract_from m.pending m;
    transform = λ r m. (output_of (p.plan r), m);
    load = λ r m. load_one (p.load_error r) r m;
    truthy = p.truthy;
    progress_report_frequency = p.progress_report_frequency;
    zero_division = p.zero_division;
  }

  unfoldable pub close_part : Part → Memory R → Result E (Unit {0}) × Memory R
  close_part part m = (outcome (p.close_error part), record m { closed = m.closed ++ part ∷ [] })

  -- The closer of `DefaultTask.__init__`.
  unfoldable pub close : Memory R → Result E (Unit {0}) × Memory R
  close m =
      let (r, m', _) =
        Closer.close close_part (registered (extractor ∷ transformer ∷ loader ∷ []) []) m in
      (r, m')
