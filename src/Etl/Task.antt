-- ===== src/Etl/Task.antt =====
-- task/task.py: `DefaultTask.run`. The extractor, the transformer and the loader are parameters,
-- as are the records that flow between them and their truth value.
pub mod Memory
pub mod Ends
pub mod Loads
use mathlib.Core.Option
use amundsen_fork.Prelude.{
  ℕ, zero, suc, ◌+◌, ltb, ◌==◌, ◌&&◌, Bool, Option, none, some, if◌then◌else◌,
}
use amundsen_fork.Prelude.Effects.{Result, return, raise, Action, pure, and_then, ◌>>=◌}
use amundsen_fork.Etl.Transformer.{Iter, iter, Next, stop, raised, item, Output, single, iterator}

pub record Stages (W E R : Type 0) : Type 0 where
  pub extract : Action W E R
  pub transform : R → Action W E (Output W E R)
  pub load : R → Action W E (Unit {0})
  pub truthy : R → Bool
  pub progress_report_frequency : ℕ
  -- Python's exception for `%` by 0.
  pub zero_division : E

module _ {W E R : Type 0} (s : Stages W E R) where
  -- `for result in results: if result: load(result); count += 1`
  unfoldable mutual
    pub load_results : Iter W E R → ℕ → Action W E ℕ
    load_results (iter f) count w = load_next (f w) count

    pub load_next : Next W E R → ℕ → Result E ℕ × W
    load_next (stop w) count = (return count, w)
    load_next (raised e w) count = (raise e, w)
    load_next (item r it w) count =
        let skipped = load_results it count w in
        let (result, w') = s.load r w in
        let loaded : Result E ℕ × W = elim result [
          | raise e ↦ (raise e, w')
          | return _ ↦ load_results it (count + 1) w'
        ] in
        if s.truthy r then loaded else skipped

  -- `if count > 0 and count % self._progress_report_frequency == 0`, whose report is only a log.
  unfoldable pub report : ℕ → Action W E (Unit {0})
  report count w =
      if ltb 0 count && s.progress_report_frequency == 0
      then (raise s.zero_division, w)
      else (return tt, w)

  -- What follows `transform` in one round: the next record, and the count. A false record is
  -- passed over, with no test for the report.
  unfoldable pub after_transform : Output W E R → ℕ → Action W E (R × ℕ)
  after_transform (single r) count w =
      if s.truthy r
      then (s.load r >>= λ _.
            report (count + 1) >>= λ _. s.extract >>= λ fetched. pure (fetched, count + 1))
          w
      else (s.extract >>= λ fetched. pure (fetched, count)) w
  after_transform (iterator it) count w =
      (load_results it count >>= λ count'.
      report count' >>= λ _. s.extract >>= λ fetched. pure (fetched, count'))
        w

  unfoldable pub round : R → ℕ → Action W E (R × ℕ)
  round current count = s.transform current >>= λ out. after_transform out count

  -- `while record:`, with fuel; `none` means that the fuel ran out.
  unfoldable pub loop : ℕ → R → ℕ → W → Option (Result E ℕ × W)
  loop zero current count w = none
  loop (suc fuel) current count w =
      let (result, w') = round current count w in
      let rest : Option (Result E ℕ × W) = elim result [
        | raise e ↦ some (raise e, w')
        | return (fetched', count') ↦ loop fuel fetched' count' w'
      ] in
      if s.truthy current then rest else some (return count, w)

  -- The body of the `try`.
  unfoldable pub extract_all : ℕ → W → Option (Result E ℕ × W)
  extract_all fuel w =
      let (result, w') = s.extract w in
      elim result [ raise e ↦ some (raise e, w') | return fetched ↦ loop fuel fetched 0 w' ]

-- `finally: self._closer.close()`: an exception of the closer replaces what the body gave.
unfoldable pub close_after :
    {W E A : Type 0} → (W → Result E (Unit {0}) × W) → Result E A × W → Result E A × W
close_after close (r, w) =
    let (c, w') = close w in (elim c [ return _ ↦ r | raise e ↦ raise e ], w')

-- `DefaultTask.run`, with what its closer does. The number of loaded records is logged at the end.
unfoldable pub run :
    {W E R : Type 0}
    → Stages W E R
    → (W → Result E (Unit {0}) × W)
    → ℕ
    → W
    → Option (Result E ℕ × W)
run s close fuel w = Option.map (close_after close) (extract_all s fuel w)
