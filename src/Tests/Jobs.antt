-- ===== src/Tests/Jobs.antt =====
-- Jobs of databuilder/databuilder/job on concrete inputs, with parts that raise.
use mathlib.Core.List.{reverse}
use amundsen_fork.Prelude.{
  ℕ, suc, String, ltb, ◌≡◌, ◌==◌, refl, Bool, true, false, none, some, List, [], ◌∷◌, ◌++◌, map,
  length, if◌then◌else◌, arith,
}
use amundsen_fork.Prelude.Effects.{Result, return, raise, Action}
use amundsen_fork.Etl.Closer
use amundsen_fork.Etl.Closer.{registered, raise_last, last_raised, outcomes, close-registered}
use amundsen_fork.Etl.Callback.{publish, log-publish}
use amundsen_fork.Etl.Transformer.{
  Transform, single, iterator, yield_from, chain, chained, chain-chained,
}
use amundsen_fork.Etl.Chain.{logs, close-logs}
use amundsen_fork.Etl.Task.{run}
use amundsen_fork.Etl.Task.Memory
use amundsen_fork.Etl.Task.Memory.{
  Part, extractor, transformer, loader, Memory, fail, one, many, Parts, stages,
}
use amundsen_fork.Etl.Task.Ends.{run_closes}
use amundsen_fork.Etl.Task.Loads.{NeverRaises, all_produced, run_loads}
use amundsen_fork.Etl.Job.{launch}
use amundsen_fork.Etl.Job.Trace
use amundsen_fork.Etl.Job.Trace.{
  Step, task_init, task_run, task_close, publisher_init, job, expected, launch_lem,
}

-- A callable logs its number, and raises it if it is over 5.
abbrev call : ℕ → Action (List ℕ) ℕ (Unit {0})
call n log = (if ltb 5 n then raise n else return tt, log ++ n ∷ [])

close-registered_example :
    ((Closer.close call (registered (1 ∷ 7 ∷ 2 ∷ []) []) []).1
      ≡ [] ++ map (λ n. n) (reverse (1 ∷ 7 ∷ 2 ∷ [])))
    × ((Closer.close call (registered (1 ∷ 7 ∷ 2 ∷ []) []) []).2 ≡ [])
    × ((Closer.close call (registered (1 ∷ 7 ∷ 2 ∷ []) []) []).0
        ≡ raise_last (last_raised (outcomes call (registered (1 ∷ 7 ∷ 2 ∷ []) []) [])))
close-registered_example = close-registered call (λ n. n) (λ w. w) (1 ∷ 7 ∷ 2 ∷ []) [] λ c w. refl

-- A callback logs its flag and its number, and raises its number if it is over 5.
abbrev notify : Bool → ℕ → Action (List (Bool × ℕ)) ℕ (Unit {0})
notify b n log = (if ltb 5 n then raise n else return tt, log ++ (b, n) ∷ [])

abbrev failing : Action (List (Bool × ℕ)) ℕ (Unit {0})
failing log = (raise 100, log)

log-publish_example :
    ((publish notify (1 ∷ 7 ∷ []) failing []).1 ≡ [] ++ map (λ c. (false, c)) (1 ∷ 7 ∷ []))
    × ((publish notify (1 ∷ 7 ∷ []) failing []).0
        ≡ elim (last_raised (outcomes (notify false) (1 ∷ 7 ∷ []) [])) [
          | some e ↦ raise e
          | none ↦ raise 100
        ])
log-publish_example = log-publish notify (λ w. w) (1 ∷ 7 ∷ []) failing [] λ b c w. refl

-- It doubles a record, and raises at 9.
abbrev twice : Transform (List ℕ) ℕ ℕ
twice n log =
    (if n == 9 then raise n else return (iterator (yield_from (n ∷ n ∷ []))), log ++ n ∷ [])

abbrev next_number : Transform (List ℕ) ℕ ℕ
next_number n log = (return (single (suc n)), log)

chain-chained_example :
    chain (λ n. n == 0) (chained (λ n. n == 0) (twice ∷ next_number ∷ []) ∷ twice ∷ []) (8 ∷ []) []
    ≡ chain (λ n. n == 0) ((twice ∷ next_number ∷ []) ++ twice ∷ []) (8 ∷ []) []
chain-chained_example = chain-chained (λ n. n == 0) (twice ∷ next_number ∷ []) (twice ∷ []) 8 []

-- Records are numbers, `None` is 0; the loader raises on 13 and closing the transformer raises.
abbrev faulty : Parts ℕ ℕ
faulty = record {
  nothing = 0;
  truthy = λ n. ltb 0 n;
  nothing_false = refl;
  plan = λ n. if n == 4 then fail 4 else if n == 3 then many (7 ∷ 0 ∷ 13 ∷ []) none else one n;
  load_error = λ n. if n == 13 then some 13 else none;
  extract_error = λ n. if n == 8 then some 8 else none;
  end_error = some 99;
  progress_report_frequency = 0;
  zero_division = 77;
  close_error = λ part. elim part [ transformer ↦ some 55 | extractor ↦ none | loader ↦ none ];
}

abbrev sound : Parts ℕ ℕ
sound = record faulty {
  plan = λ n. if n == 3 then many (7 ∷ 0 ∷ 13 ∷ []) none else one n;
  load_error = λ n. none;
  extract_error = λ n. none;
  end_error = none;
  progress_report_frequency = 2;
  close_error = λ part. none;
}

abbrev start : Memory ℕ
start = record { pending = 1 ∷ 3 ∷ 4 ∷ []; loaded = []; closed = [] }

run_closes_example :
    (q : Result ℕ ℕ × Memory ℕ) × (run (stages faulty) (Memory.close faulty) 5 start ≡ some q)
    × (q.1.closed ≡ [] ++ loader ∷ transformer ∷ extractor ∷ [])
run_closes_example = run_closes faulty 5 start (omega arith)

sound-NeverRaises : NeverRaises ℕ ℕ sound start.pending
sound-NeverRaises = record {
  planned = ((refl, tt), ((refl, refl), ((refl, tt), tt)));
  loads = λ n. refl;
  extracts = λ n. refl;
  ends = refl;
  reports = λ h. omega arith;
  closes = λ part. refl;
}

run_loads_example :
    run (stages sound) (Memory.close sound) 5 start
    ≡ some (
      return (length (all_produced sound start.pending)),
      record start {
        pending = [];
        loaded = [] ++ all_produced sound start.pending;
        closed = [] ++ loader ∷ transformer ∷ extractor ∷ [];
      },
    )
run_loads_example = run_loads sound 5 start sound-NeverRaises (omega arith)

-- The publisher's `init` raises, and so does the second registered callable.
abbrev broken : Trace.Plan ℕ ℕ
broken = record {
  error = λ s. elim s [
    | task_init ↦ none
    | task_run ↦ none
    | task_close ↦ none
    | publisher_init ↦ some 1
    | Trace.publish ↦ none
  ];
  close_error = λ c. if c == 2 then some 20 else none;
  publisher_close = 9;
  statsd = true;
}

launch_lem_example : launch (job broken) (record { world = []; closer = 1 ∷ 2 ∷ [] }) ≡ (
  Trace.final_result broken
      (Trace.stack_after broken (expected broken) (1 ∷ 2 ∷ []))
      (expected broken).raised,
  record {
    world =
        ([] ++ (expected broken).steps)
        ++ (Trace.metrics broken (expected broken).raised
            ++ map Trace.closed (Trace.stack_after broken (expected broken) (1 ∷ 2 ∷ [])));
    closer = [];
  },
)
launch_lem_example = launch_lem broken [] (1 ∷ 2 ∷ [])

close-logs_example :
    amundsen_fork.Etl.Chain.close
      (map (logs {C = ℕ} {E = String}) ((1, none) ∷ (2, some "stuck") ∷ (3, none) ∷ []))
      (0 ∷ [])
    ≡ (raise "stuck", 0 ∷ 1 ∷ 2 ∷ [])
close-logs_example = close-logs ((1, none) ∷ (2, some "stuck") ∷ (3, none) ∷ []) (0 ∷ [])
