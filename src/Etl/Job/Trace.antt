-- ===== src/Etl/Job/Trace.antt =====
-- The order of what `DefaultJob.launch` does, whichever of its steps raise.
use mathlib.Core.List.{append_assoc}
use amundsen_fork.Prelude.{
  ◌≡◌, refl, ap, ◌∙◌, Bool, true, false, Option, none, some, List, [], ◌∷◌, ◌++◌, arith, map,
  if◌then◌else◌,
}
use amundsen_fork.Prelude.Effects.{Result, return, raise, Action}
use amundsen_fork.Etl.Closer
use amundsen_fork.Etl.Closer.{register, call_all, log-call_all}
use amundsen_fork.Etl.Job.{Env, Job, main, wind_up, launch, register_publisher}

pub data Step : Type 0 where
  task_init task_run task_close publisher_init publish : Step

pub data Event (C : Type 0) : Type 0 where
  did : Step → Event C
  metric : Bool → Event C
  closed : C → Event C

-- Which steps and which callables raise, and what.
pub record Plan (E C : Type 0) : Type 0 where
  pub error : Step → Option E
  pub close_error : C → Option E
  pub publisher_close : C
  pub statsd : Bool

module _ {E C : Type 0} (p : Plan E C) where
  abbrev outcome : Option E → Result E (Unit {0})
  outcome none = return tt
  outcome (some e) = raise e

  -- Each step adds its event to the log, and then raises or returns.
  abbrev act : Step → Action (Env (List (Event C)) C) E (Unit {0})
  act s env = (outcome (p.error s), record env { world = env.world ++ did s ∷ [] })

  unfoldable pub job : Job (List (Event C)) E C
  job = record {
    task_init = act task_init;
    task_run = act task_run;
    task_close = act task_close;
    publisher_init = act publisher_init;
    publish = act publish;
    publisher_close = p.publisher_close;
    call = λ c w. (outcome (p.close_error c), w ++ closed c ∷ []);
    statsd = p.statsd;
    incr = λ b w. w ++ metric b ∷ [];
  }

  -- The first exception of the steps, the events of the steps that are made, and whether the
  -- publisher's `close` is registered. Once the task has run it is closed, whether it raised or not.
  pub record Expected : Type 0 where
    pub raised : Option E
    pub steps : List (Event C)
    pub registered : Bool

  unfoldable pub expected : Expected
  expected = elim (p.error task_init) [
    | some e ↦ record { raised = some e; steps = did task_init ∷ []; registered = false }
    | none ↦
        let ran : List (Event C) = did task_init ∷ did task_run ∷ did task_close ∷ [] in
        elim (p.error task_close) [
          | some e ↦ record { raised = some e; steps = ran; registered = false }
          | none ↦ elim (p.error task_run) [
            | some e ↦ record { raised = some e; steps = ran; registered = false }
            | none ↦ elim (p.error publisher_init) [
              | some e ↦ record {
                raised = some e;
                steps = ran ++ did publisher_init ∷ [];
                registered = false;
              }
              | none ↦ record {
                raised = p.error publish;
                steps = ran ++ did publisher_init ∷ did publish ∷ [];
                registered = true;
              }
            ]
          ]
        ]
  ]

  abbrev pub stack_after : Expected → List C → List C
  stack_after x cs = if x.registered then p.publisher_close ∷ cs else cs

  abbrev snoc : List (Event C) → Step → List (Event C)
  snoc w s = w ++ did s ∷ []

  abbrev task_log : List (Event C) → List (Event C)
  task_log w = snoc (snoc (snoc w task_init) task_run) task_close

  task_log-eq :
      (w : List (Event C)) → task_log w ≡ w ++ did task_init ∷ did task_run ∷ did task_close ∷ []
  task_log-eq w = simp append_assoc

  init_log-eq :
      (w : List (Event C))
      → snoc (task_log w) publisher_init
        ≡ w ++ did task_init ∷ did task_run ∷ did task_close ∷ did publisher_init ∷ []
  init_log-eq w = simp append_assoc

  publish_log-eq :
      (w : List (Event C))
      → snoc (snoc (task_log w) publisher_init) publish
        ≡ w ++ did task_init ∷ did task_run ∷ did task_close ∷ did publisher_init ∷ did publish ∷ []
  publish_log-eq w = simp append_assoc

  main-expected :
      (env : Env (List (Event C)) C)
      → main job env ≡ (
        outcome (expected.raised),
        record { world = env.world ++ expected.steps; closer = stack_after expected env.closer },
      )
  unfolding main job expected register_publisher register
  main-expected env =
      ground (arith, task_log-eq env.world, init_log-eq env.world, publish_log-eq env.world)

  -- The last exception of the callables that are called in this order.
  unfoldable pub last_close_error : List C → Option E
  last_close_error [] = none
  last_close_error (c ∷ cs) = elim (last_close_error cs) [
    | some e ↦ some e
    | none ↦ p.close_error c
  ]

  abbrev call_closed : C → Action (List (Event C)) E (Unit {0})
  call_closed c w = (outcome (p.close_error c), w ++ closed c ∷ [])

  call_all-error :
      (cs : List C) (last : Option E) (w : List (Event C))
      → (call_all call_closed cs last w).0
        ≡ elim (last_close_error cs) [ some e ↦ some e | none ↦ last ]
  unfolding call_all last_close_error
  call_all-error [] last w = refl
  call_all-error (c ∷ cs) last w = ground (
    arith,
    call_all-error cs (p.close_error c) (w ++ closed c ∷ []),
    call_all-error cs last (w ++ closed c ∷ []),
  )

  abbrev pub final_result : List C → Option E → Result E (Unit {0})
  final_result cs o = elim (last_close_error cs) [ some e ↦ raise e | none ↦ outcome o ]

  abbrev is_none : Option E → Bool
  is_none none = true
  is_none (some _) = false

  abbrev pub metrics : Option E → List (Event C)
  metrics o = if p.statsd then metric (is_none o) ∷ [] else []

  wind_up-lem :
      (o : Option E) (env : Env (List (Event C)) C)
      → wind_up job (outcome o) env ≡ (
        final_result env.closer o,
        record { world = env.world ++ (metrics o ++ map closed env.closer); closer = [] },
      )
  unfolding wind_up job Closer.close
  wind_up-lem o env =
      let w = env.world ++ metrics o in
      ground (
        arith,
        call_all-error env.closer none w,
        call_all-error env.closer none env.world,
        log-call_all call_closed (λ (c : C). closed c) (λ (l : List (Event C)). l) (λ c l. refl)
            env.closer none w,
        log-call_all call_closed (λ (c : C). closed c) (λ (l : List (Event C)). l) (λ c l. refl)
            env.closer none env.world,
        append_assoc env.world (metrics o) (map (λ (c : C). closed c) env.closer),
      )

-- Whichever steps and registered callables raise: launching makes the steps in the order of
-- `expected` (the task is closed whenever it was run; nothing follows a step that raised), then
-- emits one metric if statsd is configured, which is success exactly if no step raised, and then
-- calls every callable of `Job.closer` once, the publisher's `close` first if it was registered.
-- The closer is left empty. What comes out is the last exception of the callables, or else that of
-- the steps, or else nothing.
pub launch_lem :
    {E C : Type 0} (p : Plan E C) (events : List (Event C)) (closer : List C)
    → let x = expected p in
      let stack = stack_after p x closer in
      launch (job p) (record { world = events; closer = closer }) ≡ (
        final_result p stack x.raised,
        record {
          world = (events ++ x.steps) ++ (metrics p x.raised ++ map closed stack);
          closer = [];
        },
      )
unfolding launch
launch_lem p events closer =
    ap (λ q. wind_up (job p) q.0 q.1) (main-expected p (record { world = events; closer = closer }))
    ∙ wind_up-lem p (expected p).raised _
