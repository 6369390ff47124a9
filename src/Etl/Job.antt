-- ===== src/Etl/Job.antt =====
-- job/job.py: `DefaultJob.launch`. The task and the publisher are parameters. They act on the
-- world and on `Job.closer`, which the whole program shares.
pub mod Trace
use amundsen_fork.Prelude.{Bool, true, false, List, if◌then◌else◌}
use amundsen_fork.Prelude.Effects.{Result, return, raise, Action, finally, ◌>>◌}
use amundsen_fork.Etl.Closer
use amundsen_fork.Etl.Closer.{register}

-- The world, with the stack of `Job.closer`.
pub record Env (W C : Type 0) : Type 0 where
  pub world : W
  pub closer : List C

-- What the job is made of.
pub record Job (W E C : Type 0) : Type 0 where
  pub task_init : Action (Env W C) E (Unit {0})
  pub task_run : Action (Env W C) E (Unit {0})
  pub task_close : Action (Env W C) E (Unit {0})
  pub publisher_init : Action (Env W C) E (Unit {0})
  pub publish : Action (Env W C) E (Unit {0})
  -- `self.publisher.close`, which is registered.
  pub publisher_close : C
  -- Calling a registered callable.
  pub call : C → Action W E (Unit {0})
  -- Whether statsd is configured, and `statsd.incr('success')` or `statsd.incr('fail')`.
  pub statsd : Bool
  pub incr : Bool → W → W

module _ {W E C : Type 0} (j : Job W E C) where
  -- `Job.closer.register(self.publisher.close)`
  register_publisher : Action (Env W C) E (Unit {0})
  register_publisher env =
      (return tt, record env { closer = register j.publisher_close env.closer })

  -- The body of the outer `try`.
  unfoldable pub main : Action (Env W C) E (Unit {0})
  unfolding register_publisher
  main =
      j.task_init
      >> (finally j.task_run j.task_close
          >> (j.publisher_init >> (register_publisher >> j.publish)))

  abbrev succeeded : Result E (Unit {0}) → Bool
  succeeded (return _) = true
  succeeded (raise _) = false

  unfoldable pub emit_metric : Result E (Unit {0}) → W → W
  emit_metric r w = if j.statsd then j.incr (succeeded r) w else w

  -- The outer `finally`: the metric, then the closer, whose exception replaces that of the body.
  unfoldable pub wind_up : Result E (Unit {0}) → Env W C → Result E (Unit {0}) × Env W C
  unfolding emit_metric
  wind_up r env =
      let (c, w, stack) = Closer.close j.call env.closer (emit_metric r env.world) in
      (elim c [ return _ ↦ r | raise e ↦ raise e ], record { world = w; closer = stack })

  unfoldable pub launch : Action (Env W C) E (Unit {0})
  launch env = let (r, env') = main env in wind_up r env'
