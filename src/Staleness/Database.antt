-- ===== src/Staleness/Database.antt =====
-- What the task relies on of the database: what its statements count and delete.
use Prim.Native.Nat.{min}
use amundsen_fork.Prelude.{ℕ, ◌+◌, ◌≤◌, ◌≡◌, none, some}
use amundsen_fork.Prelude.Effects.{return}
use amundsen_fork.Staleness.Setup.{Target, Task}
use amundsen_fork.Staleness.Statements.{Kind}
use amundsen_fork.Staleness.Run.{Query, total_statement, stale_statement, delete_statement}

-- What is counted are matches: a statement for relations meets a relation once in each direction.
-- Counting changes nothing. A delete counts as many stale matches as its limit allows and removes at
-- least these; nothing becomes stale while the task runs.
pub record Store {W E : Type 0} (query : Query W E) (t : Task) : Type 0 where
  pub total : Kind → Target → W → ℕ
  pub stale : Kind → Target → W → ℕ
  pub reads_total :
      (k : Kind) (g : Target) (w : W)
      → query (total_statement query t k g) (record { batch_size = none; marker = none }) w
        ≡ (return (some (total k g w)), w)
  pub reads_stale :
      (k : Kind) (g : Target) (w : W)
      → query (stale_statement query t k g) (record { batch_size = none; marker = some t.marker }) w
        ≡ (return (some (stale k g w)), w)
  pub after_delete : Kind → Target → W → W
  pub deletes :
      (k : Kind) (g : Target) (w : W)
      → query
          (delete_statement query t k g)
          (record { batch_size = some t.batch_size; marker = some t.marker })
          w
        ≡ (return (some (min t.batch_size (stale k g w))), after_delete k g w)
  pub leaves :
      (k : Kind) (g : Target) (w : W)
      → stale k g (after_delete k g w) + min t.batch_size (stale k g w) ≤ stale k g w
  pub others : (k j : Kind) (g h : Target) (w : W) → stale j h (after_delete k g w) ≤ stale j h w
