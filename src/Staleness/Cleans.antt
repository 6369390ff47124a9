-- ===== src/Staleness/Cleans.antt =====
-- Within the thresholds the task deletes all that is stale, and a dry run nothing.
use Prim.Native.Nat.{min}
use amundsen_fork.Prelude.{
  ℕ, zero, suc, ◌+◌, ◌<◌, ◌≤◌, ◌≡◌, refl, ◌∙◌, ◌⊎◌, inl, inr, true, false, some, List, [], ◌∷◌, All,
  All-mono, arith,
}
use amundsen_fork.Prelude.Effects.{return}
use amundsen_fork.Staleness.Setup.{Target, Task}
use amundsen_fork.Staleness.Statements.{Kind, nodes, relations}
use amundsen_fork.Staleness.Run.{
  Query, count_or_zero, execute_delete, delete_target, batch_delete, run,
}
use amundsen_fork.Staleness.Database.{Store}
use amundsen_fork.Staleness.Safety.{AnyStopped, full_verdict, validate-eq, full_verdict-passed}

module _ {W E : Type 0} (query : Query W E) (t : Task) (s : Store query t) where
  -- Nothing has become stale between the two worlds.
  abbrev NoneStaler : W → W → Type 0
  NoneStaler w v = (j : Kind) (h : Target) → s.stale j h v ≤ s.stale j h w

  staler_trans : {w v u : W} → NoneStaler w v → NoneStaler v u → NoneStaler w u
  staler_trans a b j h = let p = a j h in let q = b j h in omega arith

  delete_target_step :
      (fuel : ℕ) (k : Kind) (g : Target) (n : ℕ) (w : W)
      → t.dry_run ≡ false
      → 0 < t.batch_size
      → s.stale k g w ≡ 0
      → delete_target query t (suc fuel) k g n w ≡ some (return n, s.after_delete k g w)
  unfolding delete_target execute_delete count_or_zero
  delete_target_step fuel k g n w wet b z = ground (arith, s.deletes k g w)

  delete_target_round :
      (fuel : ℕ) (k : Kind) (g : Target) (n : ℕ) (w : W)
      → t.dry_run ≡ false
      → 0 < t.batch_size
      → 0 < s.stale k g w
      → delete_target query t (suc fuel) k g n w
        ≡ delete_target query t fuel k g
            (n + min t.batch_size (s.stale k g w))
            (s.after_delete k g w)
  unfolding delete_target execute_delete count_or_zero
  delete_target_round fuel k g n w wet b z = ground (arith, s.deletes k g w)

  no_fuel : (k : Kind) (g : Target) (w : W) → s.stale k g w < 0 → ⊥
  no_fuel k g w h = omega arith

  stale_cases : (k : Kind) (g : Target) (w : W) → (s.stale k g w ≡ 0) ⊎ (0 < s.stale k g w)
  stale_cases k g w = ground arith

  still_zero :
      (k j : Kind) (g h : Target) (w : W)
      → s.stale j h w ≡ 0
      → s.stale j h (s.after_delete k g w) ≡ 0
  still_zero k j g h w z = ground (arith, s.others k j g h w)

  fewer :
      (fuel : ℕ) (k : Kind) (g : Target) (w : W)
      → 0 < t.batch_size
      → 0 < s.stale k g w
      → s.stale k g w < suc fuel
      → s.stale k g (s.after_delete k g w) < fuel
  fewer fuel k g w b p f = ground (arith, s.leaves k g w)

  -- The loop for one target ends, and has deleted all that was stale.
  record Cleaned (fuel : ℕ) (k : Kind) (g : Target) (n : ℕ) (w : W) : Type 0 where
    count : ℕ
    end : W
    ends : delete_target query t fuel k g n w ≡ some (return count, end)
    clean : s.stale k g end ≡ 0
    none_staler : NoneStaler w end

  delete_target-cleans :
      (fuel : ℕ) (k : Kind) (g : Target) (n : ℕ) (w : W)
      → t.dry_run ≡ false
      → 0 < t.batch_size
      → s.stale k g w < fuel
      → Cleaned fuel k g n w
  delete_target-cleans zero k g n w wet b f = elim (no_fuel k g w f) [ ]
  delete_target-cleans (suc fuel) k g n w wet b f = elim (stale_cases k g w) [
    | inl z ↦ record {
      count = n;
      end = s.after_delete k g w;
      ends = delete_target_step fuel k g n w wet b z;
      clean = still_zero k k g g w z;
      none_staler = λ j h. s.others k j g h w;
    }
    | inr p ↦
        let m = min t.batch_size (s.stale k g w) in
        let rest =
          delete_target-cleans fuel k g (n + m) (s.after_delete k g w) wet b
            (fewer fuel k g w b p f) in
        record {
          count = rest.count;
          end = rest.end;
          ends = delete_target_round fuel k g n w wet b p ∙ rest.ends;
          clean = rest.clean;
          none_staler = staler_trans (λ j h. s.others k j g h w) rest.none_staler;
        }
  ]

  abbrev pub AllClean : Kind → W → List Target → Type 0
  AllClean k w gs = All (λ g. s.stale k g w ≡ 0) gs

  abbrev pub AllBelow : ℕ → Kind → W → List Target → Type 0
  AllBelow fuel k w gs = All (λ g. s.stale k g w < fuel) gs

  at_most : (n : ℕ) → n ≤ n
  at_most n = omega arith

  stays_zero : {a b : ℕ} → a ≤ b → b ≡ 0 → a ≡ 0
  stays_zero p q = omega arith

  stays_below : {a b c : ℕ} → a ≤ b → b < c → a < c
  stays_below p q = omega arith

  AllClean-later :
      (w v : W) (k : Kind) (gs : List Target) → NoneStaler w v → AllClean k w gs → AllClean k v gs
  AllClean-later w v k gs le = All-mono _ _ gs λ g z. stays_zero (le k g) z

  AllBelow-later :
      (w v : W) (k : Kind) (fuel : ℕ) (gs : List Target)
      → NoneStaler w v
      → AllBelow fuel k w gs
      → AllBelow fuel k v gs
  AllBelow-later w v k fuel gs le = All-mono _ _ gs λ g z. stays_below (le k g) z

  record BatchCleaned (fuel : ℕ) (k : Kind) (gs : List Target) (w : W) : Type 0 where
    end : W
    ends : batch_delete query t fuel k gs w ≡ some (return tt, end)
    clean : AllClean k end gs
    none_staler : NoneStaler w end

  batch_delete_step :
      (fuel : ℕ) (k : Kind) (g : Target) (gs : List Target) (w v : W) (n : ℕ)
      → delete_target query t fuel k g 0 w ≡ some (return n, v)
      → batch_delete query t fuel k (g ∷ gs) w ≡ batch_delete query t fuel k gs v
  unfolding batch_delete
  batch_delete_step fuel k g gs w v n h = ground arith

  batch_delete_nil :
      (fuel : ℕ) (k : Kind) (w : W) → batch_delete query t fuel k [] w ≡ some (return tt, w)
  unfolding batch_delete
  batch_delete_nil fuel k w = refl

  batch_delete-cleans :
      (fuel : ℕ) (k : Kind) (gs : List Target) (w : W)
      → t.dry_run ≡ false
      → 0 < t.batch_size
      → AllBelow fuel k w gs
      → BatchCleaned fuel k gs w
  batch_delete-cleans fuel k [] w wet b f = record {
    end = w;
    ends = batch_delete_nil fuel k w;
    clean = tt;
    none_staler = λ j h. at_most (s.stale j h w);
  }
  batch_delete-cleans fuel k (g ∷ gs) w wet b f =
      let one = delete_target-cleans fuel k g 0 w wet b f.0 in
      let rest =
        batch_delete-cleans fuel k gs one.end wet b
          (AllBelow-later w one.end k fuel gs one.none_staler f.1) in
      record {
        end = rest.end;
        ends = batch_delete_step fuel k g gs w one.end _ one.ends ∙ rest.ends;
        clean = (stays_zero (rest.none_staler k g) one.clean, rest.clean);
        none_staler = staler_trans one.none_staler rest.none_staler;
      }

  run_step :
      (fuel : ℕ) (w v u : W)
      → full_verdict query t s w ≡ return tt
      → batch_delete query t fuel nodes t.target_nodes w ≡ some (return tt, v)
      → batch_delete query t fuel relations t.target_relations v ≡ some (return tt, u)
      → run query t fuel w ≡ some (return tt, u)
  unfolding run
  run_step fuel w v u p q r = ground (arith, validate-eq query t s w)

  -- With a positive batch size, not in a dry run, no target stopped by the check, and more fuel than
  -- any target has stale records, the task returns, and then no target has a stale record.
  pub run_cleans :
      (fuel : ℕ) (w : W)
      → t.dry_run ≡ false
      → 0 < t.batch_size
      → ¬ AnyStopped query t s nodes w t.target_nodes
      → ¬ AnyStopped query t s relations w t.target_relations
      → AllBelow fuel nodes w t.target_nodes
      → AllBelow fuel relations w t.target_relations
      → (v : W) × (run query t fuel w ≡ some (return tt, v))
        × AllClean nodes v t.target_nodes
        × AllClean relations v t.target_relations
  run_cleans fuel w wet b n r fn fr =
      let first = batch_delete-cleans fuel nodes t.target_nodes w wet b fn in
      let second =
        batch_delete-cleans fuel relations t.target_relations first.end wet b
          (AllBelow-later w first.end relations fuel t.target_relations first.none_staler fr) in
      (
        second.end,
        run_step fuel w first.end second.end (full_verdict-passed query t s w n r) first.ends
            second.ends,
        AllClean-later first.end second.end nodes t.target_nodes second.none_staler first.clean,
        second.clean,
      )

  delete_target-dry :
      (fuel : ℕ) (k : Kind) (g : Target) (w : W)
      → t.dry_run ≡ true
      → delete_target query t (suc fuel) k g 0 w ≡ some (return 0, w)
  unfolding delete_target execute_delete count_or_zero
  delete_target-dry fuel k g w dry = ground arith

  batch_delete-dry :
      (fuel : ℕ) (k : Kind) (gs : List Target) (w : W)
      → t.dry_run ≡ true
      → batch_delete query t (suc fuel) k gs w ≡ some (return tt, w)
  batch_delete-dry fuel k [] w dry = batch_delete_nil (suc fuel) k w
  batch_delete-dry fuel k (g ∷ gs) w dry =
      batch_delete_step (suc fuel) k g gs w w 0 (delete_target-dry fuel k g w dry)
      ∙ batch_delete-dry fuel k gs w dry

  -- A dry run gives the result of the check and leaves the world as it was, with any positive fuel.
  pub run_dry :
      (fuel : ℕ) (w : W)
      → t.dry_run ≡ true
      → run query t (suc fuel) w ≡ some (full_verdict query t s w, w)
  unfolding run
  run_dry fuel w dry = ground (
    arith,
    validate-eq query t s w,
    batch_delete-dry fuel nodes t.target_nodes w dry,
    batch_delete-dry fuel relations t.target_relations w dry,
  )
