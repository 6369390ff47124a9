-- ===== src/Staleness/Safety.antt =====
-- A target over its threshold stops the task before anything is deleted.
use mathlib.Core.List.{mem-cons_self, mem-cons_of_mem}
use amundsen_fork.Prelude.{
  Mem, ℕ, ◌≡◌, refl, ◌∙◌, ◌⊎◌, inl, inr, Bool, true, false, some, List, [], ◌∷◌, Bool-cases, arith,
}
use amundsen_fork.Prelude.Effects.{Result, return, raise}
use amundsen_fork.Staleness.Setup.{Target, Task}
use amundsen_fork.Staleness.Statements.{Kind, nodes, relations, target_type}
use amundsen_fork.Staleness.Run.{
  Query, StalenessError, over_threshold, threshold, is_over, count_or_zero, validate_staleness_pct,
  validate_target, validate_targets, validate, run,
}
use amundsen_fork.Staleness.Database.{Store}

-- The result of the checks, as a function of the two counts of each target alone.
module _ {W E : Type 0} (query : Query W E) (t : Task) (s : Store query t) where
  abbrev pub is_stopped : Kind → W → Target → Bool
  is_stopped k w g = is_over (s.total k g w) (s.stale k g w) (threshold t (target_type g))

  verdict : Kind → W → List Target → Result (StalenessError E) (Unit {0})
  verdict k w [] = return tt
  verdict k w (g ∷ gs) =
      elim (validate_staleness_pct query t (s.total k g w) (s.stale k g w) (target_type g)) [
        | raise e ↦ raise e
        | return _ ↦ verdict k w gs
      ]

  validate_target-eq :
      (k : Kind) (g : Target) (w : W)
      → validate_target query t k g w
        ≡ (validate_staleness_pct query t (s.total k g w) (s.stale k g w) (target_type g), w)
  unfolding validate_target count_or_zero
  validate_target-eq k g w = ground (arith, s.reads_total k g w, s.reads_stale k g w)

  validate_targets-eq :
      (k : Kind) (gs : List Target) (w : W) → validate_targets query t k gs w ≡ (verdict k w gs, w)
  unfolding validate_targets verdict
  validate_targets-eq k [] w = refl
  validate_targets-eq k (g ∷ gs) w =
      ground (arith, validate_target-eq k g w, validate_targets-eq k gs w)

  pub full_verdict : W → Result (StalenessError E) (Unit {0})
  full_verdict w = elim (verdict nodes w t.target_nodes) [
    | raise e ↦ raise e
    | return _ ↦ verdict relations w t.target_relations
  ]

  pub validate-eq : (w : W) → validate query t w ≡ (full_verdict w, w)
  unfolding validate full_verdict
  validate-eq w = ground (
    arith,
    validate_targets-eq nodes t.target_nodes w,
    validate_targets-eq relations t.target_relations w,
  )

  abbrev pub AnyStopped : Kind → W → List Target → Type 0
  AnyStopped k w [] = ⊥
  AnyStopped k w (g ∷ gs) = (is_stopped k w g ≡ true) ⊎ AnyStopped k w gs

  abbrev pub targets : Kind → List Target
  targets nodes = t.target_nodes
  targets relations = t.target_relations

  -- The error of one of the task's targets that is over its threshold, with the target's own counts.
  pub record IsOverError (w : W) (r : Result (StalenessError E) (Unit {0})) : Type 0 where
    pub kind : Kind
    pub target : Target
    pub is_target : Mem target (targets kind)
    pub over : is_stopped kind w target ≡ true
    pub raised :
        r
        ≡ raise (
            over_threshold
              (target_type target)
              (s.stale kind target w)
              (s.total kind target w)
              (threshold t (target_type target)))

  verdict-over :
      (k : Kind) (w : W) (g : Target) (gs : List Target)
      → is_stopped k w g ≡ true
      → verdict k w (g ∷ gs)
        ≡ raise (
            over_threshold
              (target_type g)
              (s.stale k g w)
              (s.total k g w)
              (threshold t (target_type g)))
  unfolding verdict validate_staleness_pct
  verdict-over k w g gs h = ground arith

  verdict-within :
      (k : Kind) (w : W) (g : Target) (gs : List Target)
      → is_stopped k w g ≡ false
      → verdict k w (g ∷ gs) ≡ verdict k w gs
  unfolding verdict validate_staleness_pct
  verdict-within k w g gs h = ground arith

  full_verdict-raise :
      (w : W) {e : StalenessError E}
      → verdict nodes w t.target_nodes ≡ raise e
      → full_verdict w ≡ verdict nodes w t.target_nodes
  unfolding full_verdict
  full_verdict-raise w h = ground arith

  full_verdict-return :
      (w : W)
      → verdict nodes w t.target_nodes ≡ return tt
      → full_verdict w ≡ verdict relations w t.target_relations
  unfolding full_verdict
  full_verdict-return w h = ground arith

  absurd_bool : {b : Bool} → b ≡ false → b ≡ true → ⊥
  absurd_bool p q = ground arith

  later :
      (k : Kind) (w : W) (g : Target) (gs : List Target)
      → is_stopped k w g ≡ false
      → AnyStopped k w (g ∷ gs)
      → AnyStopped k w gs
  later k w g gs within (inl over) = elim (absurd_bool within over) [ ]
  later k w g gs within (inr h) = h

  clash :
      {r : Result (StalenessError E) (Unit {0})} {e : StalenessError E}
      → r ≡ return tt
      → r ≡ raise e
      → ⊥
  clash p q = ground arith

  moved :
      {w : W} {q r : Result (StalenessError E) (Unit {0})}
      → IsOverError w r
      → q ≡ r
      → IsOverError w q
  moved r eq = rw eq r

  verdict-stopped :
      (k : Kind) (w : W) (gs : List Target)
      → ((g : Target) → Mem g gs → Mem g (targets k))
      → AnyStopped k w gs
      → IsOverError w (verdict k w gs)
  verdict-stopped k w [] own h = elim h [ ]
  verdict-stopped k w (g ∷ gs) own h = elim (Bool-cases (is_stopped k w g)) [
    | inl over ↦ record {
      kind = k;
      target = g;
      is_target = own g mem-cons_self;
      over = over;
      raised = verdict-over k w g gs over;
    }
    | inr within ↦
        moved
          (verdict-stopped k w gs (λ x m. own x (mem-cons_of_mem g m)) (later k w g gs within h))
          (verdict-within k w g gs within)
  ]

  verdict-cases :
      (k : Kind) (w : W) (gs : List Target) → AnyStopped k w gs ⊎ (verdict k w gs ≡ return tt)
  unfolding verdict
  verdict-cases k w [] = inr refl
  verdict-cases k w (g ∷ gs) = elim (Bool-cases (is_stopped k w g)) [
    | inl over ↦ inl (inl over)
    | inr within ↦ elim (verdict-cases k w gs) [
      | inl h ↦ inl (inr h)
      | inr passed ↦ inr (verdict-within k w g gs within ∙ passed)
    ]
  ]

  pub full_verdict-passed :
      (w : W)
      → ¬ AnyStopped nodes w t.target_nodes
      → ¬ AnyStopped relations w t.target_relations
      → full_verdict w ≡ return tt
  full_verdict-passed w n r = elim (verdict-cases nodes w t.target_nodes) [
    | inl h ↦ elim (n h) [ ]
    | inr passed ↦ elim (verdict-cases relations w t.target_relations) [
      | inl h ↦ elim (r h) [ ]
      | inr passed' ↦ full_verdict-return w passed ∙ passed'
    ]
  ]

  full_verdict-stopped :
      (w : W)
      → AnyStopped nodes w t.target_nodes ⊎ AnyStopped relations w t.target_relations
      → IsOverError w (full_verdict w)
  full_verdict-stopped w h = elim (verdict-cases nodes w t.target_nodes) [
    | inl n ↦
        let over = verdict-stopped nodes w t.target_nodes (λ g m. m) n in
        moved over (full_verdict-raise w over.raised)
    | inr passed ↦ elim h [
      | inl n ↦ elim (clash passed (verdict-stopped nodes w t.target_nodes (λ g m. m) n).raised) [ ]
      | inr n ↦
          moved (verdict-stopped relations w t.target_relations (λ g m. m) n)
            (full_verdict-return w passed)
    ]
  ]

  -- If some target of the nodes or of the relations has a stale share at or over its threshold, the
  -- task ends, with any fuel, by raising the over-threshold error of such a target, with its two
  -- counts and its threshold, and the world is as it was: nothing was deleted.
  pub run_guard :
      (fuel : ℕ) (w : W)
      → AnyStopped nodes w t.target_nodes ⊎ AnyStopped relations w t.target_relations
      → (r : Result (StalenessError E) (Unit {0})) × IsOverError w r
        × (run query t fuel w ≡ some (r, w))
  unfolding run
  run_guard fuel w h =
      let over = full_verdict-stopped w h in
      (full_verdict w, over, ground (arith, validate-eq w, over.raised))
