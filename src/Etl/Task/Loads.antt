-- ===== src/Etl/Task/Loads.antt =====
-- What `DefaultTask.run` loads when nothing raises.
use mathlib.Core.List.{append-nil, append_assoc}
use native.Mathlib.Nat.{add_assoc, add-zero, zero-add}
use amundsen_fork.Prelude.{
  ℕ, zero, suc, ◌+◌, ◌<◌, ◌==◌, ◌≡◌, refl, false, ap, ◌∙◌, true, Option, none, some, List, [], ◌∷◌,
  ◌++◌, arith, length, length-append, if◌then◌else◌, Bool-cases, inl, inr, All,
}
use amundsen_fork.Prelude.Effects.{Result, return, raise, and_then}
use amundsen_fork.Etl.Closer
use amundsen_fork.Etl.Closer.{call_all, register, registered}
use amundsen_fork.Etl.Transformer.{single, iterator}
use amundsen_fork.Etl.Task.{
  load_results, report, after_transform, round, loop, extract_all, run, close_after,
}
use amundsen_fork.Etl.Task.Memory.{
  Part, extractor, transformer, loader, close, close_part, Memory, Plan, fail, one, many, Parts,
  given, iter_of, output_of, stages, extract_from,
}
use amundsen_fork.Etl.Task.Ends.{fetch}

module _ {E R : Type 0} (p : Parts E R) where
  -- The values that are true, in order.
  kept : List R → List R
  kept [] = []
  kept (r ∷ rs) = let rest = kept rs in if p.truthy r then r ∷ rest else rest

  produced : Plan E R → List R
  unfolding kept
  produced (fail e) = []
  produced (one r) = kept (r ∷ [])
  produced (many rs end) = kept rs

  pub all_produced : List R → List R
  unfolding produced
  all_produced [] = []
  all_produced (r ∷ rs) = produced (p.plan r) ++ all_produced rs

  abbrev pub NoFail : Plan E R → Type 0
  NoFail (fail e) = ⊥
  NoFail (one r) = Unit
  NoFail (many rs end) = end ≡ none

  module _ (no_load_error : (r : R) → p.load_error r ≡ none)
      (no_extract_error : (r : R) → p.extract_error r ≡ none) (no_end_error : p.end_error ≡ none)
      (nonzero : p.progress_report_frequency == 0 ≡ false) where
    report-eq : (count : ℕ) (m : Memory R) → report (stages p) count m ≡ (return tt, m)
    unfolding report stages
    report-eq count m = ground (arith, nonzero)

    fetch-next :
        (r : R) (rs : List R) (count : ℕ) (loaded : List R) (closed : List Part)
        → fetch p count (record { pending = r ∷ rs; loaded = loaded; closed = closed })
          ≡ (return (r, count), record { pending = rs; loaded = loaded; closed = closed })
    unfolding extract_from
    fetch-next r rs count loaded closed = rw (no_extract_error r) refl

    fetch_end :
        (count : ℕ) (loaded : List R) (closed : List Part)
        → fetch p count (record { pending = []; loaded = loaded; closed = closed })
          ≡ (return (p.nothing, count), record { pending = []; loaded = loaded; closed = closed })
    unfolding extract_from
    fetch_end count loaded closed = rw no_end_error refl

    load_results-kept :
        (rs : List R) (count : ℕ) (m : Memory R)
        → load_results (stages p) (iter_of rs none) count m
          ≡ (return (count + length (kept rs)), record m { loaded = m.loaded ++ kept rs })
    unfolding load_results iter_of stages kept
    load_results-kept [] count m = rw (append-nil, add-zero)
    load_results-kept (r ∷ rs) count m =
        let m' : Memory R = record m { loaded = m.loaded ++ r ∷ [] } in
        ground (
          arith,
          no_load_error r,
          load_results-kept rs count m,
          load_results-kept rs (count + 1) m',
          append_assoc m.loaded (r ∷ []) (kept rs),
        )

    one-eq :
        (r : R) (count : ℕ) (m : Memory R)
        → after_transform (stages p) (single r) count m
          ≡ fetch p
              (count + length (kept (r ∷ [])))
              (record m { loaded = m.loaded ++ kept (r ∷ []) })
    unfolding after_transform stages kept
    one-eq r count m = elim (Bool-cases (p.truthy r)) [
      | inl t ↦
          rw (t, no_load_error r, report-eq (count + 1) (record m { loaded = m.loaded ++ r ∷ [] }))
            refl
      | inr f ↦ rw (f, append-nil, add-zero) refl
    ]

    many-eq :
        (rs : List R) (count : ℕ) (m : Memory R)
        → after_transform (stages p) (iterator (iter_of rs none)) count m
          ≡ fetch p (count + length (kept rs)) (record m { loaded = m.loaded ++ kept rs })
    unfolding after_transform
    many-eq rs count m =
        rw
          (
            load_results-kept rs count m,
            report-eq (count + length (kept rs)) (record m { loaded = m.loaded ++ kept rs }),
          )
          (unfold stages in refl)

    plan-eq :
        (plan : Plan E R) (count : ℕ) (m : Memory R)
        → NoFail plan
        → and_then (output_of plan) (λ out. after_transform (stages p) out count) m
          ≡ fetch p
              (count + length (produced plan))
              (record m { loaded = m.loaded ++ produced plan })
    unfolding produced
    plan-eq (fail e) count m h = absurd h
    plan-eq (one r) count m h = one-eq r count m
    plan-eq (many rs end) count m h = rw h (many-eq rs count m)

    abbrev continue : ℕ → Result E (R × ℕ) × Memory R → Option (Result E ℕ × Memory R)
    continue fuel q = elim q.0 [
      | raise e ↦ some (raise e, q.1)
      | return (fetched', count') ↦ loop (stages p) fuel fetched' count' q.1
    ]

    loop-step :
        (fuel : ℕ) (current : R) (count : ℕ) (m : Memory R)
        → p.truthy current ≡ true
        → NoFail (p.plan current)
        → loop (stages p) (suc fuel) current count m
          ≡ continue fuel (
              fetch p
                (count + length (produced (p.plan current)))
                (record m { loaded = m.loaded ++ produced (p.plan current) }))
    unfolding loop round stages
    loop-step fuel current count m t n =
        rw t (ap (continue fuel) (plan-eq (p.plan current) count m n))

    loop_end :
        (fuel count : ℕ) (m : Memory R)
        → loop (stages p) (suc fuel) p.nothing count m ≡ some (return count, m)
    unfolding loop stages
    loop_end fuel count m = rw (p.nothing_false)

    loop-loads :
        (rs : List R) (fuel : ℕ) (current : R) (count : ℕ) (loaded : List R) (closed : List Part)
        → p.truthy current ≡ true
        → NoFail (p.plan current)
        → All (λ r. (p.truthy r ≡ true) × NoFail (p.plan r)) rs
        → length rs + 1 < fuel
        → loop
            (stages p)
            fuel
            current
            count
            (record { pending = rs; loaded = loaded; closed = closed })
          ≡ some (
            return (count + length (all_produced (current ∷ rs))),
            record {
              pending = [];
              loaded = loaded ++ all_produced (current ∷ rs);
              closed = closed;
            },
          )
    unfolding all_produced extract_from
    loop-loads rs zero current count loaded closed t n h l = absurd (omega arith)
    loop-loads rs (suc zero) current count loaded closed t n h l = absurd (omega arith)
    loop-loads [] (suc (suc fuel)) current count loaded closed t n h l =
        let mine = produced (p.plan current) in
        loop-step (suc fuel) current count _ t n
        ∙ ap (continue (suc fuel)) (fetch_end (count + length mine) (loaded ++ mine) closed)
        ∙ loop_end fuel _ _
        ∙ rw append-nil
    loop-loads (r ∷ rs) (suc (suc fuel)) current count loaded closed t n h l =
        let mine = produced (p.plan current) in
        loop-step (suc fuel) current count _ t n
        ∙ ap (continue (suc fuel)) (fetch-next r rs (count + length mine) (loaded ++ mine) closed)
        ∙ loop-loads rs (suc fuel) r (count + length mine) (loaded ++ mine) closed h.0.0 h.0.1 h.1
            (omega arith)
        ∙ rw (
          append_assoc loaded mine (all_produced (r ∷ rs)),
          length-append mine (all_produced (r ∷ rs)),
          add_assoc count (length mine) (length (all_produced (r ∷ rs))),
        )

    -- What follows the first extraction.
    abbrev first : ℕ → Result E R × Memory R → Option (Result E ℕ × Memory R)
    first fuel q = elim q.0 [
      | raise e ↦ some (raise e, q.1)
      | return fetched ↦ loop (stages p) fuel fetched 0 q.1
    ]

    extract_all-loads :
        (rs : List R) (fuel : ℕ) (loaded : List R) (closed : List Part)
        → All (λ r. (p.truthy r ≡ true) × NoFail (p.plan r)) rs
        → length rs + 1 < fuel
        → extract_all (stages p) fuel (record { pending = rs; loaded = loaded; closed = closed })
          ≡ some (
            return (length (all_produced rs)),
            record { pending = []; loaded = loaded ++ all_produced rs; closed = closed },
          )
    unfolding extract_all stages extract_from all_produced
    extract_all-loads rs zero loaded closed h l = absurd (omega arith)
    extract_all-loads [] (suc fuel) loaded closed h l =
        ap
          (λ o.
            first (suc fuel)
              (given o p.nothing, record { pending = []; loaded = loaded; closed = closed }))
          no_end_error
        ∙ loop_end fuel 0 _
        ∙ rw append-nil
    extract_all-loads (r ∷ rs) (suc fuel) loaded closed h l =
        ap
          (λ o.
            first (suc fuel) (given o r, record { pending = rs; loaded = loaded; closed = closed }))
          (no_extract_error r)
        ∙ loop-loads rs (suc fuel) r 0 loaded closed h.0.0 h.0.1 h.1 (omega arith)
        ∙ rw zero-add

nonzero_test : (n : ℕ) → ¬ (n ≡ 0) → n == 0 ≡ false
nonzero_test n h = ground arith

-- Every pending record is true and has values planned for it, extracting, loading and closing return,
-- and the frequency of the progress report is not 0.
pub record NeverRaises (E R : Type 0) (p : Parts E R) (rs : List R) : Type 0 where
  pub planned : All (λ r. (p.truthy r ≡ true) × NoFail p (p.plan r)) rs
  pub loads : (r : R) → p.load_error r ≡ none
  pub extracts : (r : R) → p.extract_error r ≡ none
  pub ends : p.end_error ≡ none
  pub reports : ¬ (p.progress_report_frequency ≡ 0)
  pub closes : (part : Part) → p.close_error part ≡ none

close-returns :
    {E R : Type 0} (p : Parts E R) (m : Memory R)
    → ((part : Part) → p.close_error part ≡ none)
    → close p m
      ≡ (return tt, record m { closed = m.closed ++ loader ∷ transformer ∷ extractor ∷ [] })
unfolding close Closer.close call_all registered register close_part
close-returns p m h = rw (h loader, h transformer, h extractor) (simp append_assoc)

-- If no part raises, all pending records are true, and the frequency of the progress report is not
-- 0, then with fuel for two rounds more than there are pending records, the task loads exactly the
-- true values among what the transformer gives for the pending records, each once and in order,
-- behind what was loaded before; it reads all records and counts the loads.
pub run_loads :
    {E R : Type 0} (p : Parts E R) (fuel : ℕ) (m : Memory R)
    → NeverRaises E R p m.pending
    → length m.pending + 1 < fuel
    → run (stages p) (close p) fuel m
      ≡ some (
        return (length (all_produced p m.pending)),
        record m {
          pending = [];
          loaded = m.loaded ++ all_produced p m.pending;
          closed = m.closed ++ loader ∷ transformer ∷ extractor ∷ [];
        },
      )
unfolding run close_after
run_loads {E} {R} p fuel m n h =
    rw
      (extract_all-loads p n.loads n.extracts n.ends (nonzero_test _ n.reports) m.pending fuel
        m.loaded m.closed n.planned h)
      (rw (close-returns p _ n.closes))
