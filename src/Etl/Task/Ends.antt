-- ===== src/Etl/Task/Ends.antt =====
-- `DefaultTask.run` ends, and closes its parts, whatever they do.
use mathlib.Core.Bool.{false≢true}
use mathlib.Core.Option
use mathlib.Core.List.{append_assoc}
use amundsen_fork.Prelude.{
  ℕ, zero, suc, ◌+◌, ◌<◌, ltb, ◌==◌, ◌&&◌, ◌≡◌, refl, ap, sym, ◌∙◌, Bool, true, false, ◌⊎◌, Option,
  none, some, List, [], ◌∷◌, ◌++◌, arith, length, if◌then◌else◌, Bool-cases, inl, inr,
}
use amundsen_fork.Prelude.Effects.{Result, return, raise, and_then, pure}
use amundsen_fork.Etl.Closer
use amundsen_fork.Etl.Closer.{call_all, register, registered}
use amundsen_fork.Etl.Task.{
  load_results, report, after_transform, round, loop, extract_all, close_after, run,
}
use amundsen_fork.Etl.Task.Memory.{
  extractor, transformer, loader, Memory, Plan, fail, one, many, Parts, given, iter_of, output_of,
  stages, extract_from, close, close_part, load_one,
}

module _ {E R : Type 0} (p : Parts E R) where
  -- Loading leaves the pending records and the log of closings alone.
  abbrev Frame : Memory R → Memory R → Type 0
  Frame m m' = (m'.pending ≡ m.pending) × (m'.closed ≡ m.closed)

  load_results-Frame :
      (rs : List R) (end : Option E) (count : ℕ) (m : Memory R)
      → Frame m (load_results (stages p) (iter_of rs end) count m).1
  unfolding load_results iter_of stages
  load_results-Frame [] none count m = (refl, refl)
  load_results-Frame [] (some e) count m = (refl, refl)
  load_results-Frame (r ∷ rs) end count m =
      let skipped = load_results-Frame rs end count m in
      let next = load_results-Frame rs end (count + 1) (record m { loaded = m.loaded ++ r ∷ [] }) in
      ground (arith, skipped.0, skipped.1, next.0, next.1)

  -- A round keeps the log of closings; if it gives a next record, that is the end of the input or
  -- has been taken from the pending ones.
  abbrev Goes : Memory R → Result E (R × ℕ) × Memory R → Type 0
  Goes m (raise e, m') = m'.closed ≡ m.closed
  Goes m (return (next, count), m') =
      (m'.closed ≡ m.closed) × ((next ≡ p.nothing) ⊎ (length m'.pending < length m.pending))

  abbrev pub fetch : ℕ → Memory R → Result E (R × ℕ) × Memory R
  fetch count m =
      and_then (extract_from p m.pending m).0 (λ fetched. pure (fetched, count))
        (extract_from p m.pending m).1

  given-Goes :
      (o : Option E) (r : R) (count : ℕ) (m m' : Memory R)
      → m'.closed ≡ m.closed
      → (r ≡ p.nothing) ⊎ (length m'.pending < length m.pending)
      → Goes m (and_then (given o r) (λ fetched. pure (fetched, count)) m')
  given-Goes none r count m m' c h = (c, h)
  given-Goes (some e) r count m m' c h = c

  fetch-Goes :
      (rs : List R) (count : ℕ) (m m' : Memory R)
      → length rs ≡ length m.pending
      → m'.closed ≡ m.closed
      → Goes m (
          and_then
            (extract_from p rs m').0
            (λ fetched. pure (fetched, count))
            (extract_from p rs m').1)
  unfolding extract_from
  fetch-Goes [] count m m' e c = given-Goes p.end_error p.nothing count m m' c (inl refl)
  fetch-Goes (r ∷ rs) count m m' e c =
      given-Goes (p.extract_error r) r count m (record m' { pending = rs }) c (inr (omega arith))

  -- The test for the report, and the next record.
  abbrev pub prepare : ℕ → Memory R → Result E (R × ℕ) × Memory R
  prepare count m =
      and_then (report (stages p) count m).0 (λ _. fetch count) (report (stages p) count m).1

  report-cases :
      (count : ℕ) (m : Memory R)
      → (report (stages p) count m ≡ (return tt, m))
        ⊎ (report (stages p) count m ≡ (raise p.zero_division, m))
  unfolding report stages
  report-cases count m = elim (Bool-cases (ltb 0 count && p.progress_report_frequency == 0)) [
    | inl h ↦ inr (rw h refl)
    | inr h ↦ inl (rw h refl)
  ]

  prepare-Goes :
      (count : ℕ) (m m' : Memory R)
      → length m'.pending ≡ length m.pending
      → m'.closed ≡ m.closed
      → Goes m (prepare count m')
  prepare-Goes count m m' e c = elim (report-cases count m') [
    | inl h ↦ rw h (fetch-Goes m'.pending count m m' e c)
    | inr h ↦ rw h c
  ]

  loaded-Goes :
      (m : Memory R) (q : Result E ℕ × Memory R)
      → Frame m q.1
      → Goes m (and_then q.0 (λ count'. prepare count') q.1)
  loaded-Goes m (raise e, m') f = f.1
  loaded-Goes m (return count, m') f = prepare-Goes count m m' (ap length f.0) f.1

  one-Goes :
      (r : R) (count : ℕ) (m : Memory R) (o : Option E) (b : Bool)
      → Goes m (
          if b
          then (and_then (load_one p o r m).0 (λ _. prepare (count + 1)) (load_one p o r m).1)
          else fetch count m)
  one-Goes r count m o false = fetch-Goes m.pending count m m refl refl
  one-Goes r count m none true =
      prepare-Goes (count + 1) m (record m { loaded = m.loaded ++ r ∷ [] }) refl refl
  one-Goes r count m (some e) true = refl

  plan-Goes :
      (plan : Plan E R) (count : ℕ) (m : Memory R)
      → Goes m (and_then (output_of plan) (λ out. after_transform (stages p) out count) m)
  unfolding after_transform stages
  plan-Goes (fail e) count m = refl
  plan-Goes (one r) count m = one-Goes r count m (p.load_error r) (p.truthy r)
  plan-Goes (many rs end) count m =
      loaded-Goes m (load_results (stages p) (iter_of rs end) count m)
        (load_results-Frame rs end count m)

  -- The loop ends if its record is false, or with enough fuel for the pending records.
  abbrev Enough : ℕ → R → Memory R → Type 0
  Enough fuel current m = (p.truthy current ≡ false) × (0 < fuel) ⊎ (length m.pending + 1 < fuel)

  abbrev Ends : Memory R → Option (Result E ℕ × Memory R) → Type 0
  Ends m o = (q : Result E ℕ × Memory R) × (o ≡ some q) × (q.1.closed ≡ m.closed)

  continue-Ends :
      (fuel : ℕ) (m : Memory R) (q : Result E (R × ℕ) × Memory R)
      → Goes m q
      → length m.pending + 1 < suc fuel
      → ((current : R) (count : ℕ) (m' : Memory R)
          → Enough fuel current m'
          → Ends m' (loop (stages p) fuel current count m'))
      → Ends m (elim q.0 [
        | raise e ↦ some (raise e, q.1)
        | return (fetched', count') ↦ loop (stages p) fuel fetched' count' q.1
      ])
  continue-Ends fuel m (raise e, m') g h rec = ((raise e, m'), refl, g)
  continue-Ends fuel m (return (next, count), m') g h rec =
      let enough : Enough fuel next m' = elim g.1 [
        | inl e ↦ inl (rw e p.nothing_false, omega arith)
        | inr l ↦ inr (omega arith)
      ] in
      let (q, run, kept) = rec next count m' enough in (q, run, kept ∙ g.0)

  loop-Ends :
      (fuel : ℕ) (current : R) (count : ℕ) (m : Memory R)
      → Enough fuel current m
      → Ends m (loop (stages p) fuel current count m)
  unfolding loop stages round
  loop-Ends zero current count m h = absurd (omega arith)
  loop-Ends (suc fuel) current count m h = elim (Bool-cases (p.truthy current)) [
    | inl t ↦ rw t (
        continue-Ends fuel m (round (stages p) current count m) (plan-Goes (p.plan current) count m)
          (elim h [ inl n ↦ absurd (false≢true (sym n.0 ∙ t)) | inr l ↦ l ]) (loop-Ends fuel))
    | inr f ↦ ((return count, m), rw f, refl)
  ]

  extract_all-Ends :
      (fuel : ℕ) (m : Memory R)
      → length m.pending + 1 < fuel
      → Ends m (extract_all (stages p) fuel m)
  unfolding extract_all stages extract_from
  extract_all-Ends fuel m h = first m.pending refl
    where
      begin :
          (o : Option E) (r : R) (m' : Memory R)
          → m'.closed ≡ m.closed
          → Enough fuel r m'
          → Ends m (elim (given o r) [
            | raise e ↦ some (raise e, m')
            | return fetched ↦ loop (stages p) fuel fetched 0 m'
          ])
      begin none r m' c n = let (q, run, kept) = loop-Ends fuel r 0 m' n in (q, run, kept ∙ c)
      begin (some e) r m' c n = ((raise e, m'), refl, c)

      first :
          (rs : List R)
          → rs ≡ m.pending
          → Ends m (elim (extract_from p rs m).0 [
            | raise e ↦ some (raise e, (extract_from p rs m).1)
            | return fetched ↦ loop (stages p) fuel fetched 0 (extract_from p rs m).1
          ])
      first [] e = begin p.end_error p.nothing m refl (inl (p.nothing_false, omega arith))
      first (r ∷ rs) e =
          begin (p.extract_error r) r (record m { pending = rs }) refl
            (inr (omega (arith, ap length e)))

  close-closed :
      (m : Memory R) → (close p m).1.closed ≡ m.closed ++ loader ∷ transformer ∷ extractor ∷ []
  unfolding close Closer.close call_all registered register close_part
  close-closed m = simp append_assoc

  close_after-closed :
      (q : Result E ℕ × Memory R)
      → (close_after (close p) q).1.closed ≡ q.1.closed ++ loader ∷ transformer ∷ extractor ∷ []
  unfolding close_after
  close_after-closed (r, m) = close-closed m

-- With fuel for two rounds more than there are pending records, the task ends, with a result or an
-- exception, whatever the transformer gives or raises, whichever extractions, loads and closings
-- raise, also where the progress report divides by 0; and then the loader, the transformer and the
-- extractor have each been closed once, in this order.
pub run_closes :
    {E R : Type 0} (p : Parts E R) (fuel : ℕ) (m : Memory R)
    → length m.pending + 1 < fuel
    → (q : Result E ℕ × Memory R) × (run (stages p) (close p) fuel m ≡ some q)
      × (q.1.closed ≡ m.closed ++ loader ∷ transformer ∷ extractor ∷ [])
unfolding run
run_closes p fuel m h =
    let (q, ends, kept) = extract_all-Ends p fuel m h in
    (
      close_after (close p) q,
      ap (Option.map (close_after (close p))) ends,
      close_after-closed p q ∙ ap (λ l. l ++ loader ∷ transformer ∷ extractor ∷ []) kept,
    )
