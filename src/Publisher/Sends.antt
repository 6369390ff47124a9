-- ===== src/Publisher/Sends.antt =====
-- What the statements of `Neo4jCsvPublisher` leave in a database that accepts them.
use mathlib.Core.List.{append-nil, append_assoc}
use amundsen_fork.Prelude.{
  ℕ, suc, ◌+◌, ◌≡◌, refl, ap, sym, ◌∙◌, ◌⊎◌, inl, inr, String, Bool, true, false, List, [], ◌∷◌,
  ◌++◌, length, length-append, All, string_eq, arith,
}
use amundsen_fork.Prelude.Effects.{return}
use amundsen_fork.Publisher.Statements.{Record, Statement}
use amundsen_fork.Publisher.Transactions.{
  Driver, Limits, Session, commit_and_begin, counted, attempt, execute_statement,
}
use amundsen_fork.Publisher.Publish.{Publisher, Publishing, then_do, for_each}

abbrev pub flat_map : {A B : Type 0} → (A → List B) → List A → List B
flat_map f [] = []
flat_map f (x ∷ xs) = f x ++ flat_map f xs

abbrev pub Sent : Type 0
Sent = List (Statement × Record)

-- What is relied on of a database that refuses nothing: a run, and a commit, need an open
-- transaction, a commit keeps the statements of the transaction and closes it, and a new one is empty.
pub record Accepting {W E : Type 0} (d : Driver W E) : Type 0 where
  pub committed : W → Sent
  pub pending : W → Sent
  pub after_begin : W → W
  pub begins : (w : W) → d.begin_transaction w ≡ (return tt, after_begin w)
  pub begins_open : (w : W) → d.tx_closed (after_begin w) ≡ false
  pub begins_empty : (w : W) → pending (after_begin w) ≡ []
  pub begins_committed : (w : W) → committed (after_begin w) ≡ committed w
  pub after_run : Statement → Record → W → W
  pub runs :
      (stmt : Statement) (params : Record) (w : W)
      → d.tx_closed w ≡ false
      → d.tx_run stmt params w ≡ (return true, after_run stmt params w)
  pub runs_open :
      (stmt : Statement) (params : Record) (w : W)
      → d.tx_closed w ≡ false
      → d.tx_closed (after_run stmt params w) ≡ false
  pub runs_pending :
      (stmt : Statement) (params : Record) (w : W)
      → pending (after_run stmt params w) ≡ pending w ++ (stmt, params) ∷ []
  pub runs_committed :
      (stmt : Statement) (params : Record) (w : W)
      → committed (after_run stmt params w) ≡ committed w
  pub after_commit : W → W
  pub commits : (w : W) → d.tx_closed w ≡ false → d.tx_commit w ≡ (return tt, after_commit w)
  pub commits_closed : (w : W) → d.tx_closed (after_commit w) ≡ true
  pub commits_pending : (w : W) → committed (after_commit w) ≡ committed w ++ pending w
  pub after_constraint : String → W → W
  pub constrains :
      (label : String) (w : W) → d.create_constraint label w ≡ (return tt, after_constraint label w)
  pub constrains_committed :
      (label : String) (w : W) → committed (after_constraint label w) ≡ committed w

-- The numbers that the count is divided by are not 0.
abbrev pub NonZero : Limits → Type 0
NonZero l = (¬ (l.transaction_size ≡ 0)) × (¬ (l.progress_report_frequency ≡ 0))

module _ {W E : Type 0} (p : Publisher W E) (a : Accepting p.driver) where
  abbrev pub sent_in : W → Sent
  sent_in w = a.committed w ++ a.pending w

  -- The action returns with its statements sent, in an open transaction.
  pub record Sends (f : Publishing p) (sent : Sent) (s : Session W) : Type 0 where
    pub end : Session W
    pub returns : f s ≡ (return tt, end)
    pub is_open : p.driver.tx_closed end.world ≡ false
    pub history : sent_in end.world ≡ sent_in s.world ++ sent
    pub counts : end.count ≡ s.count + length sent

  abbrev next : ℕ → W → Session W
  next n w = record { count = n; world = w }

  renewed : W → W
  renewed w = a.after_begin (a.after_commit w)

  commit_and_begin-eq :
      (n : ℕ) (w : W)
      → p.driver.tx_closed w ≡ false
      → commit_and_begin p.driver p.limits (next n w) ≡ (return tt, next n (renewed w))
  unfolding commit_and_begin renewed
  commit_and_begin-eq n w o = ground (arith, a.commits w o, a.begins (a.after_commit w))

  renewed-sent : (w : W) → sent_in (renewed w) ≡ sent_in w
  unfolding renewed
  renewed-sent w = ground (
    arith,
    a.begins_committed (a.after_commit w),
    a.begins_empty (a.after_commit w),
    a.commits_pending w,
    append-nil (a.committed w ++ a.pending w),
  )

  renewed-open : (w : W) → p.driver.tx_closed (renewed w) ≡ false
  unfolding renewed
  renewed-open w = a.begins_open (a.after_commit w)

  suc-count : (n : ℕ) → suc n ≡ n + 1
  suc-count n = omega arith

  counted-cases :
      (n : ℕ) (w : W)
      → NonZero p.limits
      → p.driver.tx_closed w ≡ false
      → (counted p.driver p.limits (next n w) ≡ (return tt, next (suc n) (renewed w)))
        ⊎ (counted p.driver p.limits (next n w) ≡ (return tt, next (suc n) w))
  unfolding counted
  counted-cases n w z o = ground (arith, z.0, z.1, commit_and_begin-eq (suc n) w o)

  abbrev pub one : Statement → Record → Sent
  one stmt params = (stmt, params) ∷ []

  run-history :
      (stmt : Statement) (params : Record) (w : W)
      → sent_in (a.after_run stmt params w) ≡ sent_in w ++ one stmt params
  run-history stmt params w = ground (
    arith,
    a.runs_committed stmt params w,
    a.runs_pending stmt params w,
    append_assoc (a.committed w) (a.pending w) (one stmt params),
  )

  execute-eq :
      (stmt : Statement) (params : Record) (b : Bool) (s v : Session W)
      → p.driver.tx_closed s.world ≡ false
      → counted p.driver p.limits (next s.count (a.after_run stmt params s.world)) ≡ (return tt, v)
      → execute_statement p.driver p.limits stmt params b s ≡ (return tt, v)
  unfolding execute_statement attempt
  execute-eq stmt params b s v o h = ground (arith, a.runs stmt params s.world o)

  pub execute-Sends :
      (stmt : Statement) (params : Record) (b : Bool) (s : Session W)
      → NonZero p.limits
      → p.driver.tx_closed s.world ≡ false
      → Sends (execute_statement p.driver p.limits stmt params b) (one stmt params) s
  execute-Sends stmt params b s z o =
      let w = a.after_run stmt params s.world in
      elim (counted-cases s.count w z (a.runs_open stmt params s.world o)) [
        | inl h ↦ record {
          end = next (suc s.count) (renewed w);
          returns = execute-eq stmt params b s (next (suc s.count) (renewed w)) o h;
          is_open = renewed-open w;
          history = renewed-sent w ∙ run-history stmt params s.world;
          counts = suc-count s.count;
        }
        | inr h ↦ record {
          end = next (suc s.count) w;
          returns = execute-eq stmt params b s (next (suc s.count) w) o h;
          is_open = a.runs_open stmt params s.world o;
          history = run-history stmt params s.world;
          counts = suc-count s.count;
        }
      ]

  pub then_do-eq :
      (f g : Publishing p) (s u v : Session W)
      → f s ≡ (return tt, u)
      → g u ≡ (return tt, v)
      → then_do p f g s ≡ (return tt, v)
  then_do-eq f g s u v h k = ground arith

  pub then_do-Sends :
      (f g : Publishing p) (xs ys : Sent) (s : Session W)
      → (h : Sends f xs s) → Sends g ys h.end
      → Sends (then_do p f g) (xs ++ ys) s
  then_do-Sends f g xs ys s h k = record {
    end = k.end;
    returns = then_do-eq f g s h.end k.end h.returns k.returns;
    is_open = k.is_open;
    history = k.history ∙ ap (λ q. q ++ ys) h.history ∙ append_assoc (sent_in s.world) xs ys;
    counts = omega (arith, h.counts, k.counts, length-append xs ys);
  }

  pub same-Sends :
      (f g : Publishing p) (sent : Sent) (s : Session W)
      → f s ≡ g s
      → Sends g sent s
      → Sends f sent s
  same-Sends f g sent s e h = record {
    end = h.end;
    returns = e ∙ h.returns;
    is_open = h.is_open;
    history = h.history;
    counts = h.counts;
  }

  pub nothing-Sends :
      (f : Publishing p) (s : Session W)
      → p.driver.tx_closed s.world ≡ false
      → f s ≡ (return tt, s)
      → Sends f [] s
  nothing-Sends f s o h = record {
    end = s;
    returns = h;
    is_open = o;
    history = sym (append-nil (sent_in s.world));
    counts = omega arith;
  }

  pub for_each-Sends :
      {A : Type 0} (P : A → Type 0) (f : A → Publishing p) (sent : A → Sent) (xs : List A)
      (s : Session W)
      → All P xs
      → ((x : A) (u : Session W)
          → P x
          → p.driver.tx_closed u.world ≡ false
          → Sends (f x) (sent x) u)
      → p.driver.tx_closed s.world ≡ false
      → Sends (for_each p f xs) (flat_map sent xs) s
  for_each-Sends P f sent [] s all h o = nothing-Sends (for_each p f []) s o refl
  for_each-Sends P f sent (x ∷ xs) s all h o =
      let first = h x s all.0 o in
      then_do-Sends (f x) (for_each p f xs) (sent x) (flat_map sent xs) s first
        (for_each-Sends P f sent xs first.end all.1 h first.is_open)
