-- ===== src/Mysql/Merged.antt =====
-- What a publication has merged, whichever calls raise.
use mathlib.Core.List.{append_assoc, append-nil}
use amundsen_fork.Prelude.{
  ℕ, ◌+◌, ◌%◌, ◌==◌, ltb, ◌&&◌, String, Bool-cases, inl, inr, ◌≡◌, refl, sym, ap, ◌∙◌, List, [],
  ◌∷◌, ◌++◌, string_eq,
}
use amundsen_fork.Prelude.Effects.{Result, return, raise, Action, ◌>>=◌, Result-cases, raise_return}
use amundsen_fork.Mysql.Publish.{
  Failure, Session, MySqlCsvPublisher, report_progress, commit_transaction, execute, publish_rows,
}

-- The merges that a session has made, in order. A merge that raises is none.
pub record Log {W R E : Type 0} (s : Session W R E) : Type 0 where
  pub merged : W → List R
  pub merge_merges :
      (r : R) (tag : String) (ms : ℕ) (w : W)
      → (s.merge r tag ms w).0 ≡ return tt
      → merged (s.merge r tag ms w).1 ≡ merged w ++ r ∷ []
  pub merge_raises :
      (r : R) (tag : String) (ms : ℕ) (e : Failure E) (w : W)
      → (s.merge r tag ms w).0 ≡ raise e
      → merged (s.merge r tag ms w).1 ≡ merged w
  pub commit_keeps : (w : W) → merged (s.commit w).1 ≡ merged w
  pub rollback_keeps : (w : W) → merged (s.rollback w).1 ≡ merged w
  pub close_keeps : (w : W) → merged (s.close w).1 ≡ merged w

module _ {W R E : Type 0} (s : Session W R E) (p : MySqlCsvPublisher) (log : Log s) where
  -- The first rows are merged, all of them after a return.
  pub record Merged (rows : List R) (w : W) (out : Result (Failure E) ℕ × W) : Type 0 where
    pub done : List R
    pub left : List R
    pub parts : done ++ left ≡ rows
    pub in_log : log.merged out.1 ≡ log.merged w ++ done
    pub complete : (n : ℕ) → out.0 ≡ return n → left ≡ []

  abbrev pub Keeps : {A : Type 0} → Action W (Failure E) A → Type 0
  Keeps act = (w : W) → log.merged (act w).1 ≡ log.merged w

  report_progress-Keeps : (count : ℕ) → Keeps (report_progress s p count)
  unfolding report_progress
  report_progress-Keeps count w =
      elim (Bool-cases (ltb 1 count && p.progress_report_frequency == 0)) [
        | inl e ↦ rw e refl
        | inr e ↦ rw e refl
      ]

  pub then-Keeps :
      {A B : Type 0} (first : Action W (Failure E) A) (next : A → Action W (Failure E) B)
      → Keeps first
      → ((a : A) → Keeps (next a))
      → Keeps (first >>= next)
  then-Keeps first next f g w = elim (Result-cases (first w).0) [
    | inl (a, e) ↦ rw e (g a (first w).1 ∙ f w)
    | inr (x, e) ↦ rw e (f w)
  ]

  execute-Keeps : (count : ℕ) → Keeps (execute s p count)
  unfolding execute commit_transaction
  execute-Keeps count w = elim (Bool-cases (ltb 1 (count + 1))) [
    | inr n ↦ rw n (report_progress-Keeps (count + 1) w)
    | inl n ↦ rw n (elim (Bool-cases (p.transaction_size == 0)) [
      | inl z ↦ rw z refl
      | inr z ↦ rw z (elim (Bool-cases ((count + 1) % p.transaction_size == 0)) [
        | inr c ↦ rw c (report_progress-Keeps (count + 1) w)
        | inl c ↦ rw c (
            then-Keeps s.commit (λ _. report_progress s p (count + 1)) log.commit_keeps
              (λ _. report_progress-Keeps (count + 1)) w)
      ])
    ])
  ]

  pub nothing : (rows : List R) (w : W) (e : Failure E) → Merged rows w (raise e, w)
  nothing rows w e = record {
    done = [];
    left = rows;
    parts = refl;
    in_log = sym (append-nil (log.merged w));
    complete = λ n q. absurd (raise_return q);
  }

  pub publish_rows-Merged :
      (rows : List R) (count : ℕ) (w : W) → Merged rows w (publish_rows s p rows count w)
  unfolding publish_rows
  publish_rows-Merged [] count w = record {
    done = [];
    left = [];
    parts = refl;
    in_log = sym (append-nil (log.merged w));
    complete = λ n q. refl;
  }
  publish_rows-Merged (r ∷ rows) count w =
      let m = s.merge r p.publish_tag (s.time_ms w) in
      let v = (m w).1 in
      elim (Result-cases (m w).0) [
        | inr (e, h) ↦ rw h (record {
          done = [];
          left = r ∷ rows;
          parts = refl;
          in_log =
              log.merge_raises r p.publish_tag (s.time_ms w) e w h
              ∙ sym (append-nil (log.merged w));
          complete = λ n q. absurd (raise_return q);
        })
        | inl (u, h) ↦
            let now : log.merged v ≡ log.merged w ++ r ∷ [] =
              log.merge_merges r p.publish_tag (s.time_ms w) w h in
            let kept = execute-Keeps count v in
            rw h (elim (Result-cases (execute s p count v).0) [
              | inr (e, k) ↦ rw k (record {
                done = r ∷ [];
                left = rows;
                parts = refl;
                in_log = kept ∙ now;
                complete = λ n q. absurd (raise_return q);
              })
              | inl (c, k) ↦
                  let rest = publish_rows-Merged rows c (execute s p count v).1 in
                  rw k (record {
                    done = r ∷ rest.done;
                    left = rest.left;
                    parts = ap (λ t. r ∷ t) rest.parts;
                    in_log =
                        rest.in_log
                        ∙ (ap (λ t. t ++ rest.done) (kept ∙ now)
                            ∙ append_assoc (log.merged w) (r ∷ []) rest.done);
                    complete = rest.complete;
                  })
            ])
      ]
