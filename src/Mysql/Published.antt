-- ===== src/Mysql/Published.antt =====
-- What the publication of all files has merged, whichever calls raise.
use mathlib.Core.List.{append_assoc, append-nil}
use amundsen_fork.Prelude.{
  ℕ, String, Bool-cases, inl, inr, ◌≡◌, refl, sym, ap, ◌∙◌, List, [], ◌∷◌, ◌++◌, contains,
  string_eq,
}
use amundsen_fork.Prelude.Effects.{
  Result, return, raise, Action, pure, finally, ◌>>=◌, ◌>>◌, Result-cases, raise_return,
}
use amundsen_fork.Mysql.Names.{get_table_name_from_file}
use amundsen_fork.Mysql.Files.{RecordFile}
use amundsen_fork.Mysql.Sorted.{rows_of}
use amundsen_fork.Mysql.Publish.{
  Failure, value_error, no_model, Session, MySqlCsvPublisher, publish_rows, publish_table,
  publish_file, publish_files, rolled_back, publish_or_roll_back, publish_impl,
}
use amundsen_fork.Mysql.Merged.{Log, Merged, Keeps, then-Keeps, nothing, publish_rows-Merged}

module _ {W R E : Type 0} (s : Session W R E) (p : MySqlCsvPublisher) (log : Log s) where
  -- After rows that are merged, a step that keeps the log.
  Merged-then :
      (rows : List R) (w : W) (first : Action W (Failure E) ℕ) (next : ℕ → Action W (Failure E) ℕ)
      → Merged s p log rows w (first w)
      → ((n : ℕ) → Keeps s p log (next n))
      → Merged s p log rows w ((first >>= next) w)
  Merged-then rows w first next m keeps = elim (Result-cases (first w).0) [
    | inr (e, h) ↦ rw h (record {
      done = m.done;
      left = m.left;
      parts = m.parts;
      in_log = m.in_log;
      complete = λ n q. absurd (raise_return q);
    })
    | inl (c, h) ↦ rw h (record {
      done = m.done;
      left = m.left;
      parts = m.parts;
      in_log = keeps c (first w).1 ∙ m.in_log;
      complete = λ n q. m.complete c h;
    })
  ]

  publish_table-Merged :
      (table_name : String) (rows : List R) (count : ℕ) (w : W)
      → Merged s p log rows w (publish_table s p table_name rows count w)
  unfolding publish_table
  publish_table-Merged table_name rows count w = elim (Bool-cases (contains table_name p.models)) [
    | inr n ↦ rw n (nothing s p log rows w (no_model table_name))
    | inl c ↦ rw c (
        Merged-then rows w (publish_rows s p rows count) (λ counted. s.commit >> pure counted)
          (publish_rows-Merged s p log rows count w)
          (λ n. then-Keeps s p log s.commit (λ _. pure n) log.commit_keeps (λ _ v. refl)))
  ]

  publish_file-Merged :
      (named : Result String String) (rows : List R) (count : ℕ) (w : W)
      → Merged s p log rows w (publish_file s p named rows count w)
  unfolding publish_file
  publish_file-Merged (raise e) rows count w = nothing s p log rows w (value_error e)
  publish_file-Merged (return table_name) rows count w =
      publish_table-Merged table_name rows count w

  publish_files-Merged :
      (files : List (RecordFile R)) (count : ℕ) (w : W)
      → Merged s p log (rows_of files) w (publish_files s p files count w)
  unfolding publish_files
  publish_files-Merged [] count w = record {
    done = [];
    left = [];
    parts = refl;
    in_log = sym (append-nil (log.merged w));
    complete = λ n q. refl;
  }
  publish_files-Merged (f ∷ files) count w =
      let named = get_table_name_from_file f.name in
      let first = publish_file s p named f.rows count in
      let m = publish_file-Merged named f.rows count w in
      elim (Result-cases (first w).0) [
        | inr (e, h) ↦ rw h (record {
          done = m.done;
          left = m.left ++ rows_of files;
          parts =
              sym (append_assoc m.done m.left (rows_of files))
              ∙ ap (λ t. t ++ rows_of files) m.parts;
          in_log = m.in_log;
          complete = λ n q. absurd (raise_return q);
        })
        | inl (c, h) ↦
            let rest = publish_files-Merged files c (first w).1 in
            let all_done : m.done ≡ f.rows =
              sym (append-nil m.done) ∙ (ap (λ t. m.done ++ t) (sym (m.complete c h)) ∙ m.parts) in
            rw h (record {
              done = f.rows ++ rest.done;
              left = rest.left;
              parts = append_assoc f.rows rest.done rest.left ∙ ap (λ t. f.rows ++ t) rest.parts;
              in_log =
                  rest.in_log
                  ∙ (ap (λ t. t ++ rest.done) (m.in_log ∙ ap (λ t. log.merged w ++ t) all_done)
                      ∙ append_assoc (log.merged w) f.rows rest.done);
              complete = rest.complete;
            })
      ]

  rolled_back-Merged :
      (rows : List R) (w v : W) (r : Result (Failure E) ℕ)
      → Merged s p log rows w (r, v)
      → Merged s p log rows w (rolled_back s p r v)
  unfolding rolled_back
  rolled_back-Merged rows w v (return n) m = m
  rolled_back-Merged rows w v (raise e) m = elim (Result-cases (s.rollback v).0) [
    | inl (u, h) ↦ rw h (record {
      done = m.done;
      left = m.left;
      parts = m.parts;
      in_log = log.rollback_keeps v ∙ m.in_log;
      complete = λ n q. absurd (raise_return q);
    })
    | inr (x, h) ↦ rw h (record {
      done = m.done;
      left = m.left;
      parts = m.parts;
      in_log = log.rollback_keeps v ∙ m.in_log;
      complete = λ n q. absurd (raise_return q);
    })
  ]

  finally-Merged :
      (rows : List R) (w : W) (body : Action W (Failure E) ℕ)
      → Merged s p log rows w (body w)
      → Merged s p log rows w (finally body s.close w)
  finally-Merged rows w body m = elim (Result-cases (s.close (body w).1).0) [
    | inl (u, h) ↦
        rw (h, finally)
          (record {
            done = m.done;
            left = m.left;
            parts = m.parts;
            in_log = log.close_keeps (body w).1 ∙ m.in_log;
            complete = m.complete;
          })
    | inr (x, h) ↦
        rw (h, finally)
          (record {
            done = m.done;
            left = m.left;
            parts = m.parts;
            in_log = log.close_keeps (body w).1 ∙ m.in_log;
            complete = λ n q. absurd (raise_return q);
          })
  ]

  pub publish_impl-Merged :
      (files : List (RecordFile R)) (w : W)
      → Merged s p log (rows_of files) w (publish_impl s p files w)
  unfolding publish_impl publish_or_roll_back
  publish_impl-Merged files w =
      let out = publish_files s p files 0 w in
      finally-Merged (rows_of files) w (publish_or_roll_back s p files)
        (rolled_back-Merged (rows_of files) w out.1 out.0 (publish_files-Merged files 0 w))
