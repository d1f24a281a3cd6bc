-- ===== src/Publishing/Started.antt =====
-- When `run_publish` goes on to the export, and what it has written by then.
use datacraft_backend.Prelude.{
  ℕ, ◌≡◌, ◌⊎◌, inl, inr, refl, Bool, true, false, not, ◌&&◌, some, arith, lookup, update, nat_eq,
  string_eq, option_eq, Bool-cases, Option-cases,
}
use datacraft_backend.Core.Database.{Database}
use datacraft_backend.Core.Exceptions.{app, attribute_error, job_not_found, Error}
use datacraft_backend.Core.Session.{Session, Context, Result, ok, err}
use datacraft_backend.Jobs.Cancel.{session_of}
use datacraft_backend.Models.Staging.{StagingRun}
use datacraft_backend.Models.Jobs.{Job}
use datacraft_backend.Models.Publishing.{PublishRun}
use datacraft_backend.Publishing.Runs.{
  resolved, blocked, is_job_resolved, is_run_resolved, snapshots_of, is_stop, start, actor_of,
  Outcome, Task, Start, stop, proceed, begun,
}

-- The run and its job are unresolved, its drift is acknowledged if there is any, and the run was
-- committed as PUBLISHING.
pub record Proceeds (c : Context) (job_id run_id : ℕ) (db : Database) (t : Task) (s : Session)
    : Type 0 where
  pub staging_run : StagingRun
  pub known : lookup run_id db.publish_runs ≡ some t.run
  pub unresolved : is_run_resolved t.run.status ≡ false
  pub staged : lookup t.run.staging_run_id db.staging_runs ≡ some staging_run
  pub gate : (staging_run.has_source_drift && not t.run.drift_acknowledged) ≡ false
  pub same_job : t.job_id ≡ job_id
  pub same_run : t.run_id ≡ run_id
  pub rows : t.rows ≡ snapshots_of t.run.staging_run_id db.staging_records
  pub committed : s.committed ≡ s.current
  pub runs_after : s.committed.publish_runs ≡ update run_id (begun c) db.publish_runs

-- What `start` gives: it raises, it stops, or it proceeds; the first two leave the session as it was.
abbrev pub Started : Context → ℕ → ℕ → Database → Result Start × Session → Type 0
Started c job_id run_id db outcome =
    ((e : Error) × (outcome ≡ (err e, session_of db)))
    ⊎ (((clears : Bool) × (o : Outcome) × (is_stop o ≡ true)
          × (outcome ≡ (ok (stop clears o), session_of db)))
        ⊎ ((t : Task) × (s : Session) × (outcome ≡ (ok (proceed t), s))
            × Proceeds c job_id run_id db t s))

module _ (c : Context) (job_id run_id : ℕ) (db : Database) where
  start_found :
      (j : Job) (p : PublishRun) (r : StagingRun)
      → lookup job_id db.jobs ≡ some j
      → lookup run_id db.publish_runs ≡ some p
      → is_job_resolved j.status ≡ false
      → is_run_resolved p.status ≡ false
      → lookup p.staging_run_id db.staging_runs ≡ some r
      → Started c job_id run_id db (start c job_id run_id (session_of db))
  unfolding start
  start_found j p r job known open_job open_run staged =
      elim (Bool-cases (r.has_source_drift && not p.drift_acknowledged)) [
        | inl gate ↦ inr (inl (false, blocked, refl, ground (arith, gate)))
        | inr gate ↦
            let t : Task = record {
              job_id = job_id;
              run_id = run_id;
              run = p;
              actor = actor_of j.created_by db;
              rows = snapshots_of p.staging_run_id db.staging_records;
            } in
            inr (
              inr (
                t,
                (start c job_id run_id (session_of db)).1,
                ground (arith, gate),
                record {
                  staging_run = r;
                  known = known;
                  unresolved = open_run;
                  staged = staged;
                  gate = gate;
                  same_job = refl;
                  same_run = refl;
                  rows = refl;
                  committed = ground (arith, gate);
                  runs_after = ground (arith, gate);
                },
              ))
      ]

  pub start-cases : Started c job_id run_id db (start c job_id run_id (session_of db))
  unfolding start
  start-cases = elim (Option-cases (lookup job_id db.jobs)) [
    | inl e ↦ inl (app job_not_found, ground (arith, e))
    | inr (j, job) ↦ elim (Option-cases (lookup run_id db.publish_runs)) [
      | inl e ↦ inr (inl (false, resolved j.status, refl, ground (arith, job, e)))
      | inr (p, known) ↦ elim (Bool-cases (is_job_resolved j.status)) [
        | inl e ↦ inr (inl (true, resolved j.status, refl, ground (arith, job, known, e)))
        | inr open_job ↦ elim (Bool-cases (is_run_resolved p.status)) [
          | inl e ↦
              inr (inl (true, resolved j.status, refl, ground (arith, job, known, open_job, e)))
          | inr open_run ↦ elim (Option-cases (lookup p.staging_run_id db.staging_runs)) [
            | inl e ↦ inl (attribute_error, ground (arith, job, known, open_job, open_run, e))
            | inr (r, staged) ↦ start_found j p r job known open_job open_run staged
          ]
        ]
      ]
    ]
  ]
