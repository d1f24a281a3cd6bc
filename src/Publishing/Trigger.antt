-- ===== src/Publishing/Trigger.antt =====
-- What `trigger` of app/modules/publishing/service.py does, and when it is refused.
use datacraft_backend.Prelude.{
  ℕ, ◌+◌, ◌≤◌, ◌≡◌, ◌⊎◌, inl, inr, refl, ap, ◌∙◌, true, [], ◌∷◌, ◌++◌, some, arith, Table, lookup,
  add, update, length, nat_eq, string_eq, option_eq, ◌==◌, beq_refl, eq_of_beq, Bool-cases,
  Option-cases, UniqueKeys, length-update, length-append, keys, filter-update, filter-append,
  String, pair_eq,
}
use datacraft_backend.Core.Database.{Database}
use datacraft_backend.Core.Exceptions.{
  Error, app, multiple_results, publish_already_in_progress, staging_run_not_eligible,
  staging_run_not_found, target_type_not_supported,
}
use datacraft_backend.Core.Session.{Context, Result, ok, err, call}
use datacraft_backend.Core.Text.{Text}
use datacraft_backend.Models.Publishing.{PublishRun}
use datacraft_backend.Models.Staging.{StagingRun}
use datacraft_backend.Jobs.Sweep.{sweep_stale_jobs}
use datacraft_backend.Jobs.Swept.{sweep_outcome}
use datacraft_backend.Publishing.Service.{trigger_rows, is_eligible, existing_runs, new_publish_run}

module _ (c : Context) (id : ℕ) (target_type : String) (reference : Text) where
  abbrev pub triggers : Database → Result (ℕ × ℕ) × Database
  triggers db = call (trigger_rows c id target_type reference) db

  abbrev pub created_run : ℕ → PublishRun
  created_run job_id = record (new_publish_run c id reference) { job_id = some job_id }

  -- The staging run is ready and current, no run of it is under way or published, and a PENDING run
  -- is added with its job.
  pub record Triggered (db : Database) : Type 0 where
    pub staging_run : StagingRun
    pub known : lookup id db.staging_runs ≡ some staging_run
    pub eligible : is_eligible staging_run ≡ true
    pub supported : (target_type == "FILE_EXPORT") ≡ true
    pub none_existing : existing_runs id db.publish_runs ≡ []
    pub succeeded : (triggers db).0 ≡ ok (db.next_id, db.next_id + 1)
    pub runs_after :
        (triggers db).1.publish_runs
        ≡ update db.next_id
            (λ p. record p { job_id = some (db.next_id + 1) })
            (add db.next_id (new_publish_run c id reference) db.publish_runs)
    pub staging_after : (triggers db).1.staging_runs ≡ db.staging_runs

  -- An eligible staging run with a run under way or published is refused.
  pub trigger_refused :
      (db : Database) (r : StagingRun) (row : ℕ × PublishRun)
      → lookup id db.staging_runs ≡ some r
      → is_eligible r ≡ true
      → (target_type == "FILE_EXPORT") ≡ true
      → existing_runs id db.publish_runs ≡ row ∷ []
      → triggers db ≡ (err (app publish_already_in_progress), db)
  unfolding trigger_rows
  trigger_refused db r (k, p) known eligible supported one = ground arith

  module _ (db : Database) (r : StagingRun) (known : lookup id db.staging_runs ≡ some r)
      (eligible : is_eligible r ≡ true) (supported : (target_type == "FILE_EXPORT") ≡ true) where
    trigger_existing :
        (rows : Table PublishRun)
        → existing_runs id db.publish_runs ≡ rows
        → ((e : Error) × (triggers db ≡ (err e, db))) ⊎ Triggered db
    unfolding trigger_rows
    trigger_existing [] h = inr (record {
      staging_run = r;
      known = known;
      eligible = eligible;
      supported = supported;
      none_existing = h;
      succeeded = ground arith;
      runs_after = ground arith;
      staging_after = ground arith;
    })
    trigger_existing (row ∷ []) h =
        inl (app publish_already_in_progress, trigger_refused db r row known eligible supported h)
    trigger_existing (a ∷ b ∷ rows) h = inl (multiple_results, ground arith)

  pub trigger-cases : (db : Database) → ((e : Error) × (triggers db ≡ (err e, db))) ⊎ Triggered db
  unfolding trigger_rows
  trigger-cases db = elim (Option-cases (lookup id db.staging_runs)) [
    | inl e ↦ inl (app staging_run_not_found, ground (arith, e))
    | inr (r, known) ↦ elim (Bool-cases (is_eligible r)) [
      | inl eligible ↦ elim (Bool-cases (target_type == "FILE_EXPORT")) [
        | inl supported ↦
            trigger_existing db r known eligible supported (existing_runs id db.publish_runs) refl
        | inr e ↦ inl (app target_type_not_supported, ground (arith, known, eligible, e))
      ]
      | inr e ↦ inl (app staging_run_not_eligible, ground (arith, known, e))
    ]
  ]

  -- The runs of a staging run that are not failed, after a run was added for `id`.
  existing_after :
      (n : ℕ) (t : Table PublishRun) (other : ℕ)
      → existing_runs other (
          update n
            (λ p. record p { job_id = some (n + 1) })
            (add n (new_publish_run c id reference) t))
        ≡ update n
            (λ p. record p { job_id = some (n + 1) })
            (existing_runs other t
              ++ existing_runs other ((n, new_publish_run c id reference) ∷ []))
  existing_after n t other = rw filter-update (rw filter-append refl)

  -- Where every staging run has at most one publish run that is not failed, a trigger leaves it so,
  -- whether or not it raises.
  pub trigger_one :
      (db : Database)
      → ((other : ℕ) → length (existing_runs other db.publish_runs) ≤ 1)
      → (other : ℕ) → length (existing_runs other (triggers db).1.publish_runs) ≤ 1
  trigger_one db one other = elim (trigger-cases db) [
    | inl (e, same) ↦ ground (arith, same, one other)
    | inr t ↦
        rw (t.runs_after, existing_after, length-update, length-append)
          (elim (Bool-cases (id == other)) [
            | inl e ↦ let mine = eq_of_beq id other e in ground (arith, e, mine, t.none_existing)
            | inr e ↦ ground (arith, e, one other)
          ])
  ]

  -- A trigger that succeeds leaves the run that it answers as the one run of the staging run that is
  -- not failed, and the same trigger made next raises PublishAlreadyInProgressError.
  pub trigger_again :
      (db : Database) (run_id job_id : ℕ)
      → (triggers db).0 ≡ ok (run_id, job_id)
      → (existing_runs id (triggers db).1.publish_runs ≡ (run_id, created_run job_id) ∷ [])
        × (triggers (triggers db).1 ≡ (err (app publish_already_in_progress), (triggers db).1))
  trigger_again db run_id job_id done = elim (trigger-cases db) [
    | inl (e, same) ↦ absurd (ground (arith, same, done))
    | inr t ↦
        let ids : (run_id ≡ db.next_id) × (job_id ≡ db.next_id + 1) =
          ground (arith, done, t.succeeded) in
        let left : existing_runs id (triggers db).1.publish_runs
            ≡ (run_id, created_run job_id) ∷ [] =
          rw (t.runs_after, existing_after, t.none_existing)
            (ground (arith, ids.0, ids.1, beq_refl id, beq_refl db.next_id)) in
        (
          left,
          trigger_refused (triggers db).1 t.staging_run (run_id, created_run job_id)
              (ap (lookup id) t.staging_after ∙ t.known) t.eligible t.supported left,
        )
  ]

  -- Where no two jobs have one key, a publish run that is not failed before the stale-job sweep, the
  -- only one of its staging run, makes a trigger on the database that the sweep leaves, for the eligible
  -- staging run and FILE_EXPORT, raise PublishAlreadyInProgressError, whatever the sweep answers.
  pub sweep_keeps_refusing :
      (sweeper : Context) (minutes : ℕ) (message : String) (db : Database) (row : ℕ × PublishRun)
      (r : StagingRun)
      → UniqueKeys db.jobs
      → existing_runs id db.publish_runs ≡ row ∷ []
      → (target_type == "FILE_EXPORT") ≡ true
      → let (_, db') = call (sweep_stale_jobs sweeper minutes message) db in
        lookup id db'.staging_runs ≡ some r
        → is_eligible r ≡ true
        → triggers db' ≡ (err (app publish_already_in_progress), db')
  sweep_keeps_refusing sweeper minutes message db row r keys one supported known eligible =
      let db' = (call (sweep_stale_jobs sweeper minutes message) db).1 in
      let kept : db'.publish_runs ≡ db.publish_runs =
        elim (sweep_outcome sweeper minutes message db keys) [
          | inl (e, same) ↦ ground (arith, same)
          | inr (after, same, _, _, _, runs) ↦ ground (arith, same, runs)
        ] in
      trigger_refused db' r row known eligible supported (ap (existing_runs id) kept ∙ one)
