-- ===== src/Jobs/Swept.antt =====
-- What `sweep_stale_jobs` leaves: which jobs it fails, what it does not touch, and that it is one
-- transaction.
use datacraft_backend.Prelude.{
  ℕ, ◌+◌, ◌*◌, ◌-◌, ◌<◌, ◌≡◌, ◌⊎◌, inl, inr, ◌↔◌, refl, ap, ◌∙◌, Bool, true, false, List, [], ◌∷◌,
  ◌++◌, Option, none, some, arith, Table, update, update_where, length, nat_eq, string_eq,
  option_eq, Bool-cases, UniqueKeys, length-append, keys, String, filter, suc, pair_eq, update_all,
  update_all-filter,
}
use datacraft_backend.Core.Database.{Database}
use datacraft_backend.Core.Exceptions.{Error}
use datacraft_backend.Models.Trail.{ActorType, MetaValue}
use datacraft_backend.Trail.Audit.{log_event, record_event}
use datacraft_backend.Core.Session.{Session, Result, ok, err, Context, call, one_or_none, ◌>>=◌}
use datacraft_backend.Models.Jobs.{JobStatus, JobType, Job, ProfileRun, is_running}
use datacraft_backend.Models.Validation.{ValidationRun, is_in_flight}
use datacraft_backend.Models.Publishing.{PublishRun, PublishStatus}
use datacraft_backend.Jobs.Service.{profile_runs_of, validation_runs_of}
use datacraft_backend.Jobs.Sweep.{
  is_stale, stale_before, stale, older, fail_profile_run, fail_validation_run, fail_publish_run,
  publish_runs_of, fail_linked_run, is_publish_in_flight, sweep_jobs, sweep_stale_jobs,
}

-- What the linked-run step of the loop leaves alone.
abbrev Kept : Session → Session → Type 0
Kept s s' =
    (s'.committed ≡ s.committed)
    × (s'.current.jobs ≡ s.current.jobs)
    × (s'.current.publish_runs ≡ s.current.publish_runs)
    × (s'.current.audit_events ≡ s.current.audit_events)

module _ (c : Context) (message : String) (s : Session) where
  Kept-profile_run :
      (rows : Table ProfileRun) → Kept s ((one_or_none rows >>= fail_profile_run c message) s).1
  Kept-profile_run [] = (refl, refl, refl, refl)
  Kept-profile_run ((k, r) ∷ []) = elim (Bool-cases (is_in_flight r.status)) [
    | inl q ↦ ground (arith, q)
    | inr q ↦ ground (arith, q)
  ]
  Kept-profile_run ((k, r) ∷ x ∷ rest) = (refl, refl, refl, refl)

  Kept-validation_run :
      (rows : Table ValidationRun)
      → Kept s ((one_or_none rows >>= fail_validation_run c message) s).1
  Kept-validation_run [] = (refl, refl, refl, refl)
  Kept-validation_run ((k, r) ∷ []) = elim (Bool-cases (is_in_flight r.status)) [
    | inl q ↦ ground (arith, q)
    | inr q ↦ ground (arith, q)
  ]
  Kept-validation_run ((k, r) ∷ x ∷ rest) = (refl, refl, refl, refl)

  never_in_flight : (status : PublishStatus) → is_publish_in_flight status ≡ false
  never_in_flight PublishStatus.pending = refl
  never_in_flight PublishStatus.publishing = refl
  never_in_flight PublishStatus.published = refl
  never_in_flight PublishStatus.failed = refl

  Kept-publish_run :
      (rows : Table PublishRun) → Kept s ((one_or_none rows >>= fail_publish_run c message) s).1
  Kept-publish_run [] = (refl, refl, refl, refl)
  Kept-publish_run ((k, r) ∷ []) = rw (never_in_flight r.status) (refl, refl, refl, refl)
  Kept-publish_run ((k, r) ∷ x ∷ rest) = (refl, refl, refl, refl)

  Kept-linked_run : (id : ℕ) (t : JobType) → Kept s (fail_linked_run c message id t s).1
  unfolding fail_linked_run
  Kept-linked_run id JobType.profile_run = Kept-profile_run (profile_runs_of id s.current)
  Kept-linked_run id JobType.validation_run = Kept-validation_run (validation_runs_of id s.current)
  Kept-linked_run id JobType.publish = Kept-publish_run (publish_runs_of id s.current)
  Kept-linked_run id _ = (refl, refl, refl, refl)

Result-cases : (r : Result (Unit {0})) → (r ≡ ok tt) ⊎ ((e : Error) × (r ≡ err e))
Result-cases (ok tt) = inl refl
Result-cases (err e) = inr (e, refl)

-- What the loop over `rows` has done so far.
abbrev Swept : Context → String → Table Job → Session → Result (Unit {0}) → Session → Type 0
Swept c message rows s r s' =
    (s'.committed ≡ s.committed)
    × (s'.current.publish_runs ≡ s.current.publish_runs)
    × (r ≡ ok tt → s'.current.jobs ≡ update_all (keys rows) (stale c message) s.current.jobs)
    × (r ≡ ok tt → length s'.current.audit_events ≡ length s.current.audit_events + length rows)

-- The step on one job, by its result, and the loop over the others.
abbrev marked :
    ℕ
    → Result (Unit {0})
    → Session
    → ℕ
    → (Session → Result (Unit {0}) × Session)
    → Result (Unit {0}) × Session
marked minutes (ok _) s id others = others (record s {
  current =
      log_event
        (record {
          actor_id = none;
          actor_type = ActorType.system;
          action = "job.marked_stale";
          entity_type = "JOB";
          entity_id = id;
          before_value = [];
          after_value = [];
          audit_metadata = ("threshold_minutes", MetaValue.count minutes) ∷ [];
        })
        s.current;
})
marked minutes (err e) s id others = (err e, s)

grown :
    {A : Type 0} (xs ys : List A) (x : A) (n : ℕ)
    → length xs ≡ length ys
    → length (xs ++ x ∷ []) + n ≡ length ys + suc n
grown xs ys x n h = ground (arith, h, length-append xs (x ∷ []))

module _ (c : Context) (minutes : ℕ) (message : String) where
  sweep-marked :
      (id : ℕ) (job : Job) (rest : Table Job) (s : Session)
      → let s1 : Session = record s {
        current = record s.current { jobs = update id (stale c message) s.current.jobs };
      } in
        let (r, s2) = fail_linked_run c message id job.job_type s1 in
        sweep_jobs c minutes message ((id, job) ∷ rest) s
        ≡ marked minutes r s2 id (sweep_jobs c minutes message rest)
  unfolding sweep_jobs record_event
  sweep-marked id job rest s =
      let s1 : Session = record s {
        current = record s.current { jobs = update id (stale c message) s.current.jobs };
      } in
      elim (Result-cases (fail_linked_run c message id job.job_type s1).0) [
        | inl e ↦ ground (arith, e)
        | inr (_, e) ↦ ground (arith, e)
      ]

  Swept-marked :
      (id : ℕ) (job : Job) (rest : Table Job) (s s2 : Session) (r : Result (Unit {0}))
      → Kept
          (record s {
            current = record s.current { jobs = update id (stale c message) s.current.jobs };
          })
          s2
      → ((s3 : Session)
          → Swept c message rest s3
              (sweep_jobs c minutes message rest s3).0
              (sweep_jobs c minutes message rest s3).1)
      → let after = marked minutes r s2 id (sweep_jobs c minutes message rest) in
        Swept c message ((id, job) ∷ rest) s after.0 after.1
  Swept-marked id job rest s s2 (err e) kept loop =
      (kept.0, kept.2, (λ p. absurd (cc (p))), (λ p. absurd (cc (p))))
  Swept-marked id job rest s s2 (ok _) kept loop =
      let l = loop _ in
      (
        l.0 ∙ kept.0,
        l.1 ∙ kept.2,
        (λ p. l.2 p ∙ ap (update_all (keys rest) (stale c message)) kept.1),
        (λ p.
            l.3 p
            ∙ grown s2.current.audit_events s.current.audit_events _ (length rest)
                (ap length kept.3)),
      )

  Swept-sweep_jobs :
      (rows : Table Job) (s : Session)
      → Swept c message rows s
          (sweep_jobs c minutes message rows s).0
          (sweep_jobs c minutes message rows s).1
  unfolding sweep_jobs
  Swept-sweep_jobs [] s = (refl, refl, (λ _. refl), (λ _. omega arith))
  Swept-sweep_jobs ((id, job) ∷ rest) s = rw (sweep-marked id job rest s) (
      Swept-marked id job rest s _ _ (Kept-linked_run c message _ id job.job_type)
        (Swept-sweep_jobs rest))

filter-update_where :
    {R : Type 0} (p : ℕ × R → Bool) (f : R → R) (t : Table R)
    → ((k : ℕ) (r : R) → p (k, f r) ≡ false)
    → filter p (update_where p f t) ≡ []
filter-update_where p f [] h = refl
filter-update_where p f ((k, r) ∷ t) h = ground (arith, h k r, filter-update_where p f t h)

-- The job is RUNNING, and was last written before the threshold.
abbrev pub RunsSince : ℕ → Job → Type 0
RunsSince threshold j =
    (j.status ≡ JobStatus.running) × ((t : ℕ) × (j.updated_at ≡ some t) × (t < threshold))

running_iff : (status : JobStatus) → (is_running status ≡ true) ↔ (status ≡ JobStatus.running)
running_iff JobStatus.queued = ground arith
running_iff JobStatus.running = ground arith
running_iff JobStatus.completed = ground arith
running_iff JobStatus.failed = ground arith
running_iff JobStatus.cancelled = ground arith

older_iff :
    (threshold : ℕ) (o : Option ℕ)
    → (older threshold o ≡ true) ↔ ((t : ℕ) × (o ≡ some t) × (t < threshold))
older_iff threshold none =
    (λ h. absurd (ground (arith, h)), λ (t, e, l). absurd (ground (arith, e)))
older_iff threshold (some u) =
    (λ h. (u, refl, ground (arith, h)), λ (t, e, l). ground (arith, e, l))

is_stale-RunsSince :
    (threshold k : ℕ) (j : Job) → (is_stale threshold (k, j) ≡ true) ↔ RunsSince threshold j
is_stale-RunsSince threshold k j =
    let old = older_iff threshold j.updated_at in
    let run = running_iff j.status in
    (
      λ h. (ground (arith, h, run), old.0 (ground (arith, h))),
      λ (running, since). ground (arith, run, running, old.1 since),
    )

module _ (c : Context) (minutes : ℕ) (message : String) (db : Database) where
  abbrev is_stale_now : ℕ × Job → Bool
  is_stale_now = is_stale (stale_before c minutes)

  abbrev sweep : Result ℕ × Database
  sweep = call (sweep_stale_jobs c minutes message) db

  -- Where no two jobs have one key, the sweep is one transaction. Either it raises and leaves the
  -- database as it was, or it returns the number of stale jobs, those that are RUNNING and were last
  -- written before the threshold: exactly those are FAILED now, completed at the time of the call with
  -- the given message, as many audit events are added, and no publish run is changed.
  pub sweep_outcome :
      UniqueKeys db.jobs
      → ((e : Error) × (sweep ≡ (err e, db)))
        ⊎ ((db' : Database) × (sweep ≡ (ok (length (filter is_stale_now db.jobs)), db'))
            × (db'.jobs
                ≡ update_where is_stale_now
                    (λ j. record j {
                      status = JobStatus.failed;
                      completed_at = some c.now;
                      updated_at = some c.now;
                      error_message = some message;
                    })
                    db.jobs)
            × ((k : ℕ) (j : Job)
                → (is_stale_now (k, j) ≡ true) ↔ RunsSince (c.now - minutes * 60) j)
            × (length db'.audit_events
                ≡ length db.audit_events + length (filter is_stale_now db.jobs))
            × (db'.publish_runs ≡ db.publish_runs))
  unfolding sweep_stale_jobs
  sweep_outcome unique =
      let rows = filter is_stale_now db.jobs in
      let s : Session = record { committed = db; current = db } in
      let l = Swept-sweep_jobs c minutes message rows s in
      elim (Result-cases (sweep_jobs c minutes message rows s).0) [
        | inl e ↦ inr (
          (sweep_jobs c minutes message rows s).1.current,
          ground (arith, e),
          (l.2 e ∙ update_all-filter is_stale_now (stale c message) db.jobs unique),
          is_stale-RunsSince (stale_before c minutes),
          l.3 e,
          l.1,
        )
        | inr (x, e) ↦ inl (x, ground (arith, e, l.0))
      ]

  -- Where no two jobs have one key, after a sweep that returned, a second one at the same time
  -- finds no stale job and changes nothing.
  pub sweep_again :
      (n : ℕ) (db' : Database)
      → UniqueKeys db.jobs
      → sweep ≡ (ok n, db')
      → call (sweep_stale_jobs c minutes message) db' ≡ (ok 0, db')
  unfolding sweep_stale_jobs sweep_jobs
  sweep_again n db' unique done = elim (sweep_outcome unique) [
    | inl (e, raised) ↦ absurd (cc (done, raised))
    | inr (db1, e, after, _, _, _) ↦
        let same : db1 ≡ db' = cc (done, e) in
        let clean : filter is_stale_now db'.jobs ≡ [] =
          rw (← same, after)
            (filter-update_where is_stale_now (stale c message) db.jobs (λ k r. refl)) in
        ground (arith, clean)
  ]
