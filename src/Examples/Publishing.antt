-- ===== src/Examples/Publishing.antt =====
-- A ready staging run with source drift and two records, and files as a function from paths to lines.
use datacraft_backend.Prelude.{
  ℕ, ◌≡◌, ◌≢◌, ◌⊎◌, inl, inr, refl, Bool, true, false, not, ◌&&◌, ◌||◌, List, [], ◌∷◌, ◌++◌, Option,
  none, some, arith, lookup, length, nat_eq, string_eq, option_eq, ◌==◌, beq_refl, eq_of_beq,
  Bool-cases, String, filter, if◌then◌else◌, is_some, pair_eq,
}
use datacraft_backend.Core.Database.{Database}
use datacraft_backend.Core.Exceptions.{app, publish_already_in_progress}
use datacraft_backend.Core.Session.{ok, err, call}
use datacraft_backend.Core.Text.{Text, text_eq, codes, strip}
use datacraft_backend.Models.Jobs.{JobStatus, JobType, Job}
use datacraft_backend.Models.Publishing.{PublishStatus, TargetType, PublishRun}
use datacraft_backend.Models.Staging.{StagingStatus, StagingRun}
use datacraft_backend.Jobs.Sweep.{sweep_stale_jobs, sweep_jobs, fail_linked_run}
use datacraft_backend.Publishing.World.{is_single_line, OptionsRedis, FileSystem}
use datacraft_backend.Publishing.Options.{get_overwrite}
use datacraft_backend.Publishing.Export.{export_rows, resolve_target_path, write_row_snapshots}
use datacraft_backend.Publishing.Runs.{published}
use datacraft_backend.Publishing.Service.{existing_runs, trigger_rows}
use datacraft_backend.Publishing.Tasks.{run_publish}
use datacraft_backend.Publishing.Gate.{is_writable}
use datacraft_backend.Publishing.Published.{publishes, drift_gate, publish_safe, publish_count}
use datacraft_backend.Publishing.Trigger.{
  triggers, created_run, trigger_again, sweep_keeps_refusing,
}
use datacraft_backend.Examples.Data.{reviewer, empty_db}

abbrev redis : OptionsRedis
redis = record {
  Store = ℕ → Option String;
  set = λ j v s i. if i == j then some v else s i;
  get = λ i s. s i;
  delete = λ j s i. if i == j then none else s i;
  get-set = λ i j v s. refl;
  get-delete = λ i j s. refl;
}

abbrev Disk : Type 0
Disk = Text → Option (List Text)

abbrev write : Text → List Text → Disk → Disk
write p lines d q = if q == p then some lines else d q

abbrev is_prefix : Text → Text → Bool
is_prefix [] q = true
is_prefix (x ∷ p) [] = false
is_prefix (x ∷ p) (y ∷ q) = x == y && is_prefix p q

abbrev is_rooted : Text → Bool
is_rooted [] = false
is_rooted (x ∷ p) = x == 47

write_same : (p : Text) (lines : List Text) (d : Disk) → write p lines d p ≡ some lines
write_same p lines d = ground (arith, beq_refl p)

write_other : (q p : Text) (lines : List Text) (d : Disk) → q ≢ p → write p lines d q ≡ d q
write_other q p lines d differ = elim (Bool-cases (q == p)) [
  | inl e ↦ absurd (differ (eq_of_beq q p e))
  | inr e ↦ ground (arith, e)
]

abbrev count : Option (List Text) → Option ℕ
count none = none
count (some lines) = some (length lines)

count_inversion :
    (o : Option (List Text)) (n : ℕ)
    → count o ≡ some n
    → (lines : List Text) × (o ≡ some lines) × (n ≡ length lines)
count_inversion none n h = cc
count_inversion (some lines) n h = (lines, refl, ground arith)

abbrev files : FileSystem
files = record {
  Store = Disk;
  Location = Text;
  is_absolute = is_rooted;
  base = λ directory d. directory;
  resolve = λ base reference d. base ++ 47 ∷ reference;
  is_relative_to = λ q base. is_prefix base q;
  exists = λ p d. is_some (d p);
  content = λ p d. d p;
  mkdir = λ p d. (some tt, d);
  mkdir_parent = λ p d. (some tt, d);
  write_lines = λ p lines d. (some tt, write p lines d);
  count_lines = λ p d. count (d p);
  exists_content = λ p d lines e. ground (arith, e);
  content-mkdir = λ q p d. refl;
  content-mkdir_parent = λ q p d. refl;
  content-write_lines = λ p lines d single e. write_same p lines d;
  content-write_lines_other = write_other;
  count_lines_content = λ p d n e. count_inversion (d p) n e;
}

abbrev staging : Bool → StagingRun
staging drift = record {
  review_run_id = 10;
  dataset_id = 3;
  attempt_number = 1;
  is_current = true;
  status = StagingStatus.ready;
  record_count = 2;
  field_count = 1;
  has_source_drift = drift;
  error_message = none;
  created_by = some 7;
  started_at = none;
  completed_at = none;
  updated_at = none;
}

abbrev run_with : PublishStatus → PublishRun
run_with status = record {
  staging_run_id = 5;
  job_id = some 1;
  status = status;
  target_type = TargetType.file_export;
  target_reference = codes "out.jsonl";
  published_record_count = none;
  drift_acknowledged = false;
  drift_acknowledged_by = none;
  drift_acknowledged_at = none;
  error_message = none;
  published_by = some 7;
  started_at = none;
  completed_at = none;
  updated_at = none;
}

abbrev publish_job : Job
publish_job = record {
  job_type = JobType.publish;
  entity_type = "STAGING_RUN";
  entity_id = 5;
  status = JobStatus.queued;
  progress_percentage = none;
  error_message = none;
  result = none;
  started_at = none;
  completed_at = none;
  created_by = some 7;
  updated_at = none;
}

abbrev staged_db : Bool → Database
staged_db drift = record empty_db {
  staging_runs = (5, staging drift) ∷ [];
  staging_records =
      (11, record { staging_run_id = 5; record_ref = codes "1"; row_snapshot = codes "a" })
      ∷ (12, record { staging_run_id = 5; record_ref = codes "2"; row_snapshot = codes "b" })
      ∷ [];
}

-- publish run 4 of staging run 5, with job 1
abbrev publish_db : Bool → Database
publish_db drift = record (staged_db drift) {
  jobs = (1, publish_job) ∷ [];
  publish_runs = (4, run_with PublishStatus.pending) ∷ [];
}

abbrev no_options : ℕ → Option String
no_options i = none

-- a file that is there
abbrev disk : Disk
disk = write (codes "exports/old.jsonl") (codes "x" ∷ []) (λ _. none)

drift_gate_example :
    let outcome =
      publishes redis files
        (codes "exports")
        (λ t. t)
        reviewer
        reviewer
        1
        4
        no_options
        disk
        (publish_db true) in
    (outcome.1.1 ≡ disk) × (outcome.2 ≡ publish_db true)
drift_gate_example =
    drift_gate redis files (codes "exports") (λ t. t) reviewer reviewer 1 4 no_options disk
      (publish_db true) (run_with PublishStatus.pending) (staging true) refl refl refl refl

overwrite_refused :
    is_writable files
      (codes "exports")
      disk
      (get_overwrite redis 4 no_options)
      (codes "exports/old.jsonl")
    ≡ false
unfolding get_overwrite
overwrite_refused = refl

publish_safe_example :
    (publishes redis files
        (codes "exports")
        (λ t. t)
        reviewer
        reviewer
        1
        4
        no_options
        disk
        (publish_db false)).1.1
      (codes "exports/old.jsonl")
    ≡ some (codes "x" ∷ [])
publish_safe_example =
    publish_safe redis files (codes "exports") (λ t. t) reviewer reviewer 1 4 no_options disk
      (publish_db false) (codes "exports/old.jsonl") overwrite_refused

-- a text without its line ends
abbrev one_line : Text → Text
one_line t = filter (λ x. not (x == 10 || x == 13)) t

one_line_single : (t : Text) → is_single_line (one_line t) ≡ true
one_line_single [] = refl
one_line_single (x ∷ t) = ground (arith, one_line_single t)

publishes_two :
    (publishes redis files
      (codes "exports")
      one_line
      reviewer
      reviewer
      1
      4
      no_options
      disk
      (publish_db false)).0
    ≡ ok (published 2)
unfolding run_publish export_rows resolve_target_path write_row_snapshots strip
publishes_two = refl

abbrev published_two : Database
published_two =
    (publishes redis files (codes "exports") one_line reviewer reviewer 1 4 no_options disk
      (publish_db false)).2

publish_count_example :
    (p : PublishRun) × (r : StagingRun) × (lookup 4 (publish_db false).publish_runs ≡ some p)
    × ((p.status ≡ PublishStatus.pending) ⊎ (p.status ≡ PublishStatus.publishing))
    × (lookup p.staging_run_id (publish_db false).staging_runs ≡ some r)
    × ((r.has_source_drift && not p.drift_acknowledged) ≡ false)
    × (2
        ≡ length (
            filter
              (λ (_, x). x.staging_run_id == p.staging_run_id)
              (publish_db false).staging_records))
    × ((j : ℕ)
        → lookup j published_two.publish_runs ≡ (
            if j == 4
            then some (record p {
              status = PublishStatus.published;
              published_record_count = some 2;
              started_at = some 1000;
              completed_at = some 1000;
              updated_at = some 1000;
            })
            else lookup j (publish_db false).publish_runs))
publish_count_example =
    publish_count redis files (codes "exports") one_line reviewer reviewer 1 4 no_options disk
      (publish_db false) 2 one_line_single publishes_two

abbrev triggered_db : Database
triggered_db = (triggers reviewer 5 "FILE_EXPORT" (codes "out.jsonl") (staged_db false)).1

triggers_once :
    (triggers reviewer 5 "FILE_EXPORT" (codes "out.jsonl") (staged_db false)).0 ≡ ok (100, 101)
unfolding trigger_rows
triggers_once = refl

trigger_again_example :
    (existing_runs 5 triggered_db.publish_runs
      ≡ (100, created_run reviewer 5 "FILE_EXPORT" (codes "out.jsonl") 101) ∷ [])
    × (triggers reviewer 5 "FILE_EXPORT" (codes "out.jsonl") triggered_db
        ≡ (err (app publish_already_in_progress), triggered_db))
trigger_again_example =
    trigger_again reviewer 5 "FILE_EXPORT" (codes "out.jsonl") (staged_db false) 100 101
      triggers_once

-- a run that was PUBLISHING when its worker died
abbrev dead_db : Database
dead_db = record (staged_db false) {
  jobs = (1, record publish_job { status = JobStatus.running; updated_at = some 300 }) ∷ [];
  publish_runs = (4, run_with PublishStatus.publishing) ∷ [];
}

abbrev swept_db : Database
swept_db = (call (sweep_stale_jobs reviewer 10 "stale") dead_db).1

swept_staging : lookup 5 swept_db.staging_runs ≡ some (staging false)
unfolding sweep_stale_jobs sweep_jobs fail_linked_run
swept_staging = refl

sweep_keeps_refusing_example :
    triggers reviewer 5 "FILE_EXPORT" (codes "out.jsonl") swept_db
    ≡ (err (app publish_already_in_progress), swept_db)
sweep_keeps_refusing_example =
    sweep_keeps_refusing reviewer 5 "FILE_EXPORT" (codes "out.jsonl") reviewer 10 "stale" dead_db
      (4, run_with PublishStatus.publishing) (staging false) refl refl refl swept_staging refl
