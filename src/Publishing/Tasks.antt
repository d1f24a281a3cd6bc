-- ===== src/Publishing/Tasks.antt =====
-- app/modules/publishing/tasks.py: the task `run_publish`, with Redis and the file system.
use datacraft_backend.Prelude.{ℕ, Bool, map, nat_eq, string_eq, option_eq, if◌then◌else◌}
use datacraft_backend.Core.Session.{Context}
use datacraft_backend.Core.Action.{Action, pure, on_session, on_store, ◌>>=◌, ◌>>◌}
use datacraft_backend.Core.Text.{Text}
use datacraft_backend.Publishing.World.{OptionsRedis, FileSystem}
use datacraft_backend.Publishing.Options.{get_overwrite, clear_overwrite}
use datacraft_backend.Publishing.Export.{Written, done, failure, export_rows}
use datacraft_backend.Publishing.Runs.{
  Outcome, failed, published, Task, Start, stop, proceed, start, fail, finish,
}

module _ (redis : OptionsRedis) (files : FileSystem) (directory : Text) (dumps : Text → Text) where
  -- `dumps` is `json.dumps(row, sort_keys=True)`, and `directory` PUBLISH_FILE_EXPORT_DIRECTORY.
  abbrev pub Stores : Type 0
  Stores = redis.Store × files.Store

  abbrev pub clear : ℕ → Stores → Unit {0} × Stores
  clear run_id (options, disk) = (tt, (clear_overwrite redis run_id options, disk))

  abbrev pub clear_if : Bool → ℕ → Stores → Unit {0} × Stores
  clear_if b run_id stores = if b then clear run_id stores else (tt, stores)

  abbrev pub export : Task → Stores → Written ℕ × Stores
  export t (options, disk) =
      let (written, disk') =
        export_rows files t.run.target_reference directory (get_overwrite redis t.run_id options)
          (map dumps t.rows) disk in
      (written, (options, disk'))

  abbrev pub settle : Context → Context → Task → Written ℕ → Action Stores Outcome
  settle began c t (failure e) = do
    on_session (fail c t e)
    on_store (clear t.run_id)
    pure (failed e)
  settle began c t (done count) = do
    on_session (finish began c t count)
    on_store (clear t.run_id)
    pure (published count)

  abbrev pub go_on : Context → Context → ℕ → Start → Action Stores Outcome
  go_on began c run_id (stop clears outcome) = do on_store (clear_if clears run_id); pure outcome
  go_on began c run_id (proceed t) = do written ← on_store (export t); settle began c t written

  -- The two contexts give the times at which it begins and ends.
  unfoldable pub run_publish : Context → Context → ℕ → ℕ → Action Stores Outcome
  unfolding start fail finish export_rows get_overwrite clear_overwrite
  run_publish began c job_id run_id = do
    begin ← on_session (start began job_id run_id)
    go_on began c run_id begin
