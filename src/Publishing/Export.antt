-- ===== src/Publishing/Export.antt =====
-- app/modules/publishing/file_export.py
use datacraft_backend.Prelude.{
  ℕ, Bool, not, ◌&&◌, ◌||◌, List, Option, none, some, nat_eq, string_eq, option_eq, if◌then◌else◌,
  is_empty,
}
use datacraft_backend.Core.Text.{Text, strip}
use datacraft_backend.Publishing.World.{FileSystem}

-- the exceptions of `_WRITE_FAILURE_ERRORS`
pub data WriteFailure : Type 0 where
  invalid_target_path target_already_exists os_error : WriteFailure

-- what a step of the export gives
pub data Written (A : Type 0) : Type 0 where
  done : A → Written A
  failure : WriteFailure → Written A

abbrev pub or_os_error : {A : Type 0} → Option A → Written A
or_os_error none = failure os_error
or_os_error (some a) = done a

module _ (files : FileSystem) where
  -- `base.mkdir` comes before the candidate is resolved.
  unfoldable pub resolve_target_path :
      Text → Text → files.Store → Written files.Location × files.Store
  unfolding strip
  resolve_target_path reference directory s =
      if is_empty reference || is_empty (strip reference)
      then (failure invalid_target_path, s)
      else if files.is_absolute reference
      then (failure invalid_target_path, s)
      else let base = files.base directory s in
        let (made, s') = files.mkdir base s in
        let candidate = files.resolve base reference s' in
        elim made [
          | none ↦ (failure os_error, s')
          | some _ ↦ (
            if files.is_relative_to candidate base
                then done candidate
                else failure invalid_target_path,
            s',
          )
        ]

  unfoldable pub check_overwrite_allowed : files.Location → Bool → files.Store → Written (Unit {0})
  check_overwrite_allowed path overwrite s =
      if files.exists path s && not overwrite then failure target_already_exists else done tt

  -- `json.dumps` of every row is a parameter of the caller; the lines are counted in the file.
  unfoldable pub write_row_snapshots :
      files.Location → List Text → files.Store → Written ℕ × files.Store
  write_row_snapshots path rows s =
      let (made, s1) = files.mkdir_parent path s in
      let (written, s2) = files.write_lines path rows s1 in
      elim made [
        | none ↦ (failure os_error, s1)
        | some _ ↦ elim written [
          | none ↦ (failure os_error, s2)
          | some _ ↦ (or_os_error (files.count_lines path s2), s2)
        ]
      ]

  -- the three calls in the `try` of `run_publish`
  unfoldable pub export_rows :
      Text → Text → Bool → List Text → files.Store → Written ℕ × files.Store
  unfolding resolve_target_path check_overwrite_allowed write_row_snapshots
  export_rows reference directory overwrite rows s =
      let (resolved, s') = resolve_target_path reference directory s in
      elim resolved [
        | failure e ↦ (failure e, s')
        | done path ↦ elim (check_overwrite_allowed path overwrite s') [
          | failure e ↦ (failure e, s')
          | done _ ↦ write_row_snapshots path rows s'
        ]
      ]
