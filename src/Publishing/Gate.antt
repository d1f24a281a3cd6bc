-- ===== src/Publishing/Gate.antt =====
-- What the export of app/modules/publishing/file_export.py may write to, and what it counts.
use mathlib.Core.Path.{subst}
use datacraft_backend.Prelude.{
  ℕ, ◌≡◌, ◌≢◌, inl, inr, ◌∙◌, Bool, true, false, not, ◌&&◌, List, arith, length, nat_eq, string_eq,
  option_eq, Bool-cases, Option-cases, all, is_some, pair_eq,
}
use datacraft_backend.Core.Text.{Text}
use datacraft_backend.Publishing.World.{FileSystem, is_single_line}
use datacraft_backend.Publishing.Export.{
  done, resolve_target_path, check_overwrite_allowed, write_row_snapshots, export_rows,
}

module _ (files : FileSystem) (directory : Text) (s : files.Store) where
  -- A file that the export may write to: it lies in the directory, and a file that is there may be
  -- overwritten.
  abbrev pub is_writable : Bool → files.Location → Bool
  is_writable overwrite q =
      files.is_relative_to q (files.base directory s)
      && not (is_some (files.content q s) && not overwrite)

module _ (files : FileSystem) (directory reference : Text) (rows : List Text)
    (s : files.Store) where
  module _ (q p : files.Location) (overwrite : Bool) (s' : files.Store)
      (same : (x : files.Location) → files.content x s' ≡ files.content x s)
      (within : files.is_relative_to p (files.base directory s) ≡ true)
      (free : (files.exists p s' && not overwrite) ≡ false)
      (safe : is_writable files directory s overwrite q ≡ false) where
    spared : q ≢ p
    spared e =
        let safe_p : is_writable files directory s overwrite p ≡ false =
          subst (λ x. is_writable files directory s overwrite x ≡ false) e safe in
        elim (Option-cases (files.content p s)) [
          | inl absent ↦ ground (arith, within, absent, safe_p)
          | inr (lines, held) ↦
              ground
                (arith, within, held, safe_p, free, files.exists_content p s' lines (same p ∙ held))
        ]

    writes_other : files.content q (write_row_snapshots files p rows s').1 ≡ files.content q s
    unfolding write_row_snapshots
    writes_other =
        let s1 = (files.mkdir_parent p s').1 in
        let other = files.content-write_lines_other q p rows s1 spared in
        ground (arith, other, files.content-mkdir_parent q p s', same q)

  -- Whether or not the export fails, a file that it may not write to is as it was.
  pub export_other :
      (overwrite : Bool) (q : files.Location)
      → is_writable files directory s overwrite q ≡ false
      → files.content q (export_rows files reference directory overwrite rows s).1
        ≡ files.content q s
  unfolding export_rows resolve_target_path check_overwrite_allowed
  export_other overwrite q safe =
      let b = files.base directory s in
      let s' = (files.mkdir b s).1 in
      let p = files.resolve b reference s' in
      let same : (x : files.Location) → files.content x s' ≡ files.content x s =
        λ x. files.content-mkdir x b s in
      elim (Bool-cases (files.is_relative_to p b)) [
        | inl within ↦ elim (Bool-cases (files.exists p s' && not overwrite)) [
          | inl taken ↦ ground (arith, within, taken, same q)
          | inr free ↦
              ground
                (arith, within, free, same q, writes_other q p overwrite s' same within free safe)
        ]
        | inr within ↦ ground (arith, within, same q)
      ]

  count_written :
      (p : files.Location) (n : ℕ) (s' : files.Store)
      → all is_single_line rows ≡ true
      → (write_row_snapshots files p rows s').0 ≡ done n
      → n ≡ length rows
  unfolding write_row_snapshots
  count_written p n s' single e =
      let s1 = (files.mkdir_parent p s').1 in
      let s2 = (files.write_lines p rows s1).1 in
      elim (Option-cases (files.mkdir_parent p s').0) [
        | inl none_made ↦ absurd (ground (arith, e, none_made))
        | inr (_, made) ↦ elim (Option-cases (files.write_lines p rows s1).0) [
          | inl none_written ↦ absurd (ground (arith, e, made, none_written))
          | inr (_, written) ↦ elim (Option-cases (files.count_lines p s2)) [
            | inl none_read ↦ absurd (ground (arith, e, made, written, none_read))
            | inr (m, read) ↦
                let (lines, held, count) = files.count_lines_content p s2 m read in
                let same : n ≡ m = ground (arith, e, made, written, read) in
                ground
                  (arith, same, count, held, files.content-write_lines p rows s1 single written)
          ]
        ]
      ]

  -- What the export says it wrote is every row, where each row is one line.
  pub export_count :
      (overwrite : Bool) (n : ℕ)
      → all is_single_line rows ≡ true
      → (export_rows files reference directory overwrite rows s).0 ≡ done n
      → n ≡ length rows
  unfolding export_rows resolve_target_path check_overwrite_allowed
  export_count overwrite n single e =
      let s' = (files.mkdir (files.base directory s) s).1 in
      let p = files.resolve (files.base directory s) reference s' in
      ground (arith, e, count_written p n s' single)
