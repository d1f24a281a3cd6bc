-- ===== src/Publishing/World.antt =====
-- The Redis client of app/modules/publishing/run_options.py and the file system of
-- app/modules/publishing/file_export.py: what the code asks of them, and what they promise. Both are
-- outside the repository.
use datacraft_backend.Prelude.{
  ℕ, ◌≡◌, ◌≢◌, Bool, true, not, ◌||◌, List, Option, none, some, length, nat_eq, string_eq,
  option_eq, ◌==◌, all, String, if◌then◌else◌, pair_eq,
}
use datacraft_backend.Core.Text.{Text}

-- The values under `publish_run:{id}:overwrite`.
pub record OptionsRedis : Type 1 where
  pub Store : Type 0
  pub set : ℕ → String → Store → Store
  pub get : ℕ → Store → Option String
  pub delete : ℕ → Store → Store
  pub get-set :
      (i j : ℕ) (v : String) (s : Store) → get i (set j v s) ≡ (if i == j then some v else get i s)
  pub get-delete : (i j : ℕ) (s : Store) → get i (delete j s) ≡ (if i == j then none else get i s)

-- Reading the text back does not split it: it has neither a line feed nor a carriage return.
abbrev pub is_single_line : Text → Bool
is_single_line line = all (λ x. not (x == 10 || x == 13)) line

-- pathlib and `open`. A file is the list of its lines. A call that raises OSError gives `none`.
pub record FileSystem : Type 1 where
  pub Store : Type 0
  pub Location : Type 0
  pub is_absolute : Text → Bool
  -- `Path(directory).resolve()` and `(base / reference).resolve()`, which follow links
  pub base : Text → Store → Location
  pub resolve : Location → Text → Store → Location
  pub is_relative_to : Location → Location → Bool
  pub exists : Location → Store → Bool
  pub content : Location → Store → Option (List Text)
  -- `mkdir(parents=True, exist_ok=True)` of a directory, and of the directory of a file
  pub mkdir : Location → Store → Option (Unit {0}) × Store
  pub mkdir_parent : Location → Store → Option (Unit {0}) × Store
  pub write_lines : Location → List Text → Store → Option (Unit {0}) × Store
  pub count_lines : Location → Store → Option ℕ
  pub exists_content :
      (p : Location) (s : Store) (lines : List Text) → content p s ≡ some lines → exists p s ≡ true
  pub content-mkdir : (q p : Location) (s : Store) → content q (mkdir p s).1 ≡ content q s
  pub content-mkdir_parent :
      (q p : Location) (s : Store) → content q (mkdir_parent p s).1 ≡ content q s
  pub content-write_lines :
      (p : Location) (lines : List Text) (s : Store)
      → all is_single_line lines ≡ true
      → (write_lines p lines s).0 ≡ some tt
      → content p (write_lines p lines s).1 ≡ some lines
  pub content-write_lines_other :
      (q p : Location) (lines : List Text) (s : Store)
      → q ≢ p
      → content q (write_lines p lines s).1 ≡ content q s
  pub count_lines_content :
      (p : Location) (s : Store) (n : ℕ)
      → count_lines p s ≡ some n
      → (lines : List Text) × (content p s ≡ some lines) × (n ≡ length lines)
