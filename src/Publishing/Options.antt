-- ===== src/Publishing/Options.antt =====
-- app/modules/publishing/run_options.py
use datacraft_backend.Prelude.{
  ℕ, Bool, false, Option, none, some, nat_eq, string_eq, option_eq, ◌==◌, String, if◌then◌else◌,
}
use datacraft_backend.Publishing.World.{OptionsRedis}

module _ (redis : OptionsRedis) where
  unfoldable pub set_overwrite : ℕ → Bool → redis.Store → redis.Store
  set_overwrite id value s = redis.set id (if value then "1" else "0") s

  -- `raw in ("1", b"1")`, and false where the key is missing
  abbrev pub is_set : Option String → Bool
  is_set none = false
  is_set (some raw) = raw == "1"

  unfoldable pub get_overwrite : ℕ → redis.Store → Bool
  get_overwrite id s = is_set (redis.get id s)

  unfoldable pub clear_overwrite : ℕ → redis.Store → redis.Store
  clear_overwrite id s = redis.delete id s
