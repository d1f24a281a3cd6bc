-- ===== src/Datasets/Service.antt =====
-- app/modules/datasets/service.py
use datacraft_backend.Prelude.{
  ℕ, Bool, [], ◌∷◌, some, lookup, update, nat_eq, string_eq, option_eq, if◌then◌else◌, pair_eq,
}
use datacraft_backend.Core.Exceptions.{app, dataset_not_found}
use datacraft_backend.Core.Session.{
  Transaction, Context, gets, modify, commit, or_raise, ◌>>=◌, ◌>>◌,
}
use datacraft_backend.Models.Rules.{Dataset}
use datacraft_backend.Models.Trail.{MetaValue, ActorType}
use datacraft_backend.Trail.Audit.{record_change}

unfoldable pub get_dataset : ℕ → Transaction Dataset
get_dataset id = do
  found ← gets (λ db. lookup id db.datasets)
  or_raise (app dataset_not_found) found

abbrev pub flag : Bool → MetaValue
flag b = if b then MetaValue.tag "true" else MetaValue.tag "false"

unfoldable pub set_active : Context → ℕ → Bool → Transaction (Unit {0})
unfolding get_dataset record_change
set_active c id is_active = do
  dataset ← get_dataset id
  modify (λ db. record db {
    datasets =
        update id (λ d. record d { is_active = is_active; updated_at = some c.now }) db.datasets;
  })
  record_change (some c.actor) ActorType.user "dataset.updated" "DATASET" id
      (("is_active", flag dataset.is_active) ∷ []) (("is_active", flag is_active) ∷ []) []
  commit
