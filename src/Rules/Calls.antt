-- ===== src/Rules/Calls.antt =====
-- What the calls of app/modules/rules/service.py write of rules and their versions.
use datacraft_backend.Prelude.{
  ℕ, ◌+◌, ◌≤◌, ◌≡◌, ◌⊎◌, inl, inr, refl, true, false, [], ◌∷◌, Option, none, some, arith, Table,
  lookup, add, update, nat_eq, string_eq, option_eq, Bool-cases, Option-cases, any, String,
}
use datacraft_backend.Core.Database.{Database}
use datacraft_backend.Core.Session.{Context, call}
use datacraft_backend.Core.Text.{Text}
use datacraft_backend.Models.Rules.{RuleStatus, Rule, Definition, RuleVersion, is_pending_review}
use datacraft_backend.Rules.Promotion.{promote_effect}
use datacraft_backend.Rules.Service.{
  RuleRequest, create_rule, update_rule, publish_version, promote_rule, dismiss_rule, retire,
  is_numbered, current_versions, new_rule, new_version, is_named, is_supported, updated_rule,
  reviewed,
}

-- A call of the service.
pub data RuleCall : Type 0 where
  create_call : RuleRequest → RuleCall
  update_call : ℕ → Option Text → Option Text → Option RuleStatus → RuleCall
  publish_call : ℕ → Definition → String → Option Text → RuleCall
  promote_call dismiss_call : ℕ → RuleCall

-- What a call leaves in the database.
abbrev pub after_call : Context → RuleCall → Database → Database
after_call c (create_call q) db = (call (create_rule c q) db).1
after_call c (update_call id description category status) db =
    (call (update_rule c id description category status) db).1
after_call c (publish_call id definition severity template) db =
    (call (publish_version c id definition severity template) db).1
after_call c (promote_call id) db = (call (promote_rule c id) db).1
after_call c (dismiss_call id) db = (call (dismiss_rule c id) db).1

-- What the calls write of the two tables.
abbrev pub Created : Context → RuleRequest → Database → Database → Type 0
Created c q db db' =
    (db'.next_id ≡ db.next_id + 2)
    × (db'.rules ≡ add db.next_id (new_rule c q) db.rules)
    × (db'.rule_versions
        ≡ add (db.next_id + 1)
            (new_version c db.next_id 1 q.definition q.severity q.error_message_template)
            db.rule_versions)

pub create-cases :
    (c : Context) (q : RuleRequest) (db : Database)
    → ((call (create_rule c q) db).1 ≡ db) ⊎ Created c q db (call (create_rule c q) db).1
unfolding create_rule
create-cases c q db = elim (Bool-cases (is_supported q.rule_type)) [
  | inl e ↦ elim (Bool-cases (any (is_named q.name) db.rules)) [
    | inl d ↦ inl (ground (arith, e, d))
    | inr d ↦ inr (ground (arith, e, d))
  ]
  | inr e ↦ inl (ground (arith, e))
]

-- The two tables are written to at most in the rows of rules.
abbrev pub Rewritten : Database → Database → Type 0
Rewritten db db' =
    (id : ℕ) × (f : Rule → Rule) × (db.next_id ≤ db'.next_id)
    × (db'.rules ≡ update id f db.rules)
    × (db'.rule_versions ≡ db.rule_versions)

pub update-cases :
    (c : Context) (id : ℕ) (description category : Option Text) (status : Option RuleStatus)
    (db : Database)
    → let db' = (call (update_rule c id description category status) db).1 in
      (db' ≡ db) ⊎ Rewritten db db'
unfolding update_rule
update-cases c id description category status db = elim (Option-cases (lookup id db.rules)) [
  | inl e ↦ inl (ground (arith, e))
  | inr (r, e) ↦ inr (
    id,
    updated_rule c description category status,
    ground (arith, e),
    ground (arith, e),
    ground (arith, e),
  )
]

pub dismiss-cases :
    (c : Context) (id : ℕ) (db : Database)
    → let db' = (call (dismiss_rule c id) db).1 in (db' ≡ db) ⊎ Rewritten db db'
unfolding dismiss_rule
dismiss-cases c id db = elim (Option-cases (lookup id db.rules)) [
  | inl e ↦ inl (ground (arith, e))
  | inr (r, e) ↦ elim (Bool-cases (is_pending_review r.status)) [
    | inl p ↦ inr (
      id,
      reviewed c RuleStatus.disabled,
      ground (arith, e, p),
      ground (arith, e, p),
      ground (arith, e, p),
    )
    | inr p ↦ inl (ground (arith, e, p))
  ]
]

pub promote-cases :
    (c : Context) (id : ℕ) (db : Database)
    → let db' = (call (promote_rule c id) db).1 in (db' ≡ db) ⊎ Rewritten db db'
promote-cases c id db = elim (promote_effect c id db) [
  | inl (e, same) ↦ inl (ground (arith, same))
  | inr p ↦ inr (id, reviewed c RuleStatus.active, p.keys_after, p.rules_after, p.versions_after)
]

-- The new version takes the place of the current one, if there is one.
abbrev pub Published : ℕ → Database → Database → Type 0
Published id db db' =
    (r : Rule) × (lookup id db.rules ≡ some r)
    × (current : Option (ℕ × RuleVersion)) × (current ≡ none
        → current_versions id db.rule_versions ≡ [])
    × ((row : ℕ × RuleVersion)
        → current ≡ some row
        → current_versions id db.rule_versions ≡ row ∷ [])
    × (v : RuleVersion) × (v.rule_id ≡ id)
    × (v.is_current ≡ true)
    × (any (is_numbered id v.version_number) db.rule_versions ≡ false)
    × (db'.next_id ≡ db.next_id + 1)
    × (db'.rules ≡ db.rules)
    × (db'.rule_versions ≡ add db.next_id v (retire current db.rule_versions))

module _ (c : Context) (id : ℕ) (definition : Definition) (severity : String)
    (template : Option Text) (db : Database) where
  abbrev published_db : Database
  published_db = (call (publish_version c id definition severity template) db).1

  module _ (r : Rule) (known : lookup id db.rules ≡ some r) where
    publish_written :
        (rows : Table RuleVersion)
        → current_versions id db.rule_versions ≡ rows
        → (published_db ≡ db) ⊎ Published id db published_db
    unfolding publish_version
    publish_written [] h = elim (Bool-cases (any (is_numbered id 1) db.rule_versions)) [
      | inl taken ↦ inl (ground (arith, taken))
      | inr taken ↦ inr (
        r,
        known,
        none,
        (λ _. h),
        (λ row e. cc (e)),
        new_version c id 1 definition severity template,
        refl,
        refl,
        taken,
        ground (arith, taken),
        ground (arith, taken),
        ground (arith, taken),
      )
    ]
    publish_written ((k, v) ∷ []) h =
        elim (Bool-cases (any (is_numbered id (v.version_number + 1)) db.rule_versions)) [
          | inl taken ↦ inl (ground (arith, taken))
          | inr taken ↦ inr (
            r,
            known,
            some (k, v),
            (λ e. cc (e)),
            (λ row e. cc (e, h)),
            new_version c id (v.version_number + 1) definition severity template,
            refl,
            refl,
            taken,
            ground (arith, taken),
            ground (arith, taken),
            ground (arith, taken),
          )
        ]
    publish_written (a ∷ b ∷ rows) h = inl (ground arith)

  pub publish-cases : (published_db ≡ db) ⊎ Published id db published_db
  unfolding publish_version
  publish-cases = elim (Option-cases (lookup id db.rules)) [
    | inl e ↦ inl (ground (arith, e))
    | inr (r, e) ↦ publish_written r e (current_versions id db.rule_versions) refl
  ]
