-- ===== src/Rules/Reviewed.antt =====
-- A rule is reviewed once: `promote_rule`, `dismiss_rule` and `update_rule` of
-- app/modules/rules/service.py.
use datacraft_backend.Prelude.{
  ℕ, ◌≡◌, ◌⊎◌, inl, inr, refl, false, Option, some, arith, lookup, update, lookup-update, nat_eq,
  string_eq, option_eq, beq_refl, Bool-cases, Option-cases, pair_eq,
}
use datacraft_backend.Core.Database.{Database}
use datacraft_backend.Core.Exceptions.{app, rule_not_found, invalid_rule_review_transition}
use datacraft_backend.Core.Text.{Text}
use datacraft_backend.Core.Session.{Context, Result, ok, err, call}
use datacraft_backend.Models.Rules.{RuleStatus, Rule, is_pending_review}
use datacraft_backend.Rules.Service.{
  promote_rule, dismiss_rule, update_rule, updated_rule, reviewed,
}
use datacraft_backend.Rules.Promotion.{Raised, pending_status, promote_effect}

-- The call raised and changed nothing, or the rule was pending and cannot be reviewed again.
abbrev pub ReviewedOnce : Context → ℕ → Database → Result (Unit {0}) × Database → Type 0
ReviewedOnce c id db outcome =
    Raised db outcome
    ⊎ ((r : Rule) × (lookup id db.rules ≡ some r)
        × (r.status ≡ RuleStatus.pending_review)
        × (outcome.0 ≡ ok tt)
        × (call (promote_rule c id) outcome.1
            ≡ (err (app invalid_rule_review_transition), outcome.1))
        × (call (dismiss_rule c id) outcome.1
            ≡ (err (app invalid_rule_review_transition), outcome.1)))

module _ (c : Context) (id : ℕ) (db : Database) (status : RuleStatus) (r : Rule)
    (decided : is_pending_review status ≡ false) (known : lookup id db.rules ≡ some r)
    (status_of : r.status ≡ status) where
  promote_decided : call (promote_rule c id) db ≡ (err (app invalid_rule_review_transition), db)
  unfolding promote_rule
  promote_decided = ground (arith, decided)

  dismiss_decided : call (dismiss_rule c id) db ≡ (err (app invalid_rule_review_transition), db)
  unfolding dismiss_rule
  dismiss_decided = ground (arith, decided)

-- what a rule with a decided status answers
decided_answers :
    (c : Context) (id : ℕ) (db : Database) (status : RuleStatus) (r : Rule)
    → is_pending_review status ≡ false
    → lookup id db.rules ≡ some r
    → (db' : Database) → db'.rules ≡ update id (reviewed c status) db.rules
    → (call (promote_rule c id) db' ≡ (err (app invalid_rule_review_transition), db'))
      × (call (dismiss_rule c id) db' ≡ (err (app invalid_rule_review_transition), db'))
decided_answers c id db status r decided known db' rules =
    let after : lookup id db'.rules ≡ some (reviewed c status r) =
      rw rules (ground (arith, lookup-update id id (reviewed c status) db.rules, beq_refl id)) in
    (
      promote_decided c id db' status (reviewed c status r) decided after refl,
      dismiss_decided c id db' status (reviewed c status r) decided after refl,
    )

promote_once :
    (c : Context) (id : ℕ) (db : Database) → ReviewedOnce c id db (call (promote_rule c id) db)
promote_once c id db = elim (promote_effect c id db) [
  | inl raised ↦ inl raised
  | inr p ↦
      let answers =
        decided_answers c id db RuleStatus.active p.rule refl p.known
          (call (promote_rule c id) db).1 p.rules_after in
      inr (p.rule, p.known, p.was_pending, p.succeeded, answers.0, answers.1)
]

dismiss_once :
    (c : Context) (id : ℕ) (db : Database) → ReviewedOnce c id db (call (dismiss_rule c id) db)
unfolding dismiss_rule
dismiss_once c id db = elim (Option-cases (lookup id db.rules)) [
  | inl e ↦ inl (app rule_not_found, ground (arith, e))
  | inr (r, e) ↦ elim (Bool-cases (is_pending_review r.status)) [
    | inl p ↦
        let answers =
          decided_answers c id db RuleStatus.disabled r refl e (call (dismiss_rule c id) db).1
            (ground (arith, e, p)) in
        inr (r, e, pending_status r.status p, ground (arith, e, p), answers.0, answers.1)
    | inr p ↦ inl (app invalid_rule_review_transition, ground (arith, e, p))
  ]
]

-- Promoting or dismissing a rule either raises and leaves the database as it was, or the rule was
-- PENDING_REVIEW and both calls, made next, raise InvalidRuleReviewTransitionError and change nothing.
pub review_once :
    (c : Context) (id : ℕ) (db : Database)
    → ReviewedOnce c id db (call (promote_rule c id) db)
      × ReviewedOnce c id db (call (dismiss_rule c id) db)
review_once c id db = (promote_once c id db, dismiss_once c id db)

-- For a rule that is found, a call of `update_rule` that gives the status ACTIVE succeeds, leaves
-- the rule active, whatever its status was, and leaves the assignments as they were.
pub update_activates :
    (c : Context) (id : ℕ) (description category : Option Text) (db : Database) (r : Rule)
    → lookup id db.rules ≡ some r
    → let (result, db') =
        call (update_rule c id description category (some RuleStatus.active)) db in
      (result ≡ ok tt)
      × (lookup id db'.rules
          ≡ some (updated_rule c description category (some RuleStatus.active) r))
      × (db'.rule_assignments ≡ db.rule_assignments)
unfolding update_rule
update_activates c id description category db r known = (
  ground arith,
  ground (
    arith,
    lookup-update id id (updated_rule c description category (some RuleStatus.active)) db.rules,
    beq_refl id,
  ),
  ground arith,
)
