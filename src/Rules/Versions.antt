-- ===== src/Rules/Versions.antt =====
-- Every rule has one current version, whatever the calls of the service.
use mathlib.Core.List.{append-nil}
use datacraft_backend.Prelude.{
  ℕ, ◌+◌, ◌<◌, ◌≤◌, ◌≡◌, inl, inr, refl, [], ◌∷◌, Option, none, some, arith, Table, add, update,
  length, All, All-imp, All-append, nat_eq, string_eq, option_eq, ◌==◌, eq_of_beq, Bool-cases,
  UniqueKeys, keys, keys-update, UniqueKeys-add,
}
use datacraft_backend.Core.Database.{
  Database, KeysBelow, KeysBelow-add, KeysBelow-next, KeysBelow-update, KeysBelow-mono,
  below-KeysBelow, lookup-KeysBelow,
}
use datacraft_backend.Core.Session.{Context}
use datacraft_backend.Models.Rules.{Rule, RuleVersion}
use datacraft_backend.Rules.Service.{RuleRequest, current_versions, new_rule, new_version, retire}
use datacraft_backend.Rules.Current.{
  current_versions-add, current_versions-retire, current_versions-retire_other,
}
use datacraft_backend.Rules.Calls.{
  RuleCall, create_call, update_call, publish_call, promote_call, dismiss_call, after_call, Created,
  Rewritten, Published, create-cases, update-cases, promote-cases, publish-cases, dismiss-cases,
}

-- The version belongs to a rule whose key was given out before.
abbrev pub OwnersBelow : ℕ → Table RuleVersion → Type 0
OwnersBelow n t = All (λ row. row.1.rule_id < n) t

abbrev pub HaveCurrent : Table RuleVersion → Table Rule → Type 0
HaveCurrent versions t = All (λ rule. length (current_versions rule.0 versions) ≡ 1) t

-- Every rule has exactly one current version, and keys are not given out twice.
pub record IsVersioned (db : Database) : Type 0 where
  pub rules_below : KeysBelow db.next_id db.rules
  pub versions_below : KeysBelow db.next_id db.rule_versions
  pub owners_below : OwnersBelow db.next_id db.rule_versions
  pub version_keys : UniqueKeys db.rule_versions
  pub one_current : HaveCurrent db.rule_versions db.rules

OwnersBelow-mono : (n m : ℕ) (t : Table RuleVersion) → n ≤ m → OwnersBelow n t → OwnersBelow m t
OwnersBelow-mono n m [] le h = tt
OwnersBelow-mono n m (row ∷ t) le h = (omega arith, OwnersBelow-mono n m t le h.1)

HaveCurrent-update :
    (versions : Table RuleVersion) (id : ℕ) (f : Rule → Rule) (t : Table Rule)
    → HaveCurrent versions t
    → HaveCurrent versions (update id f t)
HaveCurrent-update versions id f [] h = tt
HaveCurrent-update versions id f ((j, r) ∷ t) h =
    (ground (arith, h.0), HaveCurrent-update versions id f t h.1)

Rewritten-IsVersioned : (db db' : Database) → Rewritten db db' → IsVersioned db → IsVersioned db'
Rewritten-IsVersioned db db' (id, f, le, rules, versions) h = record {
  rules_below = rw rules (
      KeysBelow-mono db.next_id db'.next_id (update id f db.rules) le
        (KeysBelow-update db.next_id id f db.rules h.rules_below));
  versions_below =
      rw versions (KeysBelow-mono db.next_id db'.next_id db.rule_versions le h.versions_below);
  owners_below =
      rw versions (OwnersBelow-mono db.next_id db'.next_id db.rule_versions le h.owners_below);
  version_keys = rw versions h.version_keys;
  one_current =
      rw (rules, versions) (HaveCurrent-update db.rule_versions id f db.rules h.one_current);
}

no_version : (n : ℕ) (t : Table RuleVersion) → OwnersBelow n t → current_versions n t ≡ []
no_version n [] h = refl
no_version n ((k, v) ∷ t) h = ground (arith, no_version n t h.1)

OwnersBelow-add :
    (n k : ℕ) (v : RuleVersion) (t : Table RuleVersion)
    → OwnersBelow n t
    → v.rule_id < n
    → OwnersBelow n (add k v t)
OwnersBelow-add n k v [] h lt = (lt, tt)
OwnersBelow-add n k v (row ∷ t) h lt = (h.0, OwnersBelow-add n k v t h.1 lt)

-- A version of a rule that is not in the table leaves the others with one current version.
HaveCurrent-add :
    (k : ℕ) (v : RuleVersion) (versions : Table RuleVersion) (t : Table Rule)
    → KeysBelow v.rule_id t
    → HaveCurrent versions t
    → HaveCurrent (add k v versions) t
HaveCurrent-add k v versions [] below h = tt
HaveCurrent-add k v versions ((j, r) ∷ t) below h = (
  ground (
    arith,
    current_versions-add j k v versions,
    h.0,
    below.0,
    append-nil (current_versions j versions),
  ),
  HaveCurrent-add k v versions t below.1 h.1,
)

Created-IsVersioned :
    (c : Context) (q : RuleRequest) (db db' : Database)
    → Created c q db db'
    → IsVersioned db
    → IsVersioned db'
Created-IsVersioned c q db db' (next, rules, versions) h =
    let n = db.next_id in
    let v = new_version c n 1 q.definition q.severity q.error_message_template in
    let below = KeysBelow-mono n (n + 1) db.rule_versions (omega arith) h.versions_below in
    record {
      rules_below =
          rw (rules, next)
            (KeysBelow-mono (n + 1) (n + 2) _ (omega arith)
              (KeysBelow-next n (new_rule c q) db.rules h.rules_below));
      versions_below =
          rw (versions, next)
            (KeysBelow-add (n + 2) (n + 1) v db.rule_versions
              (KeysBelow-mono n (n + 2) db.rule_versions (omega arith) h.versions_below)
              (omega arith));
      owners_below =
          rw (versions, next)
            (OwnersBelow-add (n + 2) (n + 1) v db.rule_versions
              (OwnersBelow-mono n (n + 2) _ (omega arith) h.owners_below) (omega arith));
      version_keys = rw versions (
          UniqueKeys-add (n + 1) v db.rule_versions h.version_keys
            (lookup-KeysBelow (n + 1) db.rule_versions below));
      one_current =
          rw (rules, versions)
            (All-append
              (λ row. length (current_versions row.0 (add (n + 1) v db.rule_versions)) ≡ 1) db.rules
              ((n, new_rule c q) ∷ [])
              (HaveCurrent-add (n + 1) v db.rule_versions db.rules h.rules_below h.one_current)
              (
                ground (
                  arith,
                  current_versions-add n (n + 1) v db.rule_versions,
                  no_version n db.rule_versions h.owners_below,
                ),
                tt,
              ));
    }

KeysBelow-retire :
    (n : ℕ) (current : Option (ℕ × RuleVersion)) (t : Table RuleVersion)
    → KeysBelow n t
    → KeysBelow n (retire current t)
KeysBelow-retire n none t h = h
KeysBelow-retire n (some (k, v)) t h = KeysBelow-update n k _ t h

OwnersBelow-retire :
    (n : ℕ) (current : Option (ℕ × RuleVersion)) (t : Table RuleVersion)
    → OwnersBelow n t
    → OwnersBelow n (retire current t)
OwnersBelow-retire n none t h = h
OwnersBelow-retire n (some (k, v)) [] h = tt
OwnersBelow-retire n (some (k, v)) ((j, w) ∷ t) h =
    (ground (arith, h.0), OwnersBelow-retire n (some (k, v)) t h.1)

keys-retire :
    (current : Option (ℕ × RuleVersion)) (t : Table RuleVersion) → keys (retire current t) ≡ keys t
keys-retire none t = refl
keys-retire (some (k, v)) t = keys-update k _ t

Published-one :
    (id : ℕ) (db db' : Database)
    → Published id db db'
    → IsVersioned db
    → (j : ℕ) → length (current_versions j db.rule_versions) ≡ 1
    → length (current_versions j db'.rule_versions) ≡ 1
Published-one id db db'
      (r, known, current, absent, one, v, owner, is_new, free, next, rules, versions) h j before =
    rw versions (
      rw (current_versions-add j db.next_id v (retire current db.rule_versions))
        (elim (Bool-cases (id == j)) [
          | inl e ↦
              let same = eq_of_beq id j e in
              let retired =
                current_versions-retire id db.rule_versions h.version_keys current absent one in
              ground (arith, e, same, owner, is_new, retired)
          | inr e ↦
              let kept =
                current_versions-retire_other id db.rule_versions h.version_keys j current e one in
              ground
                (arith, e, owner, kept, before, append-nil (current_versions j db.rule_versions))
        ]))

Published-IsVersioned :
    (id : ℕ) (db db' : Database) → Published id db db' → IsVersioned db → IsVersioned db'
Published-IsVersioned id db db' p h =
    let (r, known, current, absent, one, v, owner, is_new, free, next, rules, versions) = p in
    record {
      rules_below =
          rw (rules, next)
            (KeysBelow-mono db.next_id (db.next_id + 1) db.rules (omega arith) h.rules_below);
      versions_below =
          rw (versions, next)
            (KeysBelow-next db.next_id v _
              (KeysBelow-retire db.next_id current db.rule_versions h.versions_below));
      owners_below =
          rw (versions, next)
            (OwnersBelow-add (db.next_id + 1) db.next_id v _
              (OwnersBelow-mono db.next_id (db.next_id + 1) _ (omega arith)
                (OwnersBelow-retire db.next_id current db.rule_versions h.owners_below))
              (rw owner
                (omega (arith, below-KeysBelow db.next_id id r db.rules known h.rules_below))));
      version_keys = rw versions (
          UniqueKeys-add db.next_id v (retire current db.rule_versions)
            (rw (keys-retire current db.rule_versions) h.version_keys)
            (lookup-KeysBelow db.next_id _
              (KeysBelow-retire db.next_id current db.rule_versions h.versions_below)));
      one_current =
          rw rules (All-imp _ _ db.rules (λ row. Published-one id db db' p h row.0) h.one_current);
    }

-- Where every rule has exactly one current version, keys are unique and were given out before,
-- each of the five calls of the service leaves it so, whether or not it raises.
pub after_call-IsVersioned :
    (c : Context) (rule_call : RuleCall) (db : Database)
    → IsVersioned db
    → IsVersioned (after_call c rule_call db)
after_call-IsVersioned c (create_call q) db h = elim (create-cases c q db) [
  | inl same ↦ rw same h
  | inr written ↦ Created-IsVersioned c q db _ written h
]
after_call-IsVersioned c (update_call id description category status) db h =
    elim (update-cases c id description category status db) [
      | inl same ↦ rw same h
      | inr written ↦ Rewritten-IsVersioned db _ written h
    ]
after_call-IsVersioned c (publish_call id definition severity template) db h =
    elim (publish-cases c id definition severity template db) [
      | inl same ↦ rw same h
      | inr written ↦ Published-IsVersioned id db _ written h
    ]
after_call-IsVersioned c (promote_call id) db h = elim (promote-cases c id db) [
  | inl same ↦ rw same h
  | inr written ↦ Rewritten-IsVersioned db _ written h
]
after_call-IsVersioned c (dismiss_call id) db h = elim (dismiss-cases c id db) [
  | inl same ↦ rw same h
  | inr written ↦ Rewritten-IsVersioned db _ written h
]
