-- ===== src/Auth/Indexed.antt =====
-- The set of a user's tokens names the live tokens of the user, whatever the token store is asked.
use datacraft_backend.Prelude.{
  ℕ, ◌+◌, ◌<◌, ◌≡◌, inl, inr, refl, true, none, some, arith, nat_eq, string_eq, option_eq, ◌==◌,
  beq_refl, eq_of_beq, Bool-cases, Option-cases, if◌then◌else◌, member,
}
use datacraft_backend.Auth.Redis.{token_key, TokenRedis}
use datacraft_backend.Auth.Tokens.{Jwt, World, issue, consume, revoke, revoke_all_for_user}
use datacraft_backend.Auth.Effects.{
  hget-issue, smembers-issue, hget-revoke, smembers-revoke, hget-revoke_all_for_user,
  smembers-revoke_all_for_user, consume-cases,
}

-- What the token store is asked, and Redis dropping a token whose time to live has ended.
pub data TokenCall : Type 0 where
  issue_call : ℕ → ℕ → TokenCall
  consume_call : ℕ → TokenCall
  revoke_call : ℕ → ℕ → TokenCall
  revoke_all_call : ℕ → TokenCall
  lapse : ℕ → TokenCall

module _ (redis : TokenRedis) where
  abbrev pub after_token_call : Jwt → ℕ → TokenCall → World redis.Store → World redis.Store
  after_token_call jwt ttl (issue_call now u) w = (issue redis jwt ttl now u w).1
  after_token_call jwt ttl (consume_call j) w = record w { store = (consume redis j w.store).1 }
  after_token_call jwt ttl (revoke_call j u) w = record w { store = revoke redis j u w.store }
  after_token_call jwt ttl (revoke_all_call u) w = record w {
    store = revoke_all_for_user redis u w.store;
  }
  after_token_call jwt ttl (lapse j) w = record w { store = (redis.delete (token_key j) w.store).1 }

  -- A live token is in the set of its user and in no other, and token identifiers are not given out
  -- twice.
  pub record IsIndexed (w : World redis.Store) : Type 0 where
    pub listed :
        (j u : ℕ) → redis.hget j w.store ≡ some u → member j (redis.smembers u w.store) ≡ true
    pub owned :
        (j u v : ℕ)
        → member j (redis.smembers u w.store) ≡ true
        → redis.hget j w.store ≡ some v
        → u ≡ v
    pub issued : (j u : ℕ) → redis.hget j w.store ≡ some u → j < w.next_jti
    pub issued_member : (j u : ℕ) → member j (redis.smembers u w.store) ≡ true → j < w.next_jti

  pub issue_next :
      (jwt : Jwt) (ttl now u : ℕ) (w : World redis.Store)
      → (issue redis jwt ttl now u w).1.next_jti ≡ w.next_jti + 1
  unfolding issue
  issue_next jwt ttl now u w = refl

  issue-IsIndexed :
      (jwt : Jwt) (ttl now u : ℕ) (w : World redis.Store)
      → IsIndexed w
      → IsIndexed (issue redis jwt ttl now u w).1
  issue-IsIndexed jwt ttl now u w h = record {
    listed = λ j v live. ground (
      arith,
      live,
      hget-issue redis jwt ttl now u j w,
      smembers-issue redis jwt ttl now u j v w,
      h.listed j v,
    );
    owned = λ j v x listed live. ground (
      arith,
      listed,
      live,
      hget-issue redis jwt ttl now u j w,
      smembers-issue redis jwt ttl now u j v w,
      h.owned j v x,
      h.issued j x,
      h.issued_member j v,
    );
    issued = λ j v live.
        ground (
          arith,
          live,
          issue_next jwt ttl now u w,
          hget-issue redis jwt ttl now u j w,
          h.issued j v,
        );
    issued_member = λ j v listed. ground (
      arith,
      listed,
      issue_next jwt ttl now u w,
      smembers-issue redis jwt ttl now u j v w,
      h.issued_member j v,
    );
  }

  revoke-IsIndexed :
      (k u : ℕ) (w : World redis.Store)
      → IsIndexed w
      → IsIndexed (record w { store = revoke redis k u w.store })
  revoke-IsIndexed k u w h = record {
    listed = λ j v live. ground (
      arith,
      live,
      hget-revoke redis k u j w.store,
      smembers-revoke redis k u j v w.store,
      h.listed j v,
    );
    owned = λ j v x listed live. ground (
      arith,
      listed,
      live,
      hget-revoke redis k u j w.store,
      smembers-revoke redis k u j v w.store,
      h.owned j v x,
    );
    issued = λ j v live. ground (arith, live, hget-revoke redis k u j w.store, h.issued j v);
    issued_member = λ j v listed.
        ground (arith, listed, smembers-revoke redis k u j v w.store, h.issued_member j v);
  }

  revoke_all-IsIndexed :
      (u : ℕ) (w : World redis.Store)
      → IsIndexed w
      → IsIndexed (record w { store = revoke_all_for_user redis u w.store })
  revoke_all-IsIndexed u w h = record {
    listed = λ j v live. ground (
      arith,
      live,
      hget-revoke_all_for_user redis u j w.store,
      smembers-revoke_all_for_user redis u v w.store,
      h.listed j v,
    );
    owned = λ j v x listed live. ground (
      arith,
      listed,
      live,
      hget-revoke_all_for_user redis u j w.store,
      smembers-revoke_all_for_user redis u v w.store,
      h.owned j v x,
    );
    issued =
        λ j v live. ground (arith, live, hget-revoke_all_for_user redis u j w.store, h.issued j v);
    issued_member = λ j v listed.
        ground (arith, listed, smembers-revoke_all_for_user redis u v w.store, h.issued_member j v);
  }

  lapse-IsIndexed :
      (k : ℕ) (w : World redis.Store)
      → IsIndexed w
      → IsIndexed (record w { store = (redis.delete (token_key k) w.store).1 })
  lapse-IsIndexed k w h = record {
    listed = λ j v live. ground (
      arith,
      live,
      redis.hget-delete_token j k w.store,
      redis.smembers-delete_token v k w.store,
      h.listed j v,
    );
    owned = λ j v x listed live. ground (
      arith,
      listed,
      live,
      redis.hget-delete_token j k w.store,
      redis.smembers-delete_token v k w.store,
      h.owned j v x,
    );
    issued = λ j v live. ground (arith, live, redis.hget-delete_token j k w.store, h.issued j v);
    issued_member = λ j v listed.
        ground (arith, listed, redis.smembers-delete_token v k w.store, h.issued_member j v);
  }

  -- Where a live token is in the set of its user and in no other and identifiers are not given out
  -- twice, each operation of the token store leaves it so, and so does a token that lapses.
  pub after_token_call-IsIndexed :
      (jwt : Jwt) (ttl : ℕ) (token_call : TokenCall) (w : World redis.Store)
      → IsIndexed w
      → IsIndexed (after_token_call jwt ttl token_call w)
  after_token_call-IsIndexed jwt ttl (issue_call now u) w h = issue-IsIndexed jwt ttl now u w h
  after_token_call-IsIndexed jwt ttl (consume_call j) w h = elim (consume-cases redis j w.store) [
    | inl (_, e) ↦ rw e h
    | inr (u, _, e) ↦ rw e (revoke-IsIndexed j u w h)
  ]
  after_token_call-IsIndexed jwt ttl (revoke_call j u) w h = revoke-IsIndexed j u w h
  after_token_call-IsIndexed jwt ttl (revoke_all_call u) w h = revoke_all-IsIndexed u w h
  after_token_call-IsIndexed jwt ttl (lapse j) w h = lapse-IsIndexed j w h

  -- In a store whose tokens are indexed, `revoke_all_for_user` ends every token of the user, and
  -- leaves every other token as it was.
  pub revoke_all_for_user_lem :
      (u j : ℕ) (w : World redis.Store)
      → IsIndexed w
      → redis.hget j (revoke_all_for_user redis u w.store)
        ≡ (if redis.hget j w.store == some u then none else redis.hget j w.store)
  revoke_all_for_user_lem u j w h = elim (Option-cases (redis.hget j w.store)) [
    | inl e ↦ ground (arith, e, hget-revoke_all_for_user redis u j w.store)
    | inr (v, e) ↦ elim (Bool-cases (member j (redis.smembers u w.store))) [
      | inl m ↦
          ground
            (arith, e, m, hget-revoke_all_for_user redis u j w.store, h.owned j u v m e, beq_refl v)
      | inr m ↦ elim (Bool-cases (v == u)) [
        | inl same ↦ absurd (ground (arith, m, e, eq_of_beq v u same, h.listed j v e))
        | inr differ ↦ ground (arith, e, m, differ, hget-revoke_all_for_user redis u j w.store)
      ]
    ]
  ]
