-- ===== src/Auth/Race.antt =====
-- Calls of `consume` at one time: their Redis commands in any order, other calls between them.
use datacraft_backend.Prelude.{
  ℕ, ◌+◌, ◌<◌, ◌≤◌, ◌≡◌, inl, inr, Bool, true, false, List, [], ◌∷◌, none, some, arith, length,
  nat_eq, string_eq, option_eq, beq_refl, Option-cases, filter, if◌then◌else◌, is_some, suc, zero,
  pair_eq,
}
use datacraft_backend.Auth.Redis.{token_key, TokenRedis}
use datacraft_backend.Auth.Tokens.{Jwt, World, consume}
use datacraft_backend.Auth.Effects.{
  hget-issue, hget-revoke, hget-revoke_all_for_user, consume-cases,
}
use datacraft_backend.Auth.Indexed.{
  TokenCall, issue_call, consume_call, revoke_call, revoke_all_call, lapse, after_token_call,
  issue_next,
}

-- Where a call of `consume` stands: before `hget`, before `delete`, before `srem`, or returned.
pub data Phase : Type 0 where
  reading : Phase
  deleting unlisting won : ℕ → Phase
  refused : Phase

-- The key was deleted by this call.
abbrev pub has_token : Phase → Bool
has_token (unlisting u) = true
has_token (won u) = true
has_token _ = false

-- One of the calls sends its next command, or the store is asked something else.
pub data Event : Type 0 where
  client : ℕ → Event
  other : TokenCall → Event

module _ (redis : TokenRedis) (jti : ℕ) where
  -- the next command of a call
  unfoldable pub consume_step : Phase → redis.Store → Phase × redis.Store
  consume_step reading s = elim (redis.hget jti s) [
    | none ↦ (refused, s)
    | some u ↦ (deleting u, s)
  ]
  consume_step (deleting u) s =
      let (deleted, s') = redis.delete (token_key jti) s in
      if deleted then (unlisting u, s') else (refused, s')
  consume_step (unlisting u) s = (won u, redis.srem u jti s)
  consume_step (won u) s = (won u, s)
  consume_step refused s = (refused, s)

  -- the call at the given place in the list
  unfoldable pub client_step : ℕ → List Phase → redis.Store → List Phase × redis.Store
  unfolding consume_step
  client_step i [] s = ([], s)
  client_step zero (p ∷ ps) s = let (p', s') = consume_step p s in (p' ∷ ps, s')
  client_step (suc i) (p ∷ ps) s = let (ps', s') = client_step i ps s in (p ∷ ps', s')

  unfoldable pub race :
      Jwt → ℕ → List Event → List Phase → World redis.Store → List Phase × World redis.Store
  unfolding client_step
  race jwt ttl [] ps w = (ps, w)
  race jwt ttl (client i ∷ events) ps w =
      let (ps', s') = client_step i ps w.store in race jwt ttl events ps' (record w { store = s' })
  race jwt ttl (other token_call ∷ events) ps w =
      race jwt ttl events ps (after_token_call redis jwt ttl token_call w)

  -- what is left to win, and what was won
  abbrev live : redis.Store → ℕ
  live s = if is_some (redis.hget jti s) then 1 else 0

  abbrev stock : List Phase → redis.Store → ℕ
  stock ps s = length (filter has_token ps) + live s

  consume_step-stock :
      (p : Phase) (ps : List Phase) (s : redis.Store)
      → let (p', s') = consume_step p s in stock (p' ∷ ps) s' ≤ stock (p ∷ ps) s
  unfolding consume_step
  consume_step-stock reading ps s = ground arith
  consume_step-stock (deleting u) ps s =
      ground (arith, redis.delete_was_there jti s, redis.hget-delete_token jti jti s, beq_refl jti)
  consume_step-stock (unlisting u) ps s = ground (arith, redis.hget-srem jti u jti s)
  consume_step-stock (won u) ps s = ground arith
  consume_step-stock refused ps s = ground arith

  client_step-stock :
      (i : ℕ) (ps : List Phase) (s : redis.Store)
      → let (ps', s') = client_step i ps s in stock ps' s' ≤ stock ps s
  unfolding client_step
  client_step-stock i [] s = ground arith
  client_step-stock zero (p ∷ ps) s = consume_step-stock p ps s
  client_step-stock (suc i) (p ∷ ps) s = ground (arith, client_step-stock i ps s)

  -- No other call brings the token back: its identifier was given out before.
  after_token_call-live :
      (jwt : Jwt) (ttl : ℕ) (token_call : TokenCall) (w : World redis.Store)
      → jti < w.next_jti
      → let w' = after_token_call redis jwt ttl token_call w in
        (live w'.store ≤ live w.store) × (w.next_jti ≤ w'.next_jti)
  after_token_call-live jwt ttl (issue_call now u) w lt =
      ground (arith, hget-issue redis jwt ttl now u jti w, issue_next redis jwt ttl now u w)
  after_token_call-live jwt ttl (consume_call j) w lt = elim (consume-cases redis j w.store) [
    | inl (_, e) ↦ ground (arith, e)
    | inr (u, _, e) ↦ ground (arith, e, hget-revoke redis j u jti w.store)
  ]
  after_token_call-live jwt ttl (revoke_call j u) w lt =
      ground (arith, hget-revoke redis j u jti w.store)
  after_token_call-live jwt ttl (revoke_all_call u) w lt =
      ground (arith, hget-revoke_all_for_user redis u jti w.store)
  after_token_call-live jwt ttl (lapse j) w lt =
      ground (arith, redis.hget-delete_token jti j w.store)

  race-stock :
      (jwt : Jwt) (ttl : ℕ) (events : List Event) (ps : List Phase) (w : World redis.Store)
      → jti < w.next_jti
      → let (ps', w') = race jwt ttl events ps w in stock ps' w'.store ≤ stock ps w.store
  unfolding race
  race-stock jwt ttl [] ps w lt = omega arith
  race-stock jwt ttl (client i ∷ events) ps w lt =
      let (ps', s') = client_step i ps w.store in
      omega (
        arith,
        client_step-stock i ps w.store,
        race-stock jwt ttl events ps' (record w { store = s' }) lt,
      )
  race-stock jwt ttl (other token_call ∷ events) ps w lt =
      let after = after_token_call-live jwt ttl token_call w lt in
      omega (
        arith,
        after.0,
        after.1,
        race-stock jwt ttl events ps (after_token_call redis jwt ttl token_call w) (omega arith),
      )

  -- However the commands of the calls that consume one token, none of which has begun, are ordered
  -- among each other and among other calls of the token store, at most one of them has deleted the
  -- token, and so at most one returns its user. The token was issued before.
  pub race_one :
      (jwt : Jwt) (ttl : ℕ) (events : List Event) (ps : List Phase) (w : World redis.Store)
      → jti < w.next_jti
      → filter has_token ps ≡ []
      → length (filter has_token (race jwt ttl events ps w).0) ≤ 1
  race_one jwt ttl events ps w lt fresh = ground (arith, race-stock jwt ttl events ps w lt)

  -- A call of `consume` whose three commands meet no other is the function `consume`.
  consume_refines :
      (jwt : Jwt) (ttl : ℕ) (w : World redis.Store)
      → let outcome = race jwt ttl (client 0 ∷ client 0 ∷ client 0 ∷ []) (reading ∷ []) w in
        let (result, s') = consume redis jti w.store in
        (outcome.0 ≡ (elim result [ none ↦ refused | some u ↦ won u ]) ∷ [])
        × (outcome.1.store ≡ s')
  unfolding race consume
  consume_refines jwt ttl w = elim (Option-cases (redis.hget jti w.store)) [
    | inl e ↦ (ground (arith, e), ground (arith, e))
    | inr (u, e) ↦ (
      ground (arith, e, redis.delete_was_there jti w.store),
      ground (arith, e, redis.delete_was_there jti w.store),
    )
  ]
