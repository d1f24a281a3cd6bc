-- ===== src/Auth/Held.antt =====
-- Who holds a live token while calls of `consume` race for it.
use datacraft_backend.Prelude.{
  ℕ, ◌≡◌, ◌⊎◌, inl, inr, refl, ◌∙◌, Bool, true, false, List, [], ◌∷◌, map, none, some, arith,
  length, nat_eq, string_eq, option_eq, ◌==◌, beq_refl, all, filter, suc, zero, pair_eq,
}
use datacraft_backend.Auth.Redis.{TokenRedis}
use datacraft_backend.Auth.Tokens.{Jwt, World}
use datacraft_backend.Auth.Race.{
  Phase, reading, deleting, unlisting, won, refused, has_token, client, consume_step, client_step,
  race,
}

-- before a call of the race has deleted the token of the user
abbrev pub is_fresh : ℕ → Phase → Bool
is_fresh u reading = true
is_fresh u (deleting v) = v == u
is_fresh u _ = false

-- and at any time
abbrev pub is_owned : ℕ → Phase → Bool
is_owned u reading = true
is_owned u (deleting v) = v == u
is_owned u (unlisting v) = v == u
is_owned u (won v) = v == u
is_owned u refused = true

fresh-owned : (u : ℕ) (ps : List Phase) → all (is_fresh u) ps ≡ true → all (is_owned u) ps ≡ true
fresh-owned u [] h = refl
fresh-owned u (reading ∷ ps) h = fresh-owned u ps h
fresh-owned u (deleting v ∷ ps) h = ground (arith, h, fresh-owned u ps)
fresh-owned u (unlisting v ∷ ps) h = absurd (ground (arith, h))
fresh-owned u (won v ∷ ps) h = absurd (ground (arith, h))
fresh-owned u (refused ∷ ps) h = absurd (ground (arith, h))

fresh-none : (u : ℕ) (ps : List Phase) → all (is_fresh u) ps ≡ true → filter has_token ps ≡ []
fresh-none u [] h = refl
fresh-none u (reading ∷ ps) h = fresh-none u ps h
fresh-none u (deleting v ∷ ps) h = ground (arith, h, fresh-none u ps)
fresh-none u (unlisting v ∷ ps) h = absurd (ground (arith, h))
fresh-none u (won v ∷ ps) h = absurd (ground (arith, h))
fresh-none u (refused ∷ ps) h = absurd (ground (arith, h))

module _ (redis : TokenRedis) (jti u : ℕ) where
  -- The token is live and nobody has it, or it is gone and one call has it.
  abbrev pub Held : List Phase → redis.Store → Type 0
  Held ps s =
      ((redis.hget jti s ≡ some u) × (all (is_fresh u) ps ≡ true))
      ⊎ ((redis.hget jti s ≡ none)
          × (length (filter has_token ps) ≡ 1)
          × (all (is_owned u) ps ≡ true))

  consume_step-gone :
      (p : Phase) (s : redis.Store)
      → redis.hget jti s ≡ none
      → let (p', s') = consume_step redis jti p s in
        (redis.hget jti s' ≡ none)
        × (has_token p' ≡ has_token p)
        × (is_owned u p ≡ true → is_owned u p' ≡ true)
  unfolding consume_step
  consume_step-gone reading s e = ground (arith, e)
  consume_step-gone (deleting v) s e =
      ground
        (arith, e, redis.delete_was_there jti s, redis.hget-delete_token jti jti s, beq_refl jti)
  consume_step-gone (unlisting v) s e = ground (arith, e, redis.hget-srem jti v jti s)
  consume_step-gone (won v) s e = ground (arith, e)
  consume_step-gone refused s e = ground (arith, e)

  client_step-gone :
      (i : ℕ) (ps : List Phase) (s : redis.Store)
      → redis.hget jti s ≡ none
      → let (ps', s') = client_step redis jti i ps s in
        (redis.hget jti s' ≡ none)
        × (length (filter has_token ps') ≡ length (filter has_token ps))
        × (all (is_owned u) ps ≡ true → all (is_owned u) ps' ≡ true)
  unfolding client_step
  client_step-gone i [] s e = ground (arith, e)
  client_step-gone zero (p ∷ ps) s e = ground (arith, consume_step-gone p s e)
  client_step-gone (suc i) (p ∷ ps) s e = ground (arith, client_step-gone i ps s e)

  consume_step-Held :
      (p : Phase) (ps : List Phase) (s : redis.Store)
      → redis.hget jti s ≡ some u
      → all (is_fresh u) (p ∷ ps) ≡ true
      → let (p', s') = consume_step redis jti p s in Held (p' ∷ ps) s'
  unfolding consume_step
  consume_step-Held reading ps s e h = inl (ground (arith, e), ground (arith, e, h, beq_refl u))
  consume_step-Held (deleting v) ps s e h = inr (
    ground
        (arith, e, redis.delete_was_there jti s, redis.hget-delete_token jti jti s, beq_refl jti),
    ground (arith, e, redis.delete_was_there jti s, fresh-none u ps),
    ground (arith, e, h, redis.delete_was_there jti s, fresh-owned u ps),
  )
  consume_step-Held (unlisting v) ps s e h = absurd (ground (arith, h))
  consume_step-Held (won v) ps s e h = absurd (ground (arith, h))
  consume_step-Held refused ps s e h = absurd (ground (arith, h))

  client_step-Held :
      (i : ℕ) (ps : List Phase) (s : redis.Store)
      → redis.hget jti s ≡ some u
      → all (is_fresh u) ps ≡ true
      → let (ps', s') = client_step redis jti i ps s in Held ps' s'
  unfolding client_step
  client_step-Held i [] s e h = inl (ground (arith, e), refl)
  client_step-Held zero (p ∷ ps) s e h = consume_step-Held p ps s e h
  client_step-Held (suc i) (p ∷ ps) s e h = elim (client_step-Held i ps s e (ground (arith, h))) [
    | inl (live, fresh) ↦ inl (live, ground (arith, h, fresh))
    | inr (gone, one, owned) ↦ inr (
      gone,
      (ground (arith, one, fresh-none u (p ∷ []), h)),
      ground (arith, owned, h, fresh-owned u (p ∷ [])),
    )
  ]

  step-Held :
      (i : ℕ) (ps : List Phase) (s : redis.Store)
      → Held ps s
      → let (ps', s') = client_step redis jti i ps s in Held ps' s'
  step-Held i ps s (inl (live, fresh)) = client_step-Held i ps s live fresh
  step-Held i ps s (inr (gone, one, owned)) =
      let (gone', same, owned') = client_step-gone i ps s gone in
      inr (gone', same ∙ one, owned' owned)

  pub race-Held :
      (jwt : Jwt) (ttl : ℕ) (order : List ℕ) (ps : List Phase) (w : World redis.Store)
      → Held ps w.store
      → let (ps', w') = race redis jti jwt ttl (map client order) ps w in Held ps' w'.store
  unfolding race
  race-Held jwt ttl [] ps w h = h
  race-Held jwt ttl (i ∷ order) ps w h =
      let (ps', s') = client_step redis jti i ps w.store in
      race-Held jwt ttl order ps' (record w { store = s' }) (step-Held i ps w.store h)
