-- ===== src/Auth/Winner.antt =====
-- Calls of `consume` at one time with a token that is live: one of them gets its user.
use datacraft_backend.Prelude.{
  ℕ, ◌≡◌, inl, inr, refl, ap, ◌∙◌, Bool, true, false, List, [], ◌∷◌, ◌++◌, map, none, some, arith,
  length, All, nat_eq, string_eq, option_eq, eq_of_beq, all, filter, is_empty, suc, zero, pair_eq,
}
use datacraft_backend.Auth.Redis.{TokenRedis}
use datacraft_backend.Auth.Tokens.{Jwt, World}
use datacraft_backend.Auth.Race.{
  Phase, reading, deleting, unlisting, won, refused, has_token, client, client_step, race,
}
use datacraft_backend.Auth.Held.{is_fresh, is_owned, race-Held}

-- The call has returned.
abbrev pub has_returned : Phase → Bool
has_returned (won u) = true
has_returned refused = true
has_returned _ = false

-- One of the calls answered the user, and the others that the token is not valid.
pub record HasWinner (u : ℕ) (ps : List Phase) : Type 0 where
  pub before : List Phase
  pub after : List Phase
  pub split : ps ≡ before ++ won u ∷ after
  pub others : All (λ p. p ≡ refused) (before ++ after)

returned_refused :
    (ps : List Phase)
    → all has_returned ps ≡ true
    → filter has_token ps ≡ []
    → All (λ p. p ≡ refused) ps
returned_refused [] h none_won = tt
returned_refused (reading ∷ ps) h none_won = absurd (ground (arith, h))
returned_refused (deleting v ∷ ps) h none_won = absurd (ground (arith, h))
returned_refused (unlisting v ∷ ps) h none_won = absurd (ground (arith, h))
returned_refused (won v ∷ ps) h none_won = absurd (ground (arith, none_won))
returned_refused (refused ∷ ps) h none_won = (refl, returned_refused ps h none_won)

empty_of_length : {A : Type 0} (xs : List A) → length xs ≡ 0 → xs ≡ []
empty_of_length [] h = refl
empty_of_length (x ∷ xs) h = absurd (ground (arith, h))

returned-HasWinner :
    (u : ℕ) (ps : List Phase)
    → all has_returned ps ≡ true
    → all (is_owned u) ps ≡ true
    → length (filter has_token ps) ≡ 1
    → HasWinner u ps
returned-HasWinner u [] h owned one = absurd (ground (arith, one))
returned-HasWinner u (reading ∷ ps) h owned one = absurd (ground (arith, h))
returned-HasWinner u (deleting v ∷ ps) h owned one = absurd (ground (arith, h))
returned-HasWinner u (unlisting v ∷ ps) h owned one = absurd (ground (arith, h))
returned-HasWinner u (won v ∷ ps) h owned one = record {
  before = [];
  after = ps;
  split = ap (λ x. won x ∷ ps) (eq_of_beq v u (ground (arith, owned)));
  others = returned_refused ps h (empty_of_length (filter has_token ps) (ground (arith, one)));
}
returned-HasWinner u (refused ∷ ps) h owned one =
    let rest = returned-HasWinner u ps h owned one in
    record {
      before = refused ∷ rest.before;
      after = rest.after;
      split = ap (λ x. refused ∷ x) rest.split;
      others = (refl, rest.others);
    }

all_returned_fresh :
    (u : ℕ) (ps : List Phase)
    → all has_returned ps ≡ true
    → all (is_fresh u) ps ≡ true
    → is_empty ps ≡ true
all_returned_fresh u [] h fresh = refl
all_returned_fresh u (reading ∷ ps) h fresh = absurd (ground (arith, h))
all_returned_fresh u (deleting v ∷ ps) h fresh = absurd (ground (arith, h))
all_returned_fresh u (unlisting v ∷ ps) h fresh = absurd (ground (arith, h))
all_returned_fresh u (won v ∷ ps) h fresh = absurd (ground (arith, fresh))
all_returned_fresh u (refused ∷ ps) h fresh = absurd (ground (arith, fresh))

-- so many calls that have not begun
abbrev pub readers : ℕ → List Phase
readers zero = []
readers (suc n) = reading ∷ readers n

readers_fresh : (u n : ℕ) → all (is_fresh u) (readers n) ≡ true
readers_fresh u zero = refl
readers_fresh u (suc n) = readers_fresh u n

module _ (redis : TokenRedis) (jti : ℕ) where
  client_step-is_empty :
      (i : ℕ) (ps : List Phase) (s : redis.Store)
      → is_empty (client_step redis jti i ps s).0 ≡ is_empty ps
  unfolding client_step
  client_step-is_empty i [] s = refl
  client_step-is_empty zero (p ∷ ps) s = refl
  client_step-is_empty (suc i) (p ∷ ps) s = refl

  race-is_empty :
      (jwt : Jwt) (ttl : ℕ) (order : List ℕ) (ps : List Phase) (w : World redis.Store)
      → is_empty (race redis jti jwt ttl (map client order) ps w).0 ≡ is_empty ps
  unfolding race
  race-is_empty jwt ttl [] ps w = refl
  race-is_empty jwt ttl (i ∷ order) ps w =
      let (ps', s') = client_step redis jti i ps w.store in
      race-is_empty jwt ttl order ps' (record w { store = s' }) ∙ client_step-is_empty i ps w.store

  -- When several calls consume one token that is live, at least one of them, and in whatever order
  -- their commands reach Redis, with no command of another kind between them, then once all calls
  -- have returned one of them has answered the user of the token, all others have refused it, and the
  -- token is gone.
  pub race_winner :
      (jwt : Jwt) (ttl n u : ℕ) (order : List ℕ) (w : World redis.Store)
      → redis.hget jti w.store ≡ some u
      → all has_returned (race redis jti jwt ttl (map client order) (readers (suc n)) w).0 ≡ true
      → let (ps, w') = race redis jti jwt ttl (map client order) (readers (suc n)) w in
        HasWinner u ps × (redis.hget jti w'.store ≡ none)
  race_winner jwt ttl n u order w live returned =
      let (ps, w') = race redis jti jwt ttl (map client order) (readers (suc n)) w in
      elim (race-Held redis jti u jwt ttl order (readers (suc n)) w
        (inl (live, readers_fresh u n))) [
          | inl (_, fresh) ↦ absurd (
              cc (
                all_returned_fresh u ps returned fresh,
                race-is_empty jwt ttl order (readers (suc n)) w,
              ))
          | inr (gone, one, owned) ↦ (returned-HasWinner u ps returned owned one, gone)
        ]
