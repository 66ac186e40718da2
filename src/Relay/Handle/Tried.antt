-- ===== src/Relay/Handle/Tried.antt =====
-- Which upstreams the loop of `handle` tries, and what it notes of them.
use transparent_gateway.Prelude.{
  ℕ, ◌≤◌, ◌<◌, ◌≡◌, refl, sym, subst, ◌∙◌, Bool, true, false, Option, some, List, [], ◌∷◌, arith,
  Text, nat_eq, text_eq, text_beq_iff, contains, All, if◌then◌else◌,
}
use transparent_gateway.Python.{Value, Fields, Runtime}
use transparent_gateway.Credentials.{CredentialStore}
use transparent_gateway.Relay.Pool.{
  Pool, Moment, until, pool_key, pick, refresh, choose, record_result,
}
use transparent_gateway.Relay.Pool.Choice.{choose-IsUsable}
use transparent_gateway.Relay.Pool.Cooldown.{until-record_result, refresh-failures}
use transparent_gateway.Relay.Handle.{
  Attempt, Outcome, connected, exhausted, raised, is_caught_attempt, connect_loop,
}
use transparent_gateway.Relay.Handle.Attempts.{Induction, connect_loop-Post}

module _ (R : Runtime) (sha256 : Text → Text) (loads : Text → Option Value)
    (target : Text × ℕ) where
  is_fresh :
      (a : Attempt) (pool : Pool) (tried : List Text) (c : Fields)
      → (choose R loads pool a.moment target.1 tried).0 ≡ some c
      → contains tried (pool_key R loads c) ≡ false
  is_fresh a pool tried c h = (choose-IsUsable R loads pool a.moment target.1 tried c h).fresh

  pick-failures : (pool : Pool) (es : List Fields) → (pick pool es).1.failures ≡ pool.failures
  unfolding pick
  pick-failures pool [] = refl
  pick-failures pool (e ∷ es) = refl

  choose-failures :
      (pool : Pool) (m : Moment) (excluded : List Text)
      → (choose R loads pool m target.1 excluded).1.failures ≡ pool.failures
  unfolding choose
  choose-failures pool m excluded =
      pick-failures (refresh R loads pool m) _ ∙ refresh-failures R loads pool m

  -- The upstreams of these keys have a failure noted for the port whose cooldown is not over at t.
  abbrev pub AreAway : ℕ → Pool → List Text → Type 0
  AreAway t pool keys = All (λ k. t < until pool.failures k target.1) keys

  away_other :
      (t ready : ℕ) (success : Bool) (pool : Pool) (c : Fields) (keys : List Text)
      → contains keys (pool_key R loads c) ≡ false
      → AreAway t pool keys
      → AreAway t (record_result R loads pool c target.1 success ready) keys
  away_other t ready success pool c [] new away = tt
  away_other t ready success pool c (k ∷ keys) new away = (
    ground (
      arith,
      away.0,
      until-record_result R loads pool c target.1 success ready k target.1,
      text_beq_iff (pool_key R loads c) k,
      text_beq_iff k (pool_key R loads c),
    ),
    away_other t ready success pool c keys (ground (arith, new)) away.1,
  )

  own_time :
      (ready : ℕ) (success : Bool) (pool : Pool) (c : Fields)
      → until
          (record_result R loads pool c target.1 success ready).failures
          (pool_key R loads c)
          target.1
        ≡ (if success then 0 else ready)
  own_time ready success pool c = ground (
    arith,
    until-record_result R loads pool c target.1 success ready (pool_key R loads c) target.1,
    text_beq_iff (pool_key R loads c) (pool_key R loads c),
  )

  away_kept :
      (t : ℕ) (pool : Pool) (m : Moment) (keys : List Text)
      → AreAway t pool keys
      → AreAway t (choose R loads pool m target.1 keys).1 keys
  away_kept t pool m keys away =
      subst (λ fs. All (λ k. t < until fs k target.1) keys) (sym (choose-failures pool m keys)) away

  -- A choice leaves the time of its upstream, which is over.
  still_usable :
      (t : ℕ) (a : Attempt) (pool : Pool) (tried : List Text) (c : Fields)
      → (choose R loads pool a.moment target.1 tried).0 ≡ some c
      → a.moment.now ≤ t
      → until (choose R loads pool a.moment target.1 tried).1.failures (pool_key R loads c) target.1
        ≤ t
  still_usable t a pool tried c h early =
      let usable = choose-IsUsable R loads pool a.moment target.1 tried c h in
      let over : until pool.failures (pool_key R loads c) target.1 ≤ a.moment.now =
        subst (λ fs. until fs (pool_key R loads c) target.1 ≤ a.moment.now)
          (refresh-failures R loads pool a.moment) usable.ready in
      subst (λ fs. until fs (pool_key R loads c) target.1 ≤ t)
        (sym (choose-failures pool a.moment tried)) (omega arith)

  -- What is noted at the end t of the loop: every upstream that was tried is away if none accepted;
  -- all but the last one, which may be used at once, if that one accepted; all but the last one,
  -- which may be used too, if that one raised what the loop does not catch.
  pub IsNoted : ℕ → Outcome → Pool → List Text → Type 0
  IsNoted t exhausted pool keys = AreAway t pool keys
  IsNoted t (connected conn) pool (k ∷ keys) =
      (until pool.failures k target.1 ≡ 0) × AreAway t pool keys
  IsNoted t (raised e) pool (k ∷ keys) =
      (until pool.failures k target.1 ≤ t) × AreAway t pool keys × (is_caught_attempt e ≡ false)
  IsNoted t (connected conn) pool [] = ⊥
  IsNoted t (raised e) pool [] = ⊥

  -- The clock passes t neither before a turn chooses nor after its cooldown.
  abbrev pub AreTimely : ℕ → List Attempt → Type 0
  AreTimely t attempts = All (λ a. (a.moment.now ≤ t) × (t < a.ready)) attempts

  IsNoted-turns :
      (t : ℕ)
      → Induction R sha256 loads target
          (λ later tried pool. AreTimely t later × AreAway t pool tried)
          (λ run. IsNoted t run.outcome run.pool run.tried)
  unfolding IsNoted
  IsNoted-turns t = record {
    keep = λ a later tried pool inv. (inv.0, away_kept t pool a.moment tried inv.1);
    stop = λ later tried pool store inv. inv.1;
    success = λ a later tried pool c conn store inv h. (
      own_time a.ready true _ c,
      away_other t a.ready true _ c tried (is_fresh a pool tried c h)
          (away_kept t pool a.moment tried inv.1),
    );
    other = λ a later tried pool c e store inv h escaped.
        (still_usable t a pool tried c h inv.0.0.0, away_kept t pool a.moment tried inv.1, escaped);
    failure = λ a later tried pool c inv h. (
      inv.0.1,
      (
        subst (λ n. t < n) (sym (own_time a.ready false _ c)) inv.0.0.1,
        away_other t a.ready false _ c tried (is_fresh a pool tried c h)
            (away_kept t pool a.moment tried inv.1),
      ),
    );
  }

  -- If the loop ends at t, before the cooldown of any of its turns, then every upstream that it
  -- tried is away for the port of the target, but for the last one if that one accepted, or if that
  -- one raised an exception that is neither an OSError nor a ValueError.
  pub connect_loop-IsNoted :
      (t : ℕ) (attempts : List Attempt) (pool : Pool) (store : CredentialStore)
      → AreTimely t attempts
      → IsNoted t
          (connect_loop R sha256 loads target attempts pool store []).outcome
          (connect_loop R sha256 loads target attempts pool store []).pool
          (connect_loop R sha256 loads target attempts pool store []).tried
  connect_loop-IsNoted t attempts pool store timely =
      connect_loop-Post R sha256 loads target _ _ (IsNoted-turns t) attempts pool store []
        (timely, tt)
