-- ===== src/Relay/Pool/Cooldown.antt =====
-- What `record_result` changes, and how long a failed upstream stays away.
use transparent_gateway.Prelude.{
  ℕ, ◌≤◌, ◌<◌, ◌≡◌, ◌≢◌, Bool, true, false, Option, some, List, [], ◌∷◌, arith, Text, ◌==◌, ◌&&◌,
  nat_eq, text_eq, text_beq_iff, subst, if◌then◌else◌,
}
use transparent_gateway.Python.{Value, Fields, Runtime}
use transparent_gateway.Relay.Pool.{
  Pool, Moment, until, forget, pool_key, refresh, choose, record_result,
}
use transparent_gateway.Relay.Pool.Choice.{choose-IsUsable}

until-forget :
    (fs : List ((Text × ℕ) × ℕ)) (j k : Text) (p q : ℕ)
    → until (forget fs k p) j q ≡ (if k == j && p == q then 0 else until fs j q)
unfolding until forget
until-forget [] j k p q = ground arith
until-forget (((i, r), t) ∷ fs) j k p q =
    ground (arith, until-forget fs j k p q, text_beq_iff i k, text_beq_iff i j, text_beq_iff k j)

module _ (R : Runtime) (loads : Text → Option Value) where
  -- A result sets the time from which its upstream may be used for its port: at once after a
  -- success, when the cooldown ends after a failure. Nothing else changes that time.
  pub until-record_result :
      (pool : Pool) (c : Fields) (port : ℕ) (success : Bool) (ready : ℕ) (key : Text) (p : ℕ)
      → until (record_result R loads pool c port success ready).failures key p ≡ (
          if pool_key R loads c == key && port == p
          then (if success then 0 else ready)
          else until pool.failures key p)
  unfolding record_result until
  until-record_result pool c port true ready key p =
      ground (arith, until-forget pool.failures key (pool_key R loads c) port p)
  until-record_result pool c port false ready key p =
      ground (arith, until-forget pool.failures key (pool_key R loads c) port p)

  pub refresh-failures :
      (pool : Pool) (m : Moment) → (refresh R loads pool m).failures ≡ pool.failures
  unfolding refresh
  refresh-failures pool m = ground arith

  -- After a failure `choose` does not return that upstream for the port before the cooldown ends.
  pub choose_cooldown :
      (pool : Pool) (c : Fields) (port ready : ℕ) (m : Moment) (excluded : List Text) (e : Fields)
      → m.now < ready
      → (choose R loads (record_result R loads pool c port false ready) m port excluded).0 ≡ some e
      → pool_key R loads c ≢ pool_key R loads e
  choose_cooldown pool c port ready m excluded e early h same =
      let failed = record_result R loads pool c port false ready in
      let u = choose-IsUsable R loads failed m port excluded e h in
      let key = pool_key R loads e in
      let kept : until failed.failures key port ≤ m.now =
        subst (λ fs. until fs key port ≤ m.now) (refresh-failures failed m) u.ready in
      ground (
        arith,
        kept,
        until-record_result pool c port false ready key port,
        text_beq_iff (pool_key R loads c) key,
      )
