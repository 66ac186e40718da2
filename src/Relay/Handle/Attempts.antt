-- ===== src/Relay/Handle/Attempts.antt =====
-- Induction over the turns of the loop of `handle`.
use transparent_gateway.Prelude.{
  ℕ, ◌≡◌, refl, true, false, Option, none, some, List, [], ◌∷◌, Text, nat_eq, text_eq, Bool-cases,
  inl, inr,
}
use transparent_gateway.Python.{Exception, Result, ok, err, Value, Fields, Runtime}
use transparent_gateway.Wire.{Conn}
use transparent_gateway.Credentials.{CredentialStore}
use transparent_gateway.Relay.Pool.{Pool, pool_key, choose, record_result}
use transparent_gateway.Relay.Handle.{
  Attempt, connected, exhausted, raised, Run, is_caught_attempt, settle, turn, connect_loop,
}

module _ (R : Runtime) (sha256 : Text → Text) (loads : Text → Option Value)
    (target : Text × ℕ) where
  abbrev pub chosen_by : Pool → Attempt → List Text → Option Fields × Pool
  chosen_by pool a tried = choose R loads pool a.moment target.1 tried

  -- What is needed to conclude by induction over the turns: an invariant of the turns that are left,
  -- the keys that were tried and the pool, which gives the conclusion however the loop ends.
  pub record Induction (Inv : List Attempt → List Text → Pool → Type 0) (Post : Run → Type 0)
      : Type 0 where
    pub keep :
        (a : Attempt) (later : List Attempt) (tried : List Text) (pool : Pool)
        → Inv (a ∷ later) tried pool
        → Inv (a ∷ later) tried (chosen_by pool a tried).1
    pub stop :
        (later : List Attempt) (tried : List Text) (pool : Pool) (store : CredentialStore)
        → Inv later tried pool
        → Post (record { outcome = exhausted; pool = pool; store = store; tried = tried })
    pub success :
        (a : Attempt) (later : List Attempt) (tried : List Text) (pool : Pool) (c : Fields)
        (conn : Conn) (store : CredentialStore)
        → Inv (a ∷ later) tried pool
        → (chosen_by pool a tried).0 ≡ some c
        → Post (record {
          outcome = connected conn;
          pool = record_result R loads (chosen_by pool a tried).1 c target.1 true a.ready;
          store = store;
          tried = pool_key R loads c ∷ tried;
        })
    pub other :
        (a : Attempt) (later : List Attempt) (tried : List Text) (pool : Pool) (c : Fields)
        (e : Exception) (store : CredentialStore)
        → Inv (a ∷ later) tried pool
        → (chosen_by pool a tried).0 ≡ some c
        → is_caught_attempt e ≡ false
        → Post (record {
          outcome = raised e;
          pool = (chosen_by pool a tried).1;
          store = store;
          tried = pool_key R loads c ∷ tried;
        })
    pub failure :
        (a : Attempt) (later : List Attempt) (tried : List Text) (pool : Pool) (c : Fields)
        → Inv (a ∷ later) tried pool
        → (chosen_by pool a tried).0 ≡ some c
        → Inv later
            (pool_key R loads c ∷ tried)
            (record_result R loads (chosen_by pool a tried).1 c target.1 false a.ready)

  module _ (Inv : List Attempt → List Text → Pool → Type 0) (Post : Run → Type 0)
      (I : Induction Inv Post) where
    settle-Post :
        (next : Pool → CredentialStore → List Text → Run) (a : Attempt) (later : List Attempt)
        (tried : List Text) (pool : Pool) (c : Fields) (r : Result Conn) (store : CredentialStore)
        → ((p : Pool) (s : CredentialStore) (t : List Text) → Inv later t p → Post (next p s t))
        → Inv (a ∷ later) tried pool
        → (chosen_by pool a tried).0 ≡ some c
        → Post (
            settle R sha256 loads next target a
              (chosen_by pool a tried).1
              (pool_key R loads c ∷ tried)
              c
              r
              store)
    unfolding settle
    settle-Post next a later tried pool c (ok conn) store then_Post inv h =
        I.success a later tried pool c conn store inv h
    settle-Post next a later tried pool c (err e) store then_Post inv h =
        elim (Bool-cases (is_caught_attempt e)) [
          | inl caught ↦ rw caught (then_Post _ store _ (I.failure a later tried pool c inv h))
          | inr escaped ↦ rw escaped (I.other a later tried pool c e store inv h escaped)
        ]

    turn-Post :
        (next : Pool → CredentialStore → List Text → Run) (a : Attempt) (later : List Attempt)
        (tried : List Text) (pool : Pool) (o : Option Fields) (store : CredentialStore)
        → ((p : Pool) (s : CredentialStore) (t : List Text) → Inv later t p → Post (next p s t))
        → Inv (a ∷ later) tried pool
        → (chosen_by pool a tried).0 ≡ o
        → Post (turn R sha256 loads next target a store tried o (chosen_by pool a tried).1)
    unfolding turn
    turn-Post next a later tried pool none store then_Post inv h =
        I.stop (a ∷ later) tried _ store (I.keep a later tried pool inv)
    turn-Post next a later tried pool (some c) store then_Post inv h =
        settle-Post next a later tried pool c _ _ then_Post inv h

    pub connect_loop-Post :
        (attempts : List Attempt) (pool : Pool) (store : CredentialStore) (tried : List Text)
        → Inv attempts tried pool
        → Post (connect_loop R sha256 loads target attempts pool store tried)
    unfolding connect_loop
    connect_loop-Post [] pool store tried inv = I.stop [] tried pool store inv
    connect_loop-Post (a ∷ later) pool store tried inv =
        turn-Post (λ p s t. connect_loop R sha256 loads target later p s t) a later tried pool _
          store (λ p s t i. connect_loop-Post later p s t i) inv refl
