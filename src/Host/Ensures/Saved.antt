-- ===== src/Host/Ensures/Saved.antt =====
-- Saved files, results, handlers and cleanups: what holds of the world behind them.
use transparent_gateway.Prelude.{◌∷◌, ◌≡◌, refl, Bool, true, false, Option, none, some}
use transparent_gateway.Python.{Result, ok, err, Value}
use transparent_gateway.Host.{
  Failure, fault, JsonFile, saved, Reply, returned, raised, killed, Machine, World, Outcome, done,
  failed, dead, Task, lift, look_at, of_result, store, record_event, after_catch, after_cleanup,
  after_finally, finally, saving_outcome, atomic_json, catch,
}
use transparent_gateway.Host.Ensures.{Cond, Raised, Meets, Ensures}

-- Whether a step returned.
abbrev pub is_returned : Reply → Bool
is_returned (returned code output) = true
is_returned _ = false

-- A file of the world that is saved: what holds if it was replaced, and if it was not.
Meets-save :
    (Q : Unit {0} → Cond) (E : Raised) (r : Reply) (b : Bool) (f : JsonFile) (v : Value) (w : World)
    → Q tt (store f v w)
    → ((o : Option Failure) → E o w)
    → (b ≡ true → is_returned r ≡ false → (o : Option Failure) → E o (store f v w))
    → Meets Q E (saving_outcome r b f v w)
Meets-save Q E (returned code output) b f v w saved_ok kept replaced = saved_ok
Meets-save Q E (raised e) true f v w saved_ok kept replaced = replaced refl refl (some (fault e))
Meets-save Q E (raised e) false f v w saved_ok kept replaced = kept (some (fault e))
Meets-save Q E killed true f v w saved_ok kept replaced = replaced refl refl none
Meets-save Q E killed false f v w saved_ok kept replaced = kept none

pub Ensures-save :
    {P : Cond} {Q : Unit {0} → Cond} {E : Raised} (M : Machine) (f : JsonFile) (v : Value)
    → ((w : World) → P w → Q tt (store f v (record_event (saved f v) w)))
    → ((w : World) → P w → (o : Option Failure) → E o (record_event (saved f v) w))
    → ((w : World)
        → P w
        → M.replaced (saved f v ∷ w.trace) ≡ true
        → is_returned (M.reply (saved f v ∷ w.trace)) ≡ false
        → (o : Option Failure) → E o (store f v (record_event (saved f v) w)))
    → Ensures P (atomic_json M f v) Q E
unfolding atomic_json
Ensures-save {Q = Q} {E = E} M f v saved_ok kept replaced = record {
  run = λ w p.
      let w' = record_event (saved f v) w in
      Meets-save Q E (M.reply w'.trace) (M.replaced w'.trace) f v w' (saved_ok w p) (kept w p)
        (replaced w p);
}

Meets-lift :
    {A : Type 0} (P : Cond) (r : Result A) (w : World)
    → P w
    → Meets {A = A} (λ a w. P w × (r ≡ ok a)) (λ _. P) (of_result r, w)
Meets-lift P (ok a) w p = (p, refl)
Meets-lift P (err e) w p = p

-- What a step without effects gives is known behind it.
pub Ensures-lift :
    {A : Type 0} {P : Cond} (r : Result A) → Ensures P (lift r) (λ a w. P w × (r ≡ ok a)) (λ _. P)
unfolding lift
Ensures-lift {P = P} r = record { run = λ w p. Meets-lift P r w p }

Meets-look_at :
    {A : Type 0} (P : Cond) (f : World → Result A) (w : World) (r : Result A)
    → P w
    → f w ≡ r
    → Meets {A = A} (λ a w. P w × (f w ≡ ok a)) (λ _. P) (of_result r, w)
Meets-look_at P f w (ok a) p h = (p, h)
Meets-look_at P f w (err e) p h = p

-- What a look at the host gives is known behind it.
pub Ensures-look_at :
    {A : Type 0} {P : Cond} (f : World → Result A)
    → Ensures P (look_at f) (λ a w. P w × (f w ≡ ok a)) (λ _. P)
unfolding look_at
Ensures-look_at {P = P} f = record { run = λ w p. Meets-look_at P f w (f w) p refl }

-- A fact that does not depend on the world, in front of a step.
pub Ensures-known :
    {A K : Type 0} {P : Cond} {m : Task A} {Q : A → Cond} {E : Raised}
    → (K → Ensures P m Q E)
    → Ensures (λ w. P w × K) m Q E
Ensures-known h = record { run = λ w p. (h p.1).run w p.0 }

-- A world in which a condition holds, and from which a step returns this.
abbrev pub Gives : {A : Type 0} → Cond → Task A → A → Type 0
Gives P m a = (w₁ : World) × (w₂ : World) × P w₁ × (m w₁ ≡ (done a, w₂))

Meets-Gives :
    {A : Type 0} (P : Cond) (m : Task A) (Q : A → Cond) (E : Raised) (w₁ : World)
    (r : Outcome A × World)
    → P w₁
    → m w₁ ≡ r
    → Meets Q E r
    → Meets (λ a w. Q a w × Gives P m a) E r
Meets-Gives P m Q E w₁ (done a, w₂) p e h = (h, (w₁, w₂, p, e))
Meets-Gives P m Q E w₁ (failed f, w₂) p e h = h
Meets-Gives P m Q E w₁ (dead, w₂) p e h = h

-- What a step returns is known to come from it.
pub Ensures-Gives :
    {A : Type 0} {P : Cond} {m : Task A} {Q : A → Cond} {E : Raised}
    → Ensures P m Q E
    → Ensures P m (λ a w. Q a w × Gives P m a) E
Ensures-Gives {P = P} {m = m} {Q = Q} {E = E} h = record {
  run = λ w p. Meets-Gives P m Q E w (m w) p refl (h.run w p);
}

module _ {A : Type 0} {G : Cond} {Q : A → Cond} {E : Raised} where
  Meets-catch_all :
      (caught : Failure → Bool) (handler : Failure → Task A)
      → ((e : Failure) → caught e ≡ true)
      → ((w : World) → G w → E none w)
      → ((e : Failure) → Ensures G (handler e) Q E)
      → (r : Outcome A × World) → Meets Q (λ _. G) r
      → Meets Q E (after_catch caught handler r)
  Meets-catch_all caught handler all dead_ok handled (done a, w) h = h
  Meets-catch_all caught handler all dead_ok handled (dead, w) h = dead_ok w h
  Meets-catch_all caught handler all dead_ok handled (failed e, w) h =
      rw (all e) ((handled e).run w h)

-- A handler that catches all, behind a step that raises under one condition.
pub Ensures-catch_all :
    {A : Type 0} {P G : Cond} {Q : A → Cond} {E : Raised} (caught : Failure → Bool) (m : Task A)
    (handler : Failure → Task A)
    → ((e : Failure) → caught e ≡ true)
    → Ensures P m Q (λ _. G)
    → ((w : World) → G w → E none w)
    → ((e : Failure) → Ensures G (handler e) Q E)
    → Ensures P (catch caught m handler) Q E
unfolding catch
Ensures-catch_all caught m handler all h dead_ok handled = record {
  run = λ w p. Meets-catch_all caught handler all dead_ok handled (m w) (h.run w p);
}

Meets-cleanup :
    {A : Type 0} (Q : A → Cond) (E : Raised) (r : Outcome A) (c : Outcome (Unit {0}) × World)
    → Meets (λ _ w. Meets Q E (r, w)) E c
    → Meets Q E (after_cleanup r c)
Meets-cleanup Q E r (done _, w) h = h
Meets-cleanup Q E r (failed e, w) h = h
Meets-cleanup Q E r (dead, w) h = h

module _ {A : Type 0} {Q : A → Cond} {E : Raised} where
  Meets-finally :
      (cleanup : Task (Unit {0})) (r : Outcome A × World)
      → Meets Q E r
      → ((a : A) → Ensures (Q a) cleanup (λ _. Q a) E)
      → ((e : Failure) → Ensures (E (some e)) cleanup (λ _. E (some e)) E)
      → Meets Q E (after_finally cleanup r)
  Meets-finally cleanup (done a, w) h clean clean_raised =
      Meets-cleanup Q E (done a) (cleanup w) ((clean a).run w h)
  Meets-finally cleanup (failed e, w) h clean clean_raised =
      Meets-cleanup Q E (failed e) (cleanup w) ((clean_raised e).run w h)
  Meets-finally cleanup (dead, w) h clean clean_raised = h

  -- A cleanup that keeps what was reached, and raises what the whole may raise.
  pub Ensures-finally :
      {P : Cond} (m : Task A) (cleanup : Task (Unit {0}))
      → Ensures P m Q E
      → ((a : A) → Ensures (Q a) cleanup (λ _. Q a) E)
      → ((e : Failure) → Ensures (E (some e)) cleanup (λ _. E (some e)) E)
      → Ensures P (finally m cleanup) Q E
  unfolding finally
  Ensures-finally m cleanup h clean clean_raised = record {
    run = λ w p. Meets-finally cleanup (m w) (h.run w p) clean clean_raised;
  }
