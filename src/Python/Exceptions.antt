-- ===== src/Python/Exceptions.antt =====
-- Exceptions as values. Messages are left out; a class is told by the handlers that catch it.
use transparent_gateway.Prelude.{◌≡◌, refl, Bool, true, false, Option, none, some}

pub data Exception : Type 0 where
  -- `ValueError`, and its subclasses `json.JSONDecodeError` and `UnicodeError`
  value_error json_error unicode_error : Exception
  -- `OSError`, and its subclasses `TimeoutError` and `AsnDatabaseError`
  os_error timeout_error asn_database_error : Exception
  -- `EOFError`
  incomplete_read : Exception
  -- `asyncio.LimitOverrunError`, a direct subclass of `Exception`
  limit_overrun : Exception
  key_error index_error type_error attribute_error runtime_error : Exception

unfoldable pub is_value_error : Exception → Bool
is_value_error value_error = true
is_value_error json_error = true
is_value_error unicode_error = true
is_value_error _ = false

unfoldable pub is_os_error : Exception → Bool
is_os_error os_error = true
is_os_error timeout_error = true
is_os_error asn_database_error = true
is_os_error _ = false

-- What a step gives: a value, or the exception that it raises.
pub data Result {ℓ} (A : Type ℓ) : Type ℓ where
  ok : (value : A) → Result A
  err : (raised : Exception) → Result A

-- `if test: raise e`
abbrev pub raise_if : Bool → Exception → Result (Unit {0})
raise_if true e = err e
raise_if false e = ok tt

module _ {ℓ κ} {A : Type ℓ} {B : Type κ} where
  infixl 5 ◌>>=◌
  -- The step and, on its value, what follows; an exception passes everything by.
  abbrev pub ◌>>=◌ : (step : Result A) (next : A → Result B) → Result B
  err e >>= next = err e
  ok value >>= next = next value

module _ {κ} {B : Type κ} where
  infixl 5 ◌>>◌
  -- `step; next`
  abbrev pub ◌>>◌ : (step : Result (Unit {0})) (next : Result B) → Result B
  step >> next = step >>= λ _. next

-- `try: … except: raise e from None`, for a step that fails by `none`
abbrev pub or_raise {ℓ} : {A : Type ℓ} → Option A → Exception → Result A
or_raise none e = err e
or_raise (some a) e = ok a

-- If a bind returns, its first part returned a value, and the second part returned on it.
module _ {ℓ κ} {A : Type ℓ} {B : Type κ} where
  pub >>=-eq-ok :
      (step : Result A) (next : A → Result B) {result : B}
      → (step >>= next) ≡ ok result
      → (value : A) × (step ≡ ok value) × (next value ≡ ok result)
  >>=-eq-ok (err raised) next h = cc
  >>=-eq-ok (ok value) next h = (value, refl, h)

-- A bind returns if its first part returns and the second does so on what the first may return.
pub >>=_total {ℓ κ} :
    {A : Type ℓ} {B : Type κ} (m : Result A) (f : A → Result B)
    → (a : A) × (m ≡ ok a)
    → ((a : A) → m ≡ ok a → (b : B) × (f a ≡ ok b))
    → (b : B) × ((m >>= f) ≡ ok b)
>>=_total (ok a) f m_ok f_ok = f_ok a refl
>>=_total (err e) f m_ok f_ok = cc (m_ok.1)

-- `try: … except …: raise e from None`
abbrev pub reraise {ℓ} : {A : Type ℓ} → Exception → Result A → Result A
reraise e (ok a) = ok a
reraise e (err _) = err e

pub reraise-eq-ok {ℓ} :
    {A : Type ℓ} (e : Exception) (r : Result A) {a : A} → reraise e r ≡ ok a → r ≡ ok a
reraise-eq-ok e (ok b) h = h
reraise-eq-ok e (err x) h = cc

pub ok_injective {ℓ} : {A : Type ℓ} {a b : A} → ok a ≡ ok b → a ≡ b
ok_injective h = cc

pub raise_if-eq-ok : (b : Bool) (e : Exception) {u : Unit {0}} → raise_if b e ≡ ok u → b ≡ false
raise_if-eq-ok true e h = cc
raise_if-eq-ok false e h = refl
