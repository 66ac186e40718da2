-- ===== src/Wire.antt =====
-- A TCP connection as the handshakes use it (asyncio's StreamReader and StreamWriter): the bytes
-- that the peer will still send, what ends the stream, and the bytes written so far.
pub mod Laws
use transparent_gateway.Prelude.{
  ℕ, suc, ◌+◌, ◌-◌, ◌≡◌, refl, Bool, true, false, Option, none, some, List, [], ◌∷◌, ◌++◌, Text,
  leb, length, take, drop, if◌then◌else◌,
}
use transparent_gateway.Python.{Exception, limit_overrun, Result, ok, err, startswith}

pub record Conn : Type 0 where
  pub incoming : Text
  -- `incomplete_read` if the peer closes, `timeout_error` if it stalls, `os_error` if it resets
  pub at_end : Exception
  pub sent : Text

abbrev pub Wire : Type 0 → Type 0
Wire A = Conn → Result A × Conn

module _ {A B : Type 0} where
  abbrev pub continue : Result A → (A → Wire B) → Wire B
  continue (ok a) f c = f a c
  continue (err e) f c = (err e, c)

  infixl 5 ◌>>=◌ ◌>>◌
  abbrev pub ◌>>=◌ : Wire A → (A → Wire B) → Wire B
  ◌>>=◌ m f c = let (r, c') = m c in continue r f c'

  abbrev pub ◌>>◌ : Wire A → Wire B → Wire B
  m >> n = m >>= λ _. n

module _ {A : Type 0} where
  abbrev pub pure : A → Wire A
  pure a c = (ok a, c)

  abbrev pub throw : Exception → Wire A
  throw e c = (err e, c)

  -- A step that does no input or output.
  abbrev pub lift : Result A → Wire A
  lift r c = (r, c)

abbrev pub throw_if : Bool → Exception → Wire (Unit {0})
throw_if true e c = (err e, c)
throw_if false e c = (ok tt, c)

-- `writer.write(bytes)` and `await writer.drain()`
abbrev pub write : Text → Wire (Unit {0})
write bytes c = (ok tt, record c { sent = c.sent ++ bytes })

-- `await reader.readexactly(n)`
unfoldable pub read_exactly : ℕ → Wire Text
read_exactly n c =
    if leb n (length c.incoming)
    then (ok (take n c.incoming), record c { incoming = drop n c.incoming })
    else (err c.at_end, record c { incoming = [] })

-- The place of the first occurrence of a separator.
unfoldable pub find : Text → Text → Option ℕ
find sep [] = none
find sep (b ∷ bs) =
    let rest : Option ℕ = elim (find sep bs) [ none ↦ none | some i ↦ some (suc i) ] in
    if startswith (b ∷ bs) sep then some 0 else rest

-- `await reader.readuntil(sep)` of a reader with this buffer limit
unfoldable pub read_until : ℕ → Text → Wire Text
unfolding find
read_until limit sep c = elim (find sep c.incoming) [
  | some i ↦
      if leb i limit
      then (
        ok (take (i + length sep) c.incoming),
        record c { incoming = drop (i + length sep) c.incoming },
      )
      else (err limit_overrun, c)
  | none ↦
      if leb (length c.incoming + 1 - length sep) limit
      then (err c.at_end, record c { incoming = [] })
      else (err limit_overrun, c)
]
