-- ===== src/Wire/Laws.antt =====
-- Reading what stands at the front of a stream.
use transparent_gateway.Prelude.{
  ℕ, ◌<◌, ◌≡◌, refl, subst, [], ◌++◌, arith, Text, le→leb, length, take-append, drop-append,
  length-append,
}
use transparent_gateway.Python.{Exception, ok, err}
use transparent_gateway.Wire.{Conn, read_exactly}

-- `readexactly(n)` takes the first n bytes if there are so many.
pub read_exactly-append :
    (n : ℕ) (xs ys sent : Text) (e : Exception)
    → length xs ≡ n
    → read_exactly n (record { incoming = xs ++ ys; at_end = e; sent = sent })
      ≡ (ok xs, record { incoming = ys; at_end = e; sent = sent })
unfolding read_exactly
read_exactly-append n xs ys sent e h =
    subst
      (λ m.
        read_exactly m (record { incoming = xs ++ ys; at_end = e; sent = sent })
        ≡ (ok xs, record { incoming = ys; at_end = e; sent = sent }))
      h
      (rw
        (
          le→leb (length xs) (length (xs ++ ys)) (rw (length-append xs ys) (omega arith)),
          take-append xs ys,
          drop-append xs ys,
        )
        refl)

-- A stream that is shorter ends the read, and nothing is written.
pub read_exactly_short :
    (n : ℕ) (c : Conn)
    → length c.incoming < n
    → read_exactly n c ≡ (err c.at_end, record c { incoming = [] })
unfolding read_exactly
read_exactly_short n c h = ground arith

-- Reading writes nothing.
pub read_exactly-sent : (n : ℕ) (c : Conn) → (read_exactly n c).1.sent ≡ c.sent
unfolding read_exactly
read_exactly-sent n c = ground arith
