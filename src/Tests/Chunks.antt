-- ===== src/Tests/Chunks.antt =====
-- A chunked body of two chunks, one over the limit, and a wrong delimiter.
use transparent_gateway.Prelude.{◌≡◌, refl, [], ◌++◌, arith, some, Text, str, text_beq}
use transparent_gateway.Python.{
  ok, err, os_error, incomplete_read, is_digit, split_first, startswith,
}
use transparent_gateway.Wire.{Conn, read_until, read_exactly}
use transparent_gateway.Relay.Handshake.{crlf}
use transparent_gateway.Probe.Chunked.{chunked_loop, read_chunk, read_line, split_line, chunk_size}
use transparent_gateway.Probe.Chunked.Bounded.{ReturnsBounded, chunked_loop-ReturnsBounded}

abbrev pub stream_of : Text → Conn
stream_of bytes = record { incoming = bytes; at_end = incomplete_read; sent = [] }

-- `ab` and then twelve bytes, with an extension behind a size
abbrev pub two_chunks : Text
two_chunks =
    str "2"
    ++ crlf
    ++ str "ab"
    ++ crlf
    ++ str "C;x=1"
    ++ crlf
    ++ str "cdefghijklmn"
    ++ crlf
    ++ str "0"
    ++ crlf
    ++ crlf

reads_two_chunks :
    chunked_loop 50 [] (stream_of two_chunks) ≡ some (ok (str "abcdefghijklmn"), stream_of [])
unfolding chunked_loop read_line split_line str chunk_size split_first is_digit read_chunk
    read_exactly text_beq read_until startswith
reads_two_chunks = refl

refuses_large :
    chunked_loop 50 [] (stream_of (str "40001" ++ crlf)) ≡ some (err os_error, stream_of [])
unfolding chunked_loop read_line split_line str chunk_size split_first is_digit read_chunk
refuses_large = refl

refuses_delimiter :
    chunked_loop 50 [] (stream_of (str "2" ++ crlf ++ str "abcd"))
    ≡ some (err os_error, stream_of [])
unfolding chunked_loop read_line split_line str chunk_size split_first is_digit read_chunk
    read_exactly text_beq
refuses_delimiter = refl

chunked_loop-ReturnsBounded_example : ReturnsBounded (chunked_loop 50 [] (stream_of two_chunks))
unfolding str
chunked_loop-ReturnsBounded_example =
    chunked_loop-ReturnsBounded 50 [] (stream_of two_chunks) (omega arith) (omega arith)
