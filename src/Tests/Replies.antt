-- ===== src/Tests/Replies.antt =====
-- A response of the echo: a body by its length, and one without a length.
use transparent_gateway.Prelude.{◌++◌, Text, str}
use transparent_gateway.Relay.Handshake.{crlf}
use transparent_gateway.Probe.Exchange.{read_http_response}
use transparent_gateway.Probe.Chunked.Bounded.{IsBounded}
use transparent_gateway.Probe.Exchange.Bounded.{read_http_response-IsBounded}
use transparent_gateway.Tests.Chunks.{stream_of}

abbrev pub with_length : Text
with_length =
    str "HTTP/1.1 200 OK" ++ crlf ++ str "Content-Length: 2" ++ crlf ++ crlf ++ str "{}rest"

read_http_response-IsBounded_example : IsBounded (read_http_response 6 (stream_of with_length)).0
read_http_response-IsBounded_example = read_http_response-IsBounded 6 (stream_of with_length)
