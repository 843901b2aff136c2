-- ===== src/Tests/Streams.antt =====
-- A stream of two events in three chunks, and a request for it.
use gptload_rs.Prelude.{
  ℕ, min, ◌≤◌, length, arith, ◌≡◌, refl, Bool, true, false, none, some, Option, List, [], ◌∷◌, ◌++◌,
}
use gptload_rs.Prelude.Int.{pos}
use gptload_rs.Prelude.Words.{u64_max}
use gptload_rs.Prelude.Text.{Str, codes}
use gptload_rs.Prelude.Result.{Result, ok}
use gptload_rs.Proxy.Json.{Value, boolean, number, object, no_members, member}
use gptload_rs.Proxy.Incoming.{ensure_stream_usage}
use gptload_rs.Proxy.Incoming.Injected.{IsInjected, ensure_stream_usage_lem}
use gptload_rs.Proxy.Server.{RequestLogContext, Clock, Server}
use gptload_rs.Proxy.Relay.{Readers, max_parse_bytes, relay_response}
use gptload_rs.Proxy.Relay.Passed.{passed, bytes_of, size_of}
use gptload_rs.Proxy.Relay.Paid.{IsFinished, reported, relay_response_lem}
use gptload_rs.Tests.World.{router}

-- Every event is read as one that reports seven tokens.
abbrev from_str : Str → Option Value
from_str s = some (
    object (
      member (codes "usage") (object (member (codes "total_tokens") (number (some 7)) no_members))
        no_members))

abbrev quote : Str
quote = b'"' ∷ []

abbrev event : Str
event = codes "data: {" ++ quote ++ codes "usage" ++ quote ++ codes ": {}}" ++ b'\n' ∷ []

abbrev flagged : Value
flagged = object (
    member (codes "stream") (boolean true) (
      member (codes "stream_options")
        (object (
          member (codes "include_usage") (boolean false)
            (member (codes "other") (number (some 3)) no_members)))
        no_members))

changed : (ensure_stream_usage flagged).0 ≡ true
unfolding ensure_stream_usage
changed = refl

ensure_stream_usage_lem_example :
    IsInjected flagged (ensure_stream_usage flagged).1 (codes "stream") (codes "other")
ensure_stream_usage_lem_example =
    ensure_stream_usage_lem flagged (codes "stream") (codes "other") changed

-- A stream without options is left as it is, although the flag is missing.
abbrev unflagged : Value
unflagged = object (member (codes "stream") (boolean true) no_members)

left_as_it_is : (ensure_stream_usage unflagged).0 ≡ false
unfolding ensure_stream_usage
left_as_it_is = refl

-- No gzip: the decoder's state is of no account.
abbrev readers : Readers (Unit {0})
readers = record {
  decompress_chunk = λ g bytes. (ok bytes, g);
  from_utf8_lossy = λ bytes. bytes;
  from_str = from_str;
  from_slice = λ bytes. from_str bytes;
  len = λ s. 0;
}

abbrev chunks : List (Result (List ℕ) × Bool)
chunks = (ok (codes "da"), true) ∷ (ok (codes "ta: x"), true) ∷ (ok event, false) ∷ []

abbrev server : Server
server = record {
  router = router;
  billing = record { balances = (codes "alice", pos 50) ∷ []; poisoned = false; sent = [] };
  logged = [];
}

abbrev clock : Clock
clock = record { ts_ms = 1000; elapsed_ms = 20 }

abbrev ctx : RequestLogContext
ctx = record {
  client_ip = codes "c";
  method = codes "POST";
  path = codes "/v1/chat/completions";
  model = some (codes "gpt");
  upstream_id = some (codes "a");
  req_bytes = 4;
}

chunks-few : length (bytes_of (passed chunks)) ≤ max_parse_bytes
unfolding bytes_of passed
chunks-few = omega arith

relay_response_lem_example :
    let r =
      relay_response readers false true none chunks clock ctx (some (codes "alice")) 200 server in
    (r.0 ≡ passed chunks)
    × IsFinished
        (some (codes "alice"))
        200
        (min (size_of chunks) u64_max)
        (reported readers (bytes_of (passed chunks)))
        server
        r.1
relay_response_lem_example =
    relay_response_lem readers chunks clock ctx (some (codes "alice")) 200 server chunks-few
