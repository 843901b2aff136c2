-- ===== src/Proxy/Relay.antt =====
-- The task that `proxy_upstream_response` of src/proxy.rs spawns: it passes the body of an
-- upstream's response on to the client and looks for the usage in it. The decompression is a
-- parameter, as is reading UTF-8 and JSON.
pub mod Passed
pub mod Paid
use gptload_rs.Prelude.{
  ℕ, ◌+◌, ◌*◌, Bool, true, false, ◌&&◌, ◌||◌, not, Option, none, some, List, [], ◌∷◌, ◌++◌, length,
  ltb, if◌then◌else◌,
}
use gptload_rs.Prelude.Words.{saturating_add}
use gptload_rs.Prelude.Text.{Str, codes, is_empty, starts_with}
use gptload_rs.Prelude.Result.{Result, ok, err}
use gptload_rs.Proxy.Json.{Value}
use gptload_rs.Proxy.Server.{UsageTokens, RequestLogContext, Clock, Server, finish_response}
use gptload_rs.Proxy.Sse.{extract_usage_from_value, parse_sse_usage}

-- What the task does with the content: `want_sse_usage` and `want_json_usage`.
unfoldable pub wants : Bool → Str → Bool × Bool
unfolding starts_with
wants stream_request content_type =
    let is_event_stream = starts_with content_type (codes "text/event-stream") in
    let want_sse_usage = stream_request && is_event_stream in
    let json = starts_with content_type (codes "application/json") in
    (want_sse_usage, not stream_request || json && not want_sse_usage)

abbrev pub max_parse_bytes : ℕ
max_parse_bytes = 32 * 1024 * 1024

abbrev pub max_sse_buf_bytes : ℕ
max_sse_buf_bytes = 2 * 1024 * 1024

abbrev pub max_decompressed_bytes : ℕ
max_decompressed_bytes = 128 * 1024 * 1024

-- `G` is the state of a `GzipDecoder`.
pub record Readers (G : Type 0) : Type 0 where
  pub decompress_chunk : G → List ℕ → Result (List ℕ) × G
  pub from_utf8_lossy : List ℕ → Str
  pub from_str : Str → Option Value
  pub from_slice : List ℕ → Option Value
  pub len : Str → ℕ

-- The variables of the task; `sent` is what the client has been given.
pub record Relay (G : Type 0) : Type 0 where
  pub sent : List (List ℕ)
  pub resp_bytes : ℕ
  pub usage : Option UsageTokens
  pub parse_enabled : Bool
  pub sse_buf : Str
  pub json_buf : List ℕ
  pub json_overflow : Bool
  pub decompressed_bytes : ℕ
  pub decoder : Option G

module _ {G : Type 0} (readers : Readers G) (want_sse_usage want_json_usage : Bool) where
  -- What there is to parse of a chunk, and the decoder's state; `none` when it fails.
  abbrev pub decode : Option G → List ℕ → Option (List ℕ) × Option G
  decode none chunk = (some chunk, none)
  decode (some g) chunk =
      let out = readers.decompress_chunk g chunk in
      (elim out.0 [ err _ ↦ none | ok bytes ↦ some bytes ], some out.1)

  -- `if let Some(found) = …`
  abbrev found_or : Option UsageTokens → Option UsageTokens → Option UsageTokens
  found_or none usage = usage
  found_or (some u) usage = some u

  -- The part behind the decoder, for bytes that are not empty.
  unfoldable pub parse_bytes : List ℕ → Relay G → Relay G
  unfolding parse_sse_usage
  parse_bytes bytes t =
      let counted = record t {
        decompressed_bytes = saturating_add t.decompressed_bytes (length bytes);
      } in
      let found = parse_sse_usage readers.from_str readers.from_utf8_lossy t.sse_buf bytes in
      if ltb max_decompressed_bytes (saturating_add t.decompressed_bytes (length bytes))
      then record t { parse_enabled = false }
      else if want_sse_usage
      then if ltb max_sse_buf_bytes (saturating_add (readers.len t.sse_buf) (length bytes))
        then record counted { parse_enabled = false }
        else record counted { usage = found_or found.0 t.usage; sse_buf = found.1 }
      else if want_json_usage && not t.json_overflow
      then if ltb max_parse_bytes (saturating_add (length t.json_buf) (length bytes))
        then record counted { json_overflow = true }
        else record counted { json_buf = t.json_buf ++ bytes }
      else counted

  abbrev is_found : Option UsageTokens → Bool
  is_found none = false
  is_found (some _) = true

  -- After the decoder.
  unfoldable pub parse_decoded : Option (List ℕ) → Relay G → Relay G
  unfolding parse_bytes
  parse_decoded none t = record t { parse_enabled = false }
  parse_decoded (some bytes) t = if is_empty bytes then t else parse_bytes bytes t

  -- What follows the `send` of a chunk.
  unfoldable pub parse_chunk : List ℕ → Relay G → Relay G
  unfolding parse_decoded
  parse_chunk chunk t =
      let decoded = decode t.decoder chunk in
      if not t.parse_enabled || is_found t.usage
      then t
      else parse_decoded decoded.0 (record t { decoder = decoded.1 })

  -- The loop over the chunks of the body, of which one may fail to come. With each comes whether
  -- the client still takes it.
  unfoldable pub relay : List (Result (List ℕ) × Bool) → Relay G → Relay G
  unfolding parse_chunk
  relay [] t = t
  relay ((err _, taken) ∷ chunks) t = t
  relay ((ok chunk, taken) ∷ chunks) t =
      let counted = record t { resp_bytes = saturating_add t.resp_bytes (length chunk) } in
      let rest =
        relay chunks (parse_chunk chunk (record counted { sent = t.sent ++ chunk ∷ [] })) in
      if taken then rest else counted

  abbrev from_json : Option Value → Option UsageTokens
  from_json none = none
  from_json (some v) = extract_usage_from_value v

  -- The usage when the loop has ended.
  unfoldable pub last_usage : Relay G → Option UsageTokens
  unfolding extract_usage_from_value
  last_usage t = elim t.usage [
    | some u ↦ some u
    | none ↦
        if want_json_usage && not t.json_overflow
        then from_json (readers.from_slice t.json_buf)
        else none
  ]

  abbrev pub start : Option G → Relay G
  start decoder = record {
    sent = [];
    resp_bytes = 0;
    usage = none;
    parse_enabled = want_sse_usage || want_json_usage;
    sse_buf = [];
    json_buf = [];
    json_overflow = false;
    decompressed_bytes = 0;
    decoder = decoder;
  }

  -- The whole task: what the client is given, and the server afterwards.
  unfoldable pub relay_response :
      Option G
      → List (Result (List ℕ) × Bool)
      → Clock
      → RequestLogContext
      → Option Str
      → ℕ
      → Server
      → List (List ℕ) × Server
  unfolding relay last_usage finish_response
  relay_response decoder chunks clock ctx billing_key status s =
      let t = relay chunks (start decoder) in
      (t.sent, finish_response clock ctx billing_key status t.resp_bytes (last_usage t) s)
