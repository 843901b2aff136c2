-- ===== src/Proxy/Relay/Paid.antt =====
-- What a response that is one JSON text costs, and how it is logged.
use mathlib.Core.List.{append-nil, append_assoc}
use gptload_rs.Prelude.{
  ℕ, ◌+◌, ◌≤◌, min, ◌≡◌, refl, ◌∙◌, ap, subst, Bool, true, false, Option, none, some, List, [], ◌∷◌,
  ◌++◌, length, length-append, arith,
}
use gptload_rs.Prelude.Words.{saturating_add, u64_max}
use gptload_rs.Prelude.Text.{Str}
use gptload_rs.Prelude.Result.{Result, ok, err}
use gptload_rs.Requests.{RequestLogEntry}
use gptload_rs.Billing.{BillingStore, apply_usage}
use gptload_rs.Proxy.Server.{
  UsageTokens, RequestLogContext, Clock, Server, record_request, finish_response,
}
use gptload_rs.Proxy.Sse.{extract_usage_from_value}
use gptload_rs.Proxy.Relay.{
  Readers, Relay, max_parse_bytes, parse_bytes, parse_decoded, parse_chunk, relay, last_usage,
  start, relay_response,
}
use gptload_rs.Proxy.Relay.Passed.{passed, bytes_of, size_of, relay-passed, relay-resp_bytes}

-- What the key pays for: the store after the usage has been taken off its balance, if there is a key
-- and a usage.
pub charged : Option Str → Option UsageTokens → BillingStore → BillingStore
charged (some key) (some u) b = (apply_usage key u.total b).1
charged (some key) none b = b
charged none usage b = b

abbrev pub tokens_in : (UsageTokens → ℕ) → Option UsageTokens → Option ℕ
tokens_in f none = none
tokens_in f (some u) = some (f u)

-- How a response ends: the key is charged, one entry is logged with the status, the size and the
-- tokens, and the router is left alone.
pub record IsFinished (billing_key : Option Str) (status size : ℕ) (usage : Option UsageTokens)
    (s s' : Server) : Type 0 where
  pub router : s'.router ≡ s.router
  pub billing : s'.billing ≡ charged billing_key usage s.billing
  pub entry : RequestLogEntry
  pub logged : s'.logged ≡ s.logged ++ entry ∷ []
  pub status_code : entry.status ≡ status
  pub resp_bytes : entry.resp_bytes ≡ size
  pub prompt_tokens : entry.prompt_tokens ≡ tokens_in (λ u. u.prompt) usage
  pub completion_tokens : entry.completion_tokens ≡ tokens_in (λ u. u.completion) usage
  pub total_tokens : entry.total_tokens ≡ tokens_in (λ u. u.total) usage

finish_response-IsFinished :
    (clock : Clock) (ctx : RequestLogContext) (billing_key : Option Str) (status size : ℕ)
    (usage : Option UsageTokens) (s : Server)
    → IsFinished billing_key status size usage s
        (finish_response clock ctx billing_key status size usage s)
unfolding finish_response record_request charged
finish_response-IsFinished clock ctx (some key) status size (some u) s = record {
  router = refl;
  billing = refl;
  entry = _;
  logged = refl;
  status_code = refl;
  resp_bytes = refl;
  prompt_tokens = refl;
  completion_tokens = refl;
  total_tokens = refl;
}
finish_response-IsFinished clock ctx (some key) status size none s = record {
  router = refl;
  billing = refl;
  entry = _;
  logged = refl;
  status_code = refl;
  resp_bytes = refl;
  prompt_tokens = refl;
  completion_tokens = refl;
  total_tokens = refl;
}
finish_response-IsFinished clock ctx none status size usage s = record {
  router = refl;
  billing = refl;
  entry = _;
  logged = refl;
  status_code = refl;
  resp_bytes = refl;
  prompt_tokens = elim usage [ none ↦ refl | some u ↦ refl ];
  completion_tokens = elim usage [ none ↦ refl | some u ↦ refl ];
  total_tokens = elim usage [ none ↦ refl | some u ↦ refl ];
}

module _ {G : Type 0} (readers : Readers G) where
  -- The usage that a JSON text reports.
  pub reported : List ℕ → Option UsageTokens
  reported body = elim (readers.from_slice body) [
    | none ↦ none
    | some v ↦ extract_usage_from_value v
  ]

  -- The task has collected `buf`, and goes on.
  record IsCollecting (buf : List ℕ) (t : Relay G) : Type 0 where
    usage : t.usage ≡ none
    parse_enabled : t.parse_enabled ≡ true
    json_overflow : t.json_overflow ≡ false
    decoder : t.decoder ≡ none
    json_buf : t.json_buf ≡ buf
    decompressed_bytes : t.decompressed_bytes ≡ length buf

  parse_bytes-IsCollecting :
      (bytes buf : List ℕ) (t : Relay G)
      → length buf + length bytes ≤ max_parse_bytes
      → IsCollecting buf t
      → IsCollecting (buf ++ bytes) (parse_bytes readers false true bytes t)
  unfolding parse_bytes
  parse_bytes-IsCollecting bytes buf t few c =
      let a = c.usage in
      let b = c.parse_enabled in
      let d = c.json_overflow in
      let e = c.decoder in
      let f = c.json_buf in
      let g = c.decompressed_bytes in
      let size = length-append buf bytes in
      let held = ap length f in
      record {
        usage = ground (arith, a, d, f, g, few, held);
        parse_enabled = ground (arith, b, d, f, g, few, held);
        json_overflow = ground (arith, d, f, g, few, held);
        decoder = ground (arith, e, d, f, g, few, held);
        json_buf = ground (arith, d, f, g, few, held);
        decompressed_bytes = ground (arith, d, f, g, few, held, size);
      }

  parse_chunk-IsCollecting :
      (chunk buf : List ℕ) (t : Relay G)
      → length buf + length chunk ≤ max_parse_bytes
      → IsCollecting buf t
      → IsCollecting (buf ++ chunk) (parse_chunk readers false true chunk t)
  unfolding parse_chunk parse_decoded
  parse_chunk-IsCollecting [] buf t few c =
      rw (parse_chunk, c.parse_enabled, c.usage, c.decoder, append-nil buf)
        (record {
          usage = refl;
          parse_enabled = refl;
          json_overflow = c.json_overflow;
          decoder = refl;
          json_buf = c.json_buf;
          decompressed_bytes = c.decompressed_bytes;
        })
  parse_chunk-IsCollecting (x ∷ chunk) buf t few c =
      let t' = record t { usage = none; parse_enabled = true; decoder = none } in
      rw (parse_chunk, c.parse_enabled, c.usage, c.decoder)
        (parse_bytes-IsCollecting (x ∷ chunk) buf t' few (record {
          usage = refl;
          parse_enabled = refl;
          json_overflow = c.json_overflow;
          decoder = refl;
          json_buf = c.json_buf;
          decompressed_bytes = c.decompressed_bytes;
        }))

  relay-IsCollecting :
      (chunks : List (Result (List ℕ) × Bool)) (buf : List ℕ) (t : Relay G)
      → length buf + length (bytes_of (passed chunks)) ≤ max_parse_bytes
      → IsCollecting buf t
      → IsCollecting (buf ++ bytes_of (passed chunks)) (relay readers false true chunks t)
  unfolding relay passed bytes_of
  relay-IsCollecting [] buf t few c = rw (append-nil buf) c
  relay-IsCollecting ((err why, taken) ∷ chunks) buf t few c = rw (append-nil buf) c
  relay-IsCollecting ((ok chunk, false) ∷ chunks) buf t few c = rw (append-nil buf) (record {
    usage = c.usage;
    parse_enabled = c.parse_enabled;
    json_overflow = c.json_overflow;
    decoder = c.decoder;
    json_buf = c.json_buf;
    decompressed_bytes = c.decompressed_bytes;
  })
  relay-IsCollecting ((ok chunk, true) ∷ chunks) buf t few c =
      let counted = record t { resp_bytes = saturating_add t.resp_bytes (length chunk) } in
      let sent = record counted { sent = t.sent ++ chunk ∷ [] } in
      let next = parse_chunk readers false true chunk sent in
      let rest = length-append chunk (bytes_of (passed chunks)) in
      let size = length-append buf chunk in
      let one = parse_chunk-IsCollecting chunk buf sent (omega (arith, few, rest)) (record {
        usage = c.usage;
        parse_enabled = c.parse_enabled;
        json_overflow = c.json_overflow;
        decoder = c.decoder;
        json_buf = c.json_buf;
        decompressed_bytes = c.decompressed_bytes;
      }) in
      subst (λ b. IsCollecting b (relay readers false true chunks next))
        (append_assoc buf chunk (bytes_of (passed chunks)))
        (relay-IsCollecting chunks (buf ++ chunk) next (omega (arith, few, rest, size)) one)

  -- For a response that is not compressed, to a request that is no stream, with at most 32 MiB that
  -- reach the client: the client is given the chunks of the upstream's body as they are and in
  -- order, up to one that fails or that it does not take. The key is charged for the usage that
  -- the JSON text of these chunks reports, and one entry is logged with the status, these tokens and
  -- the size of the chunks and of one that the client did not take, at most the largest usize.
  pub relay_response_lem :
      (chunks : List (Result (List ℕ) × Bool)) (clock : Clock) (ctx : RequestLogContext)
      (billing_key : Option Str) (status : ℕ) (s : Server)
      → length (bytes_of (passed chunks)) ≤ max_parse_bytes
      → let r = relay_response readers false true none chunks clock ctx billing_key status s in
        (r.0 ≡ passed chunks)
        × IsFinished billing_key status
            (min (size_of chunks) u64_max)
            (reported (bytes_of (passed chunks)))
            s
            r.1
  unfolding relay_response last_usage reported
  relay_response_lem chunks clock ctx billing_key status s few =
      let t0 = start readers false true none in
      let t = relay readers false true chunks t0 in
      let bytes = relay-resp_bytes readers false true chunks t0 (omega arith) in
      let c = relay-IsCollecting chunks [] t0 (omega (arith, few)) (record {
        usage = refl;
        parse_enabled = refl;
        json_overflow = refl;
        decoder = refl;
        json_buf = refl;
        decompressed_bytes = refl;
      }) in
      let found : last_usage readers false true t ≡ reported (bytes_of (passed chunks)) =
        rw (last_usage, reported, c.usage, c.json_overflow, c.json_buf) refl in
      let size : t.resp_bytes ≡ min (size_of chunks) u64_max = bytes ∙ omega arith in
      (
        relay-passed readers false true chunks t0,
        subst
            (λ n.
              IsFinished billing_key status n (reported (bytes_of (passed chunks))) s
                (relay_response readers false true none chunks clock ctx billing_key status s).1)
            size
            (subst
              (λ u.
                IsFinished billing_key status t.resp_bytes u s
                  (relay_response readers false true none chunks clock ctx billing_key status s).1)
              found
              (finish_response-IsFinished clock ctx billing_key status t.resp_bytes
                (last_usage readers false true t) s)),
      )
