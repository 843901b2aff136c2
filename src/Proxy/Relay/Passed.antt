-- ===== src/Proxy/Relay/Passed.antt =====
-- What the client is given, and how much is kept of it.
use mathlib.Core.List.{append-nil, append_assoc}
use gptload_rs.Prelude.{
  ℕ, ◌+◌, ◌≤◌, ◌≡◌, refl, ◌∙◌, sym, ap, Bool, true, false, Bool-cases, inl, inr, Option, none, some,
  List, [], ◌∷◌, ◌++◌, length, length-append, if◌then◌else◌, arith,
}
use gptload_rs.Prelude.Words.{saturating_add, u64_max}
use gptload_rs.Prelude.Text.{is_empty}
use gptload_rs.Prelude.Result.{Result, ok, err}
use gptload_rs.Proxy.Relay.{
  Readers, Relay, max_parse_bytes, max_decompressed_bytes, decode, parse_bytes, parse_decoded,
  parse_chunk, relay,
}

-- The chunks up to the first that fails or that the client does not take.
unfoldable pub passed : List (Result (List ℕ) × Bool) → List (List ℕ)
passed [] = []
passed ((err _, taken) ∷ chunks) = []
passed ((ok chunk, taken) ∷ chunks) = if taken then chunk ∷ passed chunks else []

-- The bytes of chunks, one after the other.
unfoldable pub bytes_of : List (List ℕ) → List ℕ
bytes_of [] = []
bytes_of (chunk ∷ chunks) = chunk ++ bytes_of chunks

-- The size of the chunks that were passed on, and of the one that the client did not take.
pub size_of : List (Result (List ℕ) × Bool) → ℕ
size_of [] = 0
size_of ((err _, taken) ∷ chunks) = 0
size_of ((ok chunk, taken) ∷ chunks) = if taken then length chunk + size_of chunks else length chunk

module _ {G : Type 0} (readers : Readers G) (sse json : Bool) where
  -- Looking for the usage touches neither what was sent nor its size, and keeps the buffers small.
  record IsQuiet (t t' : Relay G) : Type 0 where
    sent : t'.sent ≡ t.sent
    resp_bytes : t'.resp_bytes ≡ t.resp_bytes
    few_json : length t.json_buf ≤ max_parse_bytes → length t'.json_buf ≤ max_parse_bytes
    few_bytes :
        t.decompressed_bytes ≤ max_decompressed_bytes
        → t'.decompressed_bytes ≤ max_decompressed_bytes

  parse_bytes-IsQuiet :
      (bytes : List ℕ) (t : Relay G) → IsQuiet t (parse_bytes readers sse json bytes t)
  unfolding parse_bytes
  parse_bytes-IsQuiet bytes t =
      let size = length-append t.json_buf bytes in
      record {
        sent = ground arith;
        resp_bytes = ground arith;
        few_json = λ h. ground (arith, h, size);
        few_bytes = λ h. ground (arith, h);
      }

  parse_decoded-IsQuiet :
      (o : Option (List ℕ)) (t : Relay G) → IsQuiet t (parse_decoded readers sse json o t)
  unfolding parse_decoded
  parse_decoded-IsQuiet none t = record {
    sent = refl;
    resp_bytes = refl;
    few_json = λ h. h;
    few_bytes = λ h. h;
  }
  parse_decoded-IsQuiet (some bytes) t = elim (Bool-cases (is_empty bytes)) [
    | inl e ↦
        rw (parse_decoded, e)
          (record { sent = refl; resp_bytes = refl; few_json = λ h. h; few_bytes = λ h. h })
    | inr e ↦ rw (parse_decoded, e) (parse_bytes-IsQuiet bytes t)
  ]

  parse_chunk-IsQuiet :
      (chunk : List ℕ) (t : Relay G) → IsQuiet t (parse_chunk readers sse json chunk t)
  unfolding parse_chunk
  parse_chunk-IsQuiet chunk t =
      let decoded = decode readers sse json t.decoder chunk in
      let quiet = parse_decoded-IsQuiet decoded.0 (record t { decoder = decoded.1 }) in
      let sent = quiet.sent in
      let resp_bytes = quiet.resp_bytes in
      let few_json = quiet.few_json in
      let few_bytes = quiet.few_bytes in
      record {
        sent = ground (arith, sent);
        resp_bytes = ground (arith, resp_bytes);
        few_json = λ h. ground (arith, h, few_json);
        few_bytes = λ h. ground (arith, h, few_bytes);
      }

  pub relay-passed :
      (chunks : List (Result (List ℕ) × Bool)) (t : Relay G)
      → (relay readers sse json chunks t).sent ≡ t.sent ++ passed chunks
  unfolding relay passed
  relay-passed [] t = sym (append-nil t.sent)
  relay-passed ((err why, taken) ∷ chunks) t = sym (append-nil t.sent)
  relay-passed ((ok chunk, false) ∷ chunks) t = sym (append-nil t.sent)
  relay-passed ((ok chunk, true) ∷ chunks) t =
      let counted = record t { resp_bytes = saturating_add t.resp_bytes (length chunk) } in
      let sent = record counted { sent = t.sent ++ chunk ∷ [] } in
      let quiet = parse_chunk-IsQuiet chunk sent in
      relay-passed chunks (parse_chunk readers sse json chunk sent)
      ∙ ap (λ l. l ++ passed chunks) quiet.sent
      ∙ append_assoc t.sent (chunk ∷ []) (passed chunks)

  -- What the task keeps of a response is bounded, whatever the upstream sends: at most 32 MiB of
  -- JSON, and at most 128 MiB are looked at after decompression.
  pub relay-bounded :
      (chunks : List (Result (List ℕ) × Bool)) (t : Relay G)
      → length t.json_buf ≤ max_parse_bytes
      → t.decompressed_bytes ≤ max_decompressed_bytes
      → (length (relay readers sse json chunks t).json_buf ≤ max_parse_bytes)
        × ((relay readers sse json chunks t).decompressed_bytes ≤ max_decompressed_bytes)
  unfolding relay
  relay-bounded [] t h k = (h, k)
  relay-bounded ((err why, taken) ∷ chunks) t h k = (h, k)
  relay-bounded ((ok chunk, false) ∷ chunks) t h k = (h, k)
  relay-bounded ((ok chunk, true) ∷ chunks) t h k =
      let counted = record t { resp_bytes = saturating_add t.resp_bytes (length chunk) } in
      let sent = record counted { sent = t.sent ++ chunk ∷ [] } in
      let quiet = parse_chunk-IsQuiet chunk sent in
      relay-bounded chunks (parse_chunk readers sse json chunk sent) (quiet.few_json h)
        (quiet.few_bytes k)

  pub relay-resp_bytes :
      (chunks : List (Result (List ℕ) × Bool)) (t : Relay G)
      → t.resp_bytes ≤ u64_max
      → (relay readers sse json chunks t).resp_bytes ≡ saturating_add t.resp_bytes (size_of chunks)
  unfolding relay size_of
  relay-resp_bytes [] t h = omega (arith, h)
  relay-resp_bytes ((err why, taken) ∷ chunks) t h = omega (arith, h)
  relay-resp_bytes ((ok chunk, false) ∷ chunks) t h = refl
  relay-resp_bytes ((ok chunk, true) ∷ chunks) t h =
      let counted = record t { resp_bytes = saturating_add t.resp_bytes (length chunk) } in
      let sent = record counted { sent = t.sent ++ chunk ∷ [] } in
      let quiet = parse_chunk-IsQuiet chunk sent in
      let bytes = quiet.resp_bytes in
      let ih =
        relay-resp_bytes chunks (parse_chunk readers sse json chunk sent) (omega (arith, bytes)) in
      omega (arith, ih, bytes)
