-- ===== src/Proxy/Incoming.antt =====
-- What `forward` of src/proxy.rs does with a request before it is tried: the body is read, its
-- model is found, and the client's stream is asked for its usage.
pub mod Injected
use gptload_rs.Prelude.{
  ℕ, ◌+◌, ◌*◌, Bool, true, false, ◌&&◌, ◌||◌, not, Option, none, some, List, [], ◌∷◌, ◌++◌, length,
  ltb, if◌then◌else◌,
}
use gptload_rs.Prelude.Words.{saturating_add}
use gptload_rs.Prelude.Text.{Str, codes, str_eq, is_empty, strip_prefix, starts_with}
use gptload_rs.Prelude.Result.{Result, ok, err}
use gptload_rs.State.Defs.{RouterState}
use gptload_rs.Proxy.Auth.{HeaderMap, header_text, should_inject_usage}
use gptload_rs.Proxy.Json.{
  Value, boolean, object, Members, no_members, find, put, get, as_bool, as_str,
}

-- A body that was read, or why not.
pub data BodyRead : Type 0 where
  too_large read_error : BodyRead
  read : List ℕ → BodyRead

abbrev pub max_request_body_bytes : ℕ
max_request_body_bytes = 16 * 1024 * 1024

-- The loop over the chunks, of which one may fail to come.
unfoldable pub read_body : List (Result (List ℕ)) → List ℕ → BodyRead
read_body [] body_bytes = read body_bytes
read_body (err _ ∷ chunks) body_bytes = read_error
read_body (ok chunk ∷ chunks) body_bytes =
    let rest = read_body chunks (body_bytes ++ chunk) in
    if ltb max_request_body_bytes (saturating_add (length body_bytes) (length chunk))
    then too_large
    else rest

abbrev text_or_empty : Option Str → Str
text_or_empty none = []
text_or_empty (some s) = s

-- `from_slice` is what serde_json makes of the bytes.
unfoldable pub parse_request_json : (List ℕ → Option Value) → HeaderMap → List ℕ → Option Value
unfolding header_text starts_with
parse_request_json from_slice headers body =
    let content_type = text_or_empty (header_text (codes "content-type") headers) in
    if is_empty body
    then none
    else if not (is_empty content_type) && not (starts_with content_type (codes "application/json"))
    then none
    else from_slice body

abbrev pub member_of : Option Value → Str → Option Value
member_of none key = none
member_of (some v) key = get v key

-- The model in a path such as `/v1/models/gpt`.
unfoldable pub path_model : Str → Option Str
unfolding strip_prefix
path_model path = elim (strip_prefix (codes "/v1/models/") path) [
  | none ↦ none
  | some s ↦ if is_empty s then none else some s
]

unfoldable pub request_model : Option Value → Str → Option Str
unfolding get path_model
request_model req_json path = elim (as_str (member_of req_json (codes "model"))) [
  | some model ↦ some model
  | none ↦ path_model path
]

abbrev pub or_false : Option Bool → Bool
or_false none = false
or_false (some b) = b

unfoldable pub stream_request : Option Value → Bool
unfolding get
stream_request req_json = or_false (as_bool (member_of req_json (codes "stream")))

abbrev pub value_or : Option Value → Value → Value
value_or none v = v
value_or (some w) v = w

-- The part behind `opts.as_object_mut()`: whether the entry was changed, and the options.
unfoldable pub include_usage : Members → Bool × Members
unfolding find put
include_usage opts =
    let entry = value_or (find (codes "include_usage") opts) (boolean true) in
    elim (or_false (as_bool (some entry))) [
      | true ↦ (false, put (codes "include_usage") entry opts)
      | false ↦ (true, put (codes "include_usage") (boolean true) opts)
    ]

-- The part behind the test of `stream`.
unfoldable pub with_options : Members → Value → Bool × Value
unfolding put include_usage
with_options obj (object opts) =
    let changed = include_usage opts in
    (changed.0, object (put (codes "stream_options") (object changed.1) obj))
with_options obj opts = (false, object obj)

-- The answer, and the value as it is left.
unfoldable pub ensure_stream_usage : Value → Bool × Value
unfolding find with_options
ensure_stream_usage (object obj) =
    let opts = value_or (find (codes "stream_options") obj) (object no_members) in
    let done = with_options obj opts in
    if not (or_false (as_bool (find (codes "stream") obj))) then (false, object obj) else done
ensure_stream_usage v = (false, v)

abbrev pub is_chat_completions : Str → Bool
is_chat_completions path =
    str_eq path (codes "/v1/chat/completions") || str_eq path (codes "/v1/chat/completions/")

-- The body that is sent, and whether it was written anew. `to_vec` is serde_json's writer.
unfoldable pub inject_usage :
    (Value → Option (List ℕ)) → RouterState → Str → Str → Option Value → List ℕ → List ℕ × Bool
unfolding stream_request should_inject_usage ensure_stream_usage
inject_usage to_vec s upstream_id path req_json body_bytes =
    if stream_request req_json && is_chat_completions path && should_inject_usage s upstream_id
    then elim req_json [
      | none ↦ (body_bytes, false)
      | some json ↦
          let (changed, json') = ensure_stream_usage json in
          elim (to_vec json') [
            | none ↦ (body_bytes, false)
            | some encoded ↦ if changed then (encoded, true) else (body_bytes, false)
          ]
    ]
    else (body_bytes, false)
