-- ===== src/Admin/Body.antt =====
-- The keys in the body of a request: `parse_keys_body`, `dedupe_keys` and `read_body_limit` of
-- src/admin.rs, and `validate_keys` of src/state.rs.
pub mod Dedupe
use gptload_rs.Prelude.{
  ◌*◌, ℕ, ◌+◌, Bool, true, false, ◌==◌, not, Option, none, some, List, [], ◌∷◌, ◌++◌, length, ltb,
  if◌then◌else◌,
}
use gptload_rs.Prelude.Text.{Str, codes, contains, is_empty, trim, starts_with}
use gptload_rs.Prelude.Split.{lines}
use gptload_rs.Prelude.Result.{
  Result, ok, err, too_large, invalid_utf8, invalid_json, invalid_key, no_keys,
}
use gptload_rs.State.Snapshot.{Http, bearer}

-- The chunks of a body, of which one may fail to come.
unfoldable pub read_body_limit : List (Result (List ℕ)) → ℕ → List ℕ → Result (List ℕ)
read_body_limit [] limit buf = ok buf
read_body_limit (err why ∷ chunks) limit buf = err why
read_body_limit (ok chunk ∷ chunks) limit buf =
    let rest = read_body_limit chunks limit (buf ++ chunk) in
    if ltb limit (length buf + length chunk) then err too_large else rest

-- `JsonKeysBody`
pub record JsonKeysBody : Type 0 where
  pub keys : List Str
  pub dedupe : Option Bool

-- What the standard library and serde_json make of the bytes of a body.
pub record Decoders : Type 0 where
  pub utf8 : List ℕ → Option Str
  pub json_keys : List ℕ → Option JsonKeysBody

-- The loop over the lines of a plain body.
unfoldable pub line_keys : List Str → List Str
unfolding trim
line_keys [] = []
line_keys (line ∷ rest) =
    let keys = line_keys rest in if is_empty (trim line) then keys else trim line ∷ keys

abbrev unwrap_or : Option Bool → Bool → Bool
unwrap_or none b = b
unwrap_or (some a) b = a

abbrev pub body_limit : ℕ
body_limit = 50 * 1024 * 1024

-- The keys, and whether they are to be deduplicated.
unfoldable pub parse_keys_body : Decoders → Str → List (Result (List ℕ)) → Result (List Str × Bool)
unfolding read_body_limit line_keys lines starts_with
parse_keys_body decoders content_type chunks = elim (read_body_limit chunks body_limit []) [
  | err why ↦ err why
  | ok bytes ↦
      if starts_with content_type (codes "application/json")
      then elim (decoders.json_keys bytes) [
        | none ↦ err invalid_json
        | some v ↦ ok (v.keys, unwrap_or v.dedupe true)
      ]
      else elim (decoders.utf8 bytes) [
        | none ↦ err invalid_utf8
        | some s ↦ ok (line_keys (lines s), true)
      ]
]

-- The loop of `dedupe_keys`; the set holds what `out` holds.
unfoldable pub dedupe_loop : List Str → List Str → List Str
unfolding trim contains
dedupe_loop [] out = out
dedupe_loop (k ∷ keys) out =
    let key = trim k in
    dedupe_loop keys
      (if is_empty key then out else if contains out key then out else out ++ key ∷ [])

unfoldable pub dedupe_keys : List Str → List Str
unfolding dedupe_loop
dedupe_keys keys = dedupe_loop keys []

-- The loop of `validate_keys`.
unfoldable pub validate_loop : Http → List Str → ℕ → Result ℕ
unfolding trim
validate_loop http [] valid_count = ok valid_count
validate_loop http (k ∷ keys) valid_count =
    let key = trim k in
    let skipped = validate_loop http keys valid_count in
    let counted = validate_loop http keys (valid_count + 1) in
    if is_empty key
    then skipped
    else if http.header_accepts (bearer key)
    then counted
    else err invalid_key

unfoldable pub validate_keys : Http → List Str → Result (Unit {0})
unfolding validate_loop
validate_keys http keys = elim (validate_loop http keys 0) [
  | err why ↦ err why
  | ok valid_count ↦ if valid_count == 0 then err no_keys else ok tt
]
