-- ===== src/Proxy/Sse.antt =====
-- The usage in a stream of events: `parse_sse_usage` and `extract_usage_from_value` of
-- src/proxy.rs. Reading UTF-8 and JSON is a parameter.
pub mod Cut
use gptload_rs.Prelude.{
  ℕ, ◌+◌, Bool, true, false, ◌||◌, not, Option, none, some, List, [], ◌∷◌, ◌++◌, if◌then◌else◌,
}
use gptload_rs.Prelude.Text.{Str, codes, str_eq, trim, trim_end_matches, strip_prefix, starts_with}
use gptload_rs.Prelude.Split.{split}
use gptload_rs.Proxy.Json.{Value, get, as_u64}
use gptload_rs.Proxy.Server.{UsageTokens, extract_usage}

abbrev pub field_of : Option Value → Str → Option ℕ
field_of none key = none
field_of (some v) key = as_u64 (get v key)

-- The numbers under `usage`, from which `extract_usage` makes the tokens.
abbrev pub tokens_in : Option Value → Option UsageTokens
tokens_in none = none
tokens_in (some usage) =
    extract_usage (as_u64 (get usage (codes "prompt_tokens")))
      (as_u64 (get usage (codes "completion_tokens"))) (as_u64 (get usage (codes "total_tokens")))

unfoldable pub extract_usage_from_value : Value → Option UsageTokens
unfolding get extract_usage
extract_usage_from_value v = tokens_in (get v (codes "usage"))

-- `data.contains(pattern)`
unfoldable pub has_infix : Str → Str → Bool
unfolding starts_with
has_infix pattern [] = starts_with [] pattern
has_infix pattern (c ∷ s) = starts_with (c ∷ s) pattern || has_infix pattern s

abbrev pub usage_name : Str
usage_name = b'"' ∷ codes "usage" ++ b'"' ∷ []

module _ (from_str : Str → Option Value) where
  abbrev usage_of : Option Value → Option UsageTokens → Option UsageTokens
  usage_of none found = found
  usage_of (some v) found = elim (extract_usage_from_value v) [ none ↦ found | some u ↦ some u ]

  -- One round of the loop.
  unfoldable pub sse_line : Str → Option UsageTokens → Option UsageTokens
  unfolding trim_end_matches strip_prefix trim has_infix extract_usage_from_value str_eq
  sse_line line found = elim (strip_prefix (codes "data:") (trim_end_matches b'\r' line)) [
    | none ↦ found
    | some rest ↦
        let event = trim rest in
        if str_eq event (codes "[DONE]")
        then found
        else if not (has_infix usage_name event)
        then found
        else usage_of (from_str event) found
  ]

  -- The loop over the lines that end in the buffer; what stands behind the last end of a line stays.
  unfoldable pub sse_lines : List Str → Option UsageTokens → Option UsageTokens × Str
  unfolding sse_line
  sse_lines [] found = (found, [])
  sse_lines (rest ∷ []) found = (found, rest)
  sse_lines (line ∷ next ∷ lines) found = sse_lines (next ∷ lines) (sse_line line found)

  -- The usage that is found, and the buffer. Each chunk is decoded by itself.
  unfoldable pub parse_sse_usage : (List ℕ → Str) → Str → List ℕ → Option UsageTokens × Str
  unfolding sse_lines split
  parse_sse_usage from_utf8_lossy buf chunk =
      sse_lines (split b'\n' (buf ++ from_utf8_lossy chunk)) none
