-- ===== src/Proxy/Auth.antt =====
-- Who is let in: the tokens of src/state.rs and the API key of src/proxy.rs.
pub mod Bearer
use gptload_rs.Prelude.{
  ℕ, Bool, true, false, ◌&&◌, ◌==◌, not, Option, none, some, List, [], ◌∷◌, if◌then◌else◌,
}
use gptload_rs.Prelude.Text.{strip_prefix, Str, codes, contains, is_empty, trim}
use gptload_rs.Prelude.Dict.{Dict, lookup}
use gptload_rs.State.Defs.{RouterState}

-- `HeaderMap`: the first value under each lower-case name. A value is what `to_str` makes of it:
-- `none` when it is not visible ASCII.
abbrev pub HeaderMap : Type 0
HeaderMap = Dict (Option Str)

unfoldable pub authorize_proxy : RouterState → HeaderMap → Bool
unfolding lookup contains
authorize_proxy s headers = elim s.proxy_tokens [
  | none ↦ true
  | some tokens ↦ elim (lookup (codes "x-proxy-token") headers) [
    | none ↦ false
    | some h ↦ elim h [ none ↦ false | some token ↦ contains tokens token ]
  ]
]

unfoldable pub authorize_admin_header : RouterState → HeaderMap → Bool
unfolding lookup contains
authorize_admin_header s headers = elim (lookup (codes "x-admin-token") headers) [
  | none ↦ false
  | some h ↦ elim h [ none ↦ false | some token ↦ contains s.admin_tokens token ]
]

abbrev pub authorize_admin_token_str : RouterState → Str → Bool
authorize_admin_token_str s token = contains s.admin_tokens token

unfoldable pub should_inject_usage : RouterState → Str → Bool
unfolding contains
should_inject_usage s upstream_id = elim s.usage_inject_upstreams [
  | none ↦ false
  | some set ↦ contains set upstream_id
]

-- The value of a header that is there and reads as text.
unfoldable pub header_text : Str → HeaderMap → Option Str
unfolding lookup
header_text name headers = elim (lookup name headers) [ none ↦ none | some h ↦ h ]

abbrev pub non_empty : Str → Option Str
non_empty [] = none
non_empty (c ∷ s) = some (c ∷ s)

-- The part of an `Authorization` header after its scheme.
unfoldable pub without_scheme : Str → Str
unfolding strip_prefix
without_scheme raw = elim (strip_prefix (codes "Bearer ") raw) [
  | some key ↦ key
  | none ↦ elim (strip_prefix (codes "bearer ") raw) [ some key ↦ key | none ↦ raw ]
]

-- The second half of `extract_api_key`.
unfoldable pub authorization_key : HeaderMap → Option Str
unfolding header_text without_scheme trim
authorization_key headers = elim (header_text (codes "authorization") headers) [
  | none ↦ none
  | some h ↦
      let raw = trim h in if is_empty raw then none else non_empty (trim (without_scheme raw))
]

unfoldable pub extract_api_key : HeaderMap → Option Str
unfolding header_text authorization_key trim
extract_api_key headers = elim (header_text (codes "x-api-key") headers) [
  | none ↦ authorization_key headers
  | some h ↦ elim (non_empty (trim h)) [ some key ↦ some key | none ↦ authorization_key headers ]
]
