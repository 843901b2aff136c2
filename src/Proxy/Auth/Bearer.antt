-- ===== src/Proxy/Auth/Bearer.antt =====
-- A key comes out of the header that a client puts it in.
use gptload_rs.Prelude.{◌≡◌, ◌≢◌, refl, ◌∙◌, ap, false, none, some, [], ◌∷◌, ◌++◌, arith}
use gptload_rs.Prelude.Text.{
  strip_prefix, Str, codes, trim_start, trim_end, trim, is_whitespace, is_empty,
}
use gptload_rs.Prelude.Trim.{trim_end-append, IsTrimmed, trim_same}
use gptload_rs.Proxy.Auth.{
  HeaderMap, header_text, non_empty, without_scheme, authorization_key, extract_api_key,
}

trim_start-bearer : (key : Str) → trim_start (codes "Bearer " ++ key) ≡ codes "Bearer " ++ key
unfolding trim_start is_whitespace
trim_start-bearer key = refl

bearer-IsTrimmed : (key : Str) → key ≢ [] → IsTrimmed key → IsTrimmed (codes "Bearer " ++ key)
bearer-IsTrimmed key full (a, b) =
    (trim_start-bearer key, trim_end-append (codes "Bearer ") key full b)

without_scheme-bearer : (key : Str) → without_scheme (codes "Bearer " ++ key) ≡ key
unfolding without_scheme strip_prefix
without_scheme-bearer key = refl

non_empty_same : (key : Str) → key ≢ [] → non_empty key ≡ some key
non_empty_same [] full = absurd (full refl)
non_empty_same (c ∷ key) full = refl

authorization_key_found :
    (headers : HeaderMap) (h key : Str)
    → header_text (codes "authorization") headers ≡ some h
    → is_empty (trim h) ≡ false
    → trim (without_scheme (trim h)) ≡ key
    → non_empty key ≡ some key
    → authorization_key headers ≡ some key
unfolding authorization_key
authorization_key_found headers h key found full same whole =
    ground (arith, found, full, same, whole)

extract_api_key_second :
    (headers : HeaderMap)
    → header_text (codes "x-api-key") headers ≡ none
    → extract_api_key headers ≡ authorization_key headers
unfolding extract_api_key
extract_api_key_second headers h = ground (arith, h)

-- A key without blanks at its ends is found in an `Authorization` header that reads `Bearer ` and
-- the key, if there is no `x-api-key` header.
pub extract_api_key-bearer :
    (headers : HeaderMap) (key : Str)
    → header_text (codes "x-api-key") headers ≡ none
    → header_text (codes "authorization") headers ≡ some (codes "Bearer " ++ key)
    → key ≢ []
    → trim_start key ≡ key
    → trim_end key ≡ key
    → extract_api_key headers ≡ some key
extract_api_key-bearer headers key no_key bearer full a b =
    let raw = trim_same (codes "Bearer " ++ key) (bearer-IsTrimmed key full (a, b)) in
    let rest =
      ap (λ r. trim (without_scheme r)) raw
      ∙ ap trim (without_scheme-bearer key)
      ∙ trim_same key (a, b) in
    extract_api_key_second headers no_key
    ∙ authorization_key_found headers (codes "Bearer " ++ key) key bearer (ap is_empty raw) rest
        (non_empty_same key full)
