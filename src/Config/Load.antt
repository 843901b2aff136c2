-- ===== src/Config/Load.antt =====
-- `Config::load` of src/config.rs after the file has been parsed.
use gptload_rs.Prelude.{
  ℕ, Bool, ◌&&◌, ◌||◌, ◌==◌, not, Option, none, some, List, [], ◌∷◌, leb, ltb, if◌then◌else◌,
}
use gptload_rs.Prelude.Text.{Str, codes, trim, is_empty, starts_with}
use gptload_rs.Prelude.Result.{
  Result, ok, ◌>>=◌, ◌>>◌, bail_if, no_admin_tokens, no_upstreams, empty_id, bad_scheme,
  bad_status_code,
}
use gptload_rs.Config.{Config, UpstreamConfig}

-- The tokens are trimmed, and those that are empty then are dropped.
unfoldable pub trim_all : List Str → List Str
unfolding trim
trim_all [] = []
trim_all (t ∷ ts) = let rest = trim_all ts in if is_empty (trim t) then rest else trim t ∷ rest

-- `if v.is_empty() { None }`
abbrev pub none_if_empty {ℓ} : {A : Type ℓ} → List A → Option (List A)
none_if_empty [] = none
none_if_empty (x ∷ l) = some (x ∷ l)

-- `code >= 100 && code <= 599`
abbrev pub is_status : ℕ → Bool
is_status code = leb 100 code && leb code 599

unfoldable pub retain_status : List ℕ → List ℕ
retain_status [] = []
retain_status (c ∷ codes) = let rest = retain_status codes in if is_status c then c ∷ rest else rest

-- `sort_unstable` and `dedup` of the standard library, on numbers.
unfoldable pub insert_sorted : ℕ → List ℕ → List ℕ
insert_sorted c [] = c ∷ []
insert_sorted c (d ∷ codes) =
    let rest = insert_sorted c codes in if leb c d then c ∷ d ∷ codes else d ∷ rest

unfoldable pub sort_unstable : List ℕ → List ℕ
unfolding insert_sorted
sort_unstable [] = []
sort_unstable (c ∷ codes) = insert_sorted c (sort_unstable codes)

unfoldable pub dedup : List ℕ → List ℕ
dedup [] = []
dedup (c ∷ []) = c ∷ []
dedup (c ∷ d ∷ codes) = let rest = dedup (d ∷ codes) in if c == d then rest else c ∷ rest

abbrev over_some : (List Str → Option (List Str)) → Option (List Str) → Option (List Str)
over_some f none = none
over_some f (some l) = f l

unfoldable pub normalize_codes : Option (List ℕ) → Option (List ℕ)
unfolding retain_status sort_unstable dedup
normalize_codes none = none
normalize_codes (some codes) = none_if_empty (dedup (sort_unstable (retain_status codes)))

unfoldable pub normalize : Config → Config
unfolding trim_all normalize_codes
normalize cfg = record cfg {
  proxy_tokens = over_some (λ v. none_if_empty (trim_all v)) cfg.proxy_tokens;
  admin_tokens = trim_all cfg.admin_tokens;
  usage_inject_upstreams = over_some (λ v. none_if_empty (trim_all v)) cfg.usage_inject_upstreams;
  retry_status_codes = normalize_codes cfg.retry_status_codes;
}

unfoldable pub validate_upstreams : List UpstreamConfig → Result (Unit {0})
unfolding trim starts_with
validate_upstreams [] = ok tt
validate_upstreams (u ∷ us) =
    bail_if (is_empty (trim u.id)) empty_id
    >> (bail_if
          (not
            (starts_with u.base_url (codes "http://") || starts_with u.base_url (codes "https://")))
          bad_scheme
        >> validate_upstreams us)

unfoldable pub validate_codes : List ℕ → Result (Unit {0})
validate_codes [] = ok tt
validate_codes (c ∷ codes) =
    bail_if (ltb c 100 || ltb 599 c) bad_status_code >> validate_codes codes

unfoldable pub validate : Config → Result (Unit {0})
unfolding validate_upstreams validate_codes
validate cfg =
    bail_if (is_empty cfg.admin_tokens) no_admin_tokens
    >> (bail_if (is_empty cfg.upstreams) no_upstreams
        >> (validate_upstreams cfg.upstreams
            >> elim cfg.retry_status_codes [ none ↦ ok tt | some codes ↦ validate_codes codes ]))

-- `parsed` is what the TOML parser makes of the file.
unfoldable pub load : Result Config → Result Config
unfolding normalize validate
load parsed = parsed >>= λ cfg. validate (normalize cfg) >> ok (normalize cfg)
