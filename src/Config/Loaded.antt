-- ===== src/Config/Loaded.antt =====
-- What holds of a configuration that `load` returns.
use gptload_rs.Prelude.{
  ℕ, suc, ◌≤◌, ◌≡◌, ◌≢◌, subst, true, false, Bool-cases, inl, inr, ◌||◌, ◌==◌, Option, none, some,
  List, [], ◌∷◌, All, leb, arith,
}
use gptload_rs.Prelude.Text.{Str, codes, trim, is_empty, starts_with}
use gptload_rs.Prelude.Result.{
  Result, ok, err, bail_if, >>-eq-ok, bail_if-eq-ok, ok-injective, no_admin_tokens, no_upstreams,
}
use gptload_rs.Config.{Config, UpstreamConfig}
use gptload_rs.Config.Load.{
  trim_all, none_if_empty, retain_status, insert_sorted, sort_unstable, dedup, normalize_codes,
  normalize, validate_upstreams, validate, load,
}

-- Numbers from `b` on, in ascending order, each once; and in order, perhaps repeated.
abbrev pub IsAscending : ℕ → List ℕ → Type 0
IsAscending b [] = Unit
IsAscending b (c ∷ l) = (b ≤ c) × IsAscending (suc c) l

abbrev IsSorted : ℕ → List ℕ → Type 0
IsSorted b [] = Unit
IsSorted b (c ∷ l) = (b ≤ c) × IsSorted c l

abbrev pub IsStatus : ℕ → Type 0
IsStatus c = (100 ≤ c) × (c ≤ 599)

retain_status-IsStatus : (l : List ℕ) → All IsStatus (retain_status l)
unfolding retain_status
retain_status-IsStatus [] = tt
retain_status-IsStatus (c ∷ l) = ground (arith, retain_status-IsStatus l)

insert_sorted-IsStatus :
    (c : ℕ) (l : List ℕ) → IsStatus c → All IsStatus l → All IsStatus (insert_sorted c l)
unfolding insert_sorted
insert_sorted-IsStatus c [] h a = (h, tt)
insert_sorted-IsStatus c (d ∷ l) h (b, a) = elim (Bool-cases (leb c d)) [
  | inl e ↦ rw e (h, (b, a))
  | inr e ↦ rw e (b, insert_sorted-IsStatus c l h a)
]

sort_unstable-IsStatus : (l : List ℕ) → All IsStatus l → All IsStatus (sort_unstable l)
unfolding sort_unstable
sort_unstable-IsStatus [] a = tt
sort_unstable-IsStatus (c ∷ l) (h, a) =
    insert_sorted-IsStatus c (sort_unstable l) h (sort_unstable-IsStatus l a)

insert_sorted-IsSorted :
    (b c : ℕ) (l : List ℕ) → b ≤ c → IsSorted b l → IsSorted b (insert_sorted c l)
unfolding insert_sorted
insert_sorted-IsSorted b c [] h g = (h, tt)
insert_sorted-IsSorted b c (d ∷ l) h (g, k) = elim (Bool-cases (leb c d)) [
  | inl e ↦ rw e (h, (ground (arith, e), k))
  | inr e ↦ rw e (g, insert_sorted-IsSorted d c l (ground (arith, e)) k)
]

sort_unstable-IsSorted : (l : List ℕ) → IsSorted 0 (sort_unstable l)
unfolding sort_unstable
sort_unstable-IsSorted [] = tt
sort_unstable-IsSorted (c ∷ l) =
    insert_sorted-IsSorted 0 c (sort_unstable l) (omega arith) (sort_unstable-IsSorted l)

dedup-IsAscending : (b : ℕ) (l : List ℕ) → IsSorted b l → IsAscending b (dedup l)
unfolding dedup
dedup-IsAscending b [] h = tt
dedup-IsAscending b (c ∷ []) (h, _) = (h, tt)
dedup-IsAscending b (c ∷ d ∷ l) (h, (g, k)) = elim (Bool-cases (c == d)) [
  | inl e ↦ rw e (dedup-IsAscending b (d ∷ l) (omega (arith, h, g), k))
  | inr e ↦ rw e (h, dedup-IsAscending (suc c) (d ∷ l) (ground (arith, e, g), k))
]

dedup-IsStatus : (l : List ℕ) → All IsStatus l → All IsStatus (dedup l)
unfolding dedup
dedup-IsStatus [] h = tt
dedup-IsStatus (c ∷ []) h = h
dedup-IsStatus (c ∷ d ∷ l) (h, g) = elim (Bool-cases (c == d)) [
  | inl e ↦ rw e (dedup-IsStatus (d ∷ l) g)
  | inr e ↦ rw e (h, dedup-IsStatus (d ∷ l) g)
]

-- A list of codes as the configuration has it after `load`.
abbrev pub IsCodes : Option (List ℕ) → Type 0
IsCodes none = Unit
IsCodes (some l) = (l ≢ []) × IsAscending 0 l × All IsStatus l

none_if_empty-IsCodes : (l : List ℕ) → IsAscending 0 l → All IsStatus l → IsCodes (none_if_empty l)
none_if_empty-IsCodes [] a b = tt
none_if_empty-IsCodes (c ∷ l) a b = (ground arith, a, b)

normalize_codes-IsCodes : (codes : Option (List ℕ)) → IsCodes (normalize_codes codes)
unfolding normalize_codes
normalize_codes-IsCodes none = tt
normalize_codes-IsCodes (some codes) =
    let l = sort_unstable (retain_status codes) in
    let all = sort_unstable-IsStatus (retain_status codes) (retain_status-IsStatus codes) in
    none_if_empty-IsCodes (dedup l)
      (dedup-IsAscending 0 l (sort_unstable-IsSorted (retain_status codes))) (dedup-IsStatus l all)

-- No token is empty.
abbrev pub IsTokens : List Str → Type 0
IsTokens tokens = All (λ t. is_empty t ≡ false) tokens

trim_all-IsTokens : (l : List Str) → IsTokens (trim_all l)
unfolding trim_all
trim_all-IsTokens [] = tt
trim_all-IsTokens (t ∷ l) = elim (Bool-cases (is_empty (trim t))) [
  | inl e ↦ rw e (trim_all-IsTokens l)
  | inr e ↦ rw e (e, trim_all-IsTokens l)
]

-- The checks of `validate_upstreams` on one upstream.
abbrev pub IsUpstream : UpstreamConfig → Type 0
IsUpstream u =
    (is_empty (trim u.id) ≡ false)
    × (starts_with u.base_url (codes "http://") || starts_with u.base_url (codes "https://") ≡ true)

validate_upstreams-IsUpstream :
    (us : List UpstreamConfig) → validate_upstreams us ≡ ok tt → All IsUpstream us
unfolding validate_upstreams
validate_upstreams-IsUpstream [] h = tt
validate_upstreams-IsUpstream (u ∷ us) h =
    let id = is_empty (trim u.id) in
    let http = starts_with u.base_url (codes "http://") in
    let https = starts_with u.base_url (codes "https://") in
    elim (Bool-cases id) [
      | inl e ↦ absurd (ground (arith, h, e))
      | inr e ↦ elim (Bool-cases (http || https)) [
        | inr f ↦ absurd (ground (arith, h, e, f))
        | inl f ↦ ((e, f), validate_upstreams-IsUpstream us (ground (arith, h, e, f)))
      ]
    ]

-- What the server may rely on.
pub record IsLoaded (cfg : Config) : Type 0 where
  pub has_admin : is_empty cfg.admin_tokens ≡ false
  pub admin_tokens : IsTokens cfg.admin_tokens
  pub has_upstreams : is_empty cfg.upstreams ≡ false
  pub upstreams : All IsUpstream cfg.upstreams
  pub codes : IsCodes cfg.retry_status_codes

validate-eq-ok :
    (cfg : Config)
    → validate cfg ≡ ok tt
    → (is_empty cfg.admin_tokens ≡ false)
      × (is_empty cfg.upstreams ≡ false)
      × (validate_upstreams cfg.upstreams ≡ ok tt)
unfolding validate
validate-eq-ok cfg h =
    let (a, rest) = >>-eq-ok (bail_if (is_empty cfg.admin_tokens) no_admin_tokens) _ h in
    let (b, rest2) = >>-eq-ok (bail_if (is_empty cfg.upstreams) no_upstreams) _ rest in
    let (c, _) = >>-eq-ok (validate_upstreams cfg.upstreams) _ rest2 in
    (bail_if-eq-ok _ _ a, bail_if-eq-ok _ _ b, c)

normalize-IsLoaded : (cfg : Config) → validate (normalize cfg) ≡ ok tt → IsLoaded (normalize cfg)
unfolding normalize
normalize-IsLoaded cfg h =
    let (admin, upstreams, checked) = validate-eq-ok (normalize cfg) h in
    record {
      has_admin = admin;
      admin_tokens = trim_all-IsTokens cfg.admin_tokens;
      has_upstreams = upstreams;
      upstreams = validate_upstreams-IsUpstream cfg.upstreams checked;
      codes = normalize_codes-IsCodes cfg.retry_status_codes;
    }

-- A configuration that `load` returns has an admin token and no empty one, and an upstream; every
-- upstream has an id that is not blank and a URL with one of the two schemes; and the codes, if
-- any, are status codes from 100 to 599 in ascending order, each once.
pub load-IsLoaded : (parsed : Result Config) (cfg : Config) → load parsed ≡ ok cfg → IsLoaded cfg
unfolding load
load-IsLoaded (err e) cfg h = absurd (ground (arith, h))
load-IsLoaded (ok parsed) cfg h =
    let (valid, same) = >>-eq-ok (validate (normalize parsed)) _ h in
    subst IsLoaded (ok-injective same) (normalize-IsLoaded parsed valid)
