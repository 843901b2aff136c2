-- ===== src/Util/Query.antt =====
-- Names and values come out of a query that they were written to.
use gptload_rs.Prelude.{ℕ, ◌≡◌, ◌≢◌, refl, some, List, [], ◌∷◌, ◌++◌, All, arith}
use gptload_rs.Prelude.Text.{Str}
use gptload_rs.Prelude.Dict.{lookup}
use gptload_rs.Prelude.Split.{split, split_once}
use gptload_rs.Util.{query_parts, query_get}

-- A text without a code point.
abbrev pub Lacks : ℕ → Str → Type 0
Lacks c s = All (λ a. a ≢ c) s

-- `name=value`
abbrev pub pair : Str × Str → Str
pair (name, value) = name ++ b'=' ∷ value

-- `a=b&c=d`
pub print_query : List (Str × Str) → Str
print_query [] = []
print_query (p ∷ []) = pair p
print_query (p ∷ q ∷ ps) = pair p ++ b'&' ∷ print_query (q ∷ ps)

-- A name has neither `=` nor `&`, and a value has no `&`.
abbrev pub IsQuery : List (Str × Str) → Type 0
IsQuery ps = All (λ p. Lacks b'=' (p.0) × Lacks b'&' (p.0) × Lacks b'&' (p.1)) ps

split_once-append : (c : ℕ) (s t : Str) → Lacks c s → split_once c (s ++ c ∷ t) ≡ (s, some t)
unfolding split_once
split_once-append c [] t h = ground arith
split_once-append c (a ∷ s) t (h, hs) = ground (arith, split_once-append c s t hs)

pub split-Lacks : (c : ℕ) (s : Str) → Lacks c s → split c s ≡ s ∷ []
unfolding split
split-Lacks c [] h = refl
split-Lacks c (a ∷ s) (h, hs) = ground (arith, split-Lacks c s hs)

pub split-append : (c : ℕ) (s t : Str) → Lacks c s → split c (s ++ c ∷ t) ≡ s ∷ split c t
unfolding split
split-append c [] t h = ground arith
split-append c (a ∷ s) t (h, hs) = ground (arith, split-append c s t hs)

Lacks-append : (c : ℕ) (s t : Str) → Lacks c s → Lacks c t → Lacks c (s ++ t)
Lacks-append c [] t h k = k
Lacks-append c (a ∷ s) t (h, hs) k = (h, Lacks-append c s t hs k)

pair-Lacks :
    (name value : Str) → Lacks b'&' name → Lacks b'&' value → Lacks b'&' (name ++ b'=' ∷ value)
pair-Lacks name value h k = Lacks-append b'&' name (b'=' ∷ value) h (ground arith, k)

query_parts-print_query :
    (p : Str × Str) (ps : List (Str × Str)) (key : Str)
    → IsQuery (p ∷ ps)
    → query_parts (split b'&' (print_query (p ∷ ps))) key ≡ lookup key (p ∷ ps)
unfolding print_query lookup query_parts
query_parts-print_query (name, value) [] key ((a, b, c), _) =
    let one = split-Lacks b'&' (name ++ b'=' ∷ value) (pair-Lacks name value b c) in
    let cut = split_once-append b'=' name value a in ground (arith, one, cut)
query_parts-print_query (name, value) (q ∷ ps) key ((a, b, c), h) =
    let one =
      split-append b'&' (name ++ b'=' ∷ value) (print_query (q ∷ ps)) (pair-Lacks name value b c) in
    let cut = split_once-append b'=' name value a in
    let rest = query_parts-print_query q ps key h in ground (arith, one, cut, rest)

-- `query_get` finds in a written query, for every name, the first value that was written for it, if
-- no name holds `=` or `&` and no value holds `&`.
pub query_get-print_query :
    (p : Str × Str) (ps : List (Str × Str)) (key : Str)
    → IsQuery (p ∷ ps)
    → query_get (some (print_query (p ∷ ps))) key ≡ lookup key (p ∷ ps)
unfolding query_get
query_get-print_query p ps key h = query_parts-print_query p ps key h
