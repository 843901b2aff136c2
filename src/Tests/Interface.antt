-- ===== src/Tests/Interface.antt =====
-- Requests to the admin interface.
use gptload_rs.Prelude.{ℕ, ◌≡◌, refl, true, false, some, List, [], ◌∷◌, ◌++◌, take, drop, arith}
use gptload_rs.Prelude.Text.{Str, codes, str_eq}
use gptload_rs.Prelude.Dict.{lookup}
use gptload_rs.Proxy.Auth.{HeaderMap, authorize_admin_header}
use gptload_rs.Admin.Routes.{post, add_keys, handle_admin}
use gptload_rs.Admin.Routes.Reached.{
  is_open, handle_admin-authorize_admin_header, handle_admin-request_of,
}
use gptload_rs.Admin.Pages.{page_of}
use gptload_rs.Admin.Pages.Listed.{page_of-eq-take}
use gptload_rs.Util.{query_get}
use gptload_rs.Util.Query.{print_query, query_get-print_query}
use gptload_rs.Tests.World.{router}

abbrev keys_path : Str
keys_path = codes "upstreams/" ++ codes "a" ++ codes "/keys"

abbrev full_path : Str
full_path = codes "/admin/api/v1/" ++ keys_path

abbrev no_headers : HeaderMap
no_headers = []

abbrev with_token : HeaderMap
with_token = (codes "x-admin-token", some (codes "t")) ∷ []

locked : authorize_admin_header router no_headers ≡ false
unfolding authorize_admin_header
locked = refl

let_in : authorize_admin_header router with_token ≡ true
unfolding authorize_admin_header str_eq router
let_in = refl

handle_admin-authorize_admin_header_example :
    is_open (handle_admin router post full_path no_headers) ≡ true
handle_admin-authorize_admin_header_example =
    handle_admin-authorize_admin_header router post full_path no_headers locked

handle_admin-request_of_example :
    handle_admin router post (codes "/admin/api/v1/" ++ keys_path) with_token ≡ add_keys (codes "a")
handle_admin-request_of_example =
    handle_admin-request_of router with_token (add_keys (codes "a")) (post, keys_path) let_in
      ((ground arith, tt), refl) refl

abbrev three : List ℕ
three = 1 ∷ 2 ∷ 3 ∷ []

page_of-eq-take_example : page_of 7 2 three ≡ take 2 (drop 7 three)
page_of-eq-take_example = page_of-eq-take 7 2 three (omega arith) (omega arith) (omega arith)

abbrev limit_pair : Str × Str
limit_pair = (codes "limit", codes "10")

abbrev other_pairs : List (Str × Str)
other_pairs = (codes "offset", codes "a=b") ∷ []

query_get-print_query_example :
    query_get (some (print_query (limit_pair ∷ other_pairs))) (codes "offset")
    ≡ lookup (codes "offset") (limit_pair ∷ other_pairs)
query_get-print_query_example =
    query_get-print_query limit_pair other_pairs (codes "offset")
      ((ground arith, ground arith, ground arith), ((ground arith, ground arith, ground arith), tt))
