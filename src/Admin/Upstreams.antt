-- ===== src/Admin/Upstreams.antt =====
-- The handlers of src/admin.rs that change the upstreams and the model routes. The refresh of
-- models that they spawn afterwards is left out.
pub mod Answered
use gptload_rs.Prelude.{
  ℕ, ◌+◌, ◌*◌, Bool, true, false, ◌&&◌, ◌||◌, leb, Option, none, some, List, [], ◌∷◌, if◌then◌else◌,
}
use gptload_rs.Prelude.Text.{Str, codes, str_eq, is_empty, trim}
use gptload_rs.Prelude.Dict.{Dict}
use gptload_rs.Prelude.Result.{Result, ok, err}
use gptload_rs.Config.{UpstreamConfig}
use gptload_rs.State.Snapshot.{Http}
use gptload_rs.Storage.Database.{Sled}
use gptload_rs.State.Routes.Disk.{ModelRoutesFile, Files, Hub}
use gptload_rs.State.Routes.{save_model_routes}
use gptload_rs.State.Upstreams.{add_upstream, update_upstream, delete_upstream}
use gptload_rs.Util.{query_get}
use gptload_rs.Admin.Body.{read_body_limit}

-- The answers: `{"ok": true}`, the routes, or an error with status 400.
pub data Reply : Type 0 where
  done : Reply
  saved : ModelRoutesFile → Reply
  refused : Reply

pub record UpstreamBody : Type 0 where
  pub id : Str
  pub base_url : Str
  pub weight : Option ℕ

pub record UpstreamUpdateBody : Type 0 where
  pub base_url : Str
  pub weight : Option ℕ

abbrev pub upstream_limit : ℕ
upstream_limit = 256 * 1024

abbrev pub routes_limit : ℕ
routes_limit = 10 * 1024 * 1024

-- A body that is read and parsed.
unfoldable pub payload {ℓ} :
    {A : Type ℓ} → (List ℕ → Option A) → List (Result (List ℕ)) → ℕ → Option A
unfolding read_body_limit
payload from_slice chunks limit = elim (read_body_limit chunks limit []) [
  | err _ ↦ none
  | ok body ↦ from_slice body
]

abbrev pub answer : {F : Type 0} → Result (Unit {0}) × Hub F → Reply × Hub F
answer (err _, h) = (refused, h)
answer (ok _, h) = (done, h)

abbrev pub answer_routes : {F : Type 0} → Result ModelRoutesFile × Hub F → Reply × Hub F
answer_routes (err _, h) = (refused, h)
answer_routes (ok routes, h) = (saved routes, h)

-- A letter in lower case, as far as ASCII goes.
abbrev lower : ℕ → ℕ
lower c = if leb b'A' c && leb c b'Z' then c + 32 else c

abbrev lower_all : Str → Str
lower_all [] = []
lower_all (c ∷ s) = lower c ∷ lower_all s

-- `v == "1" || v.eq_ignore_ascii_case("true")`
abbrev pub is_yes : Option Str → Bool
is_yes none = false
is_yes (some v) = str_eq v (codes "1") || str_eq (lower_all v) (codes "true")

module _ {F : Type 0} (http : Http) (sled : Sled F) (files : Files F) (now : ℕ) where
  unfoldable pub api_add_upstream :
      (List ℕ → Option UpstreamBody) → List (Result (List ℕ)) → Hub F → Reply × Hub F
  unfolding payload trim add_upstream
  api_add_upstream from_slice chunks h = elim (payload from_slice chunks upstream_limit) [
    | none ↦ (refused, h)
    | some input ↦
        let cfg : UpstreamConfig = record {
          id = trim input.id;
          base_url = trim input.base_url;
          weight = input.weight;
        } in
        let added = answer (add_upstream http sled files now cfg h) in
        if is_empty (trim input.id)
        then (refused, h)
        else if is_empty (trim input.base_url)
        then (refused, h)
        else added
  ]

  unfoldable pub api_update_upstream :
      (List ℕ → Option UpstreamUpdateBody) → List (Result (List ℕ)) → Str → Hub F → Reply × Hub F
  unfolding payload trim update_upstream
  api_update_upstream from_slice chunks upstream_id h =
      elim (payload from_slice chunks upstream_limit) [
        | none ↦ (refused, h)
        | some input ↦
            let base_url = trim input.base_url in
            let updated =
              answer (update_upstream http sled files now upstream_id base_url input.weight h) in
            if is_empty base_url then (refused, h) else updated
      ]

  unfoldable pub api_delete_upstream : Str → Option Str → Hub F → Reply × Hub F
  unfolding query_get delete_upstream
  api_delete_upstream upstream_id query h =
      let delete_keys = is_yes (query_get query (codes "delete_keys")) in
      answer (delete_upstream http sled files now upstream_id delete_keys h)

  unfoldable pub api_put_model_routes :
      (List ℕ → Option (Dict (List Str))) → List (Result (List ℕ)) → Hub F → Reply × Hub F
  unfolding payload save_model_routes
  api_put_model_routes from_slice chunks h = elim (payload from_slice chunks routes_limit) [
    | none ↦ (refused, h)
    | some upstreams ↦ answer_routes (save_model_routes files now upstreams h)
  ]
