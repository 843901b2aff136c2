-- ===== src/Admin/Upstreams/Answered.antt =====
-- What an answer of the handlers for upstreams means.
use gptload_rs.Prelude.{
  ℕ, ◌≡◌, refl, ◌∙◌, ap, false, Bool-cases, inl, inr, Option, Option-cases, some, List,
}
use gptload_rs.Prelude.Text.{str_eq_iff, is_empty, trim}
use gptload_rs.Prelude.Result.{Result, ok, err}
use gptload_rs.Config.{UpstreamConfig}
use gptload_rs.State.Snapshot.{Http, clamp_weight}
use gptload_rs.State.Snapshot.Built.{IsBuilt}
use gptload_rs.Storage.Database.{Sled}
use gptload_rs.State.Routes.Disk.{Files, Hub}
use gptload_rs.State.Upstreams.{current_upstream_configs, add_upstream}
use gptload_rs.State.Upstreams.Listing.{config_at, add_upstream_lem}
use gptload_rs.Admin.Upstreams.{
  done, UpstreamBody, upstream_limit, payload, answer, api_add_upstream,
}

answer-done : {F : Type 0} (r : Result (Unit {0}) × Hub F) → (answer r).0 ≡ done → r.0 ≡ ok tt
answer-done (err why, h) e = absurd (cc)
answer-done (ok _, h) e = refl

answer-same : {F : Type 0} (r : Result (Unit {0}) × Hub F) → (answer r).1 ≡ r.1
answer-same (err why, h) = refl
answer-same (ok _, h) = refl

-- When `api_add_upstream` answers that it is done, the body had an id and a URL that are not
-- blank, and there is an upstream with the two, trimmed, and with the weight clamped.
pub api_add_upstream_lem :
    {F : Type 0} (http : Http) (sled : Sled F) (files : Files F) (now : ℕ) {base : ℕ}
    (from_slice : List ℕ → Option UpstreamBody) (chunks : List (Result (List ℕ))) (h : Hub F)
    → IsBuilt base h.router.snapshot h.router.memory
    → (api_add_upstream http sled files now from_slice chunks h).0 ≡ done
    → (input : UpstreamBody) × (payload from_slice chunks upstream_limit ≡ some input)
      × (is_empty (trim input.id) ≡ false)
      × (is_empty (trim input.base_url) ≡ false)
      × (config_at (trim input.id) (
            current_upstream_configs
              (api_add_upstream http sled files now from_slice chunks h).1.router)
          ≡ some (record {
            id = trim input.id;
            base_url = trim input.base_url;
            weight = some (clamp_weight input.weight);
          }))
unfolding api_add_upstream
api_add_upstream_lem {F} http sled files now from_slice chunks h v e =
    elim (Option-cases (payload from_slice chunks upstream_limit)) [
      | inl f ↦ absurd (let failed = rw (api_add_upstream, f) at e in cc failed)
      | inr (input, f) ↦
          let cfg : UpstreamConfig = record {
            id = trim input.id;
            base_url = trim input.base_url;
            weight = input.weight;
          } in
          elim (Bool-cases (is_empty (trim input.id))) [
            | inl g ↦ absurd (let failed = rw (api_add_upstream, f, g) at e in cc failed)
            | inr g ↦ elim (Bool-cases (is_empty (trim input.base_url))) [
              | inl k ↦ absurd (let failed = rw (api_add_upstream, f, g, k) at e in cc failed)
              | inr k ↦
                  let r = add_upstream http sled files now cfg h in
                  let added = answer-done r (rw (api_add_upstream, f, g, k) at e) in
                  let here = add_upstream_lem http sled files now h v cfg (trim input.id) added in
                  let self = (str_eq_iff (trim input.id) (trim input.id)).1 refl in
                  (
                    input,
                    f,
                    g,
                    k,
                    rw (api_add_upstream, f, g, k)
                        (ap
                            (λ (x : Hub F).
                              config_at (trim input.id) (current_upstream_configs x.router))
                            (answer-same r)
                          ∙ here
                          ∙ rw self refl),
                  )
            ]
          ]
    ]
