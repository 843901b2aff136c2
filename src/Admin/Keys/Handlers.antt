-- ===== src/Admin/Keys/Handlers.antt =====
-- The handlers for the keys keep memory and database in step.
use gptload_rs.Prelude.{ℕ, ◌≡◌, refl, Bool, inl, inr, ◌⊎◌, Option-cases, List, Bool-cases}
use gptload_rs.Prelude.Text.{Str, is_empty}
use gptload_rs.Prelude.Result.{Result, Result-cases}
use gptload_rs.State.Select.{upstream_by_id}
use gptload_rs.State.Snapshot.{Http}
use gptload_rs.State.Snapshot.Uses.{upstream_by_id_lem}
use gptload_rs.Storage.Database.{Sled}
use gptload_rs.Admin.Defs.{Backend, Response}
use gptload_rs.Admin.Keys.{
  Checked, refused, accepted, checked_keys, api_add_keys, api_replace_keys, api_delete_keys,
}
use gptload_rs.Admin.Keys.InSync.{IsConsistent}
use gptload_rs.Admin.Keys.Steps.{
  IsFailure, IsDeduped, checked_keys-IsKey, add_to_upstream-IsConsistent,
  replace_in_upstream-IsConsistent, delete_from_upstream-IsConsistent,
}

Checked-cases :
    (c : Checked) → ((r : Response) × (c ≡ refused r)) ⊎ ((keys : List Str) × (c ≡ accepted keys))
Checked-cases (refused r) = inl (r, refl)
Checked-cases (accepted keys) = inr (keys, refl)

-- When memory and database hold the same keys, they still do after `api_add_keys`, unless it
-- answers 500 or the client has switched off the deduplication.
pub api_add_keys-IsConsistent :
    {D : Type 0} (http : Http) (sled : Sled D) {base : ℕ} (b : Backend D)
    (body : Result (List Str × Bool)) (id : Str)
    → IsConsistent sled base b
    → IsDeduped body
    → ¬ IsFailure (api_add_keys http sled body id b).0
    → IsConsistent sled base (api_add_keys http sled body id b).1
unfolding api_add_keys
api_add_keys-IsConsistent http sled {base} b body id c d good =
    elim (Option-cases (upstream_by_id id b.router)) [
      | inl e ↦ rw (api_add_keys, e) c
      | inr ((i, u), e) ↦
          let (at, same) = (upstream_by_id_lem b.router id i u c.built).0 e in
          elim (Checked-cases (checked_keys http body)) [
            | inl (r, f) ↦ rw (api_add_keys, e, f) c
            | inr (keys, f) ↦
                let clean = checked_keys-IsKey http body keys f d in
                let good' = rw (api_add_keys, e, f, ← same) at good in
                rw (api_add_keys, e, f, ← same)
                  (add_to_upstream-IsConsistent http sled b i u c at keys clean good')
          ]
    ]

-- When memory and database hold the same keys, they still do after `api_replace_keys`, unless it
-- answers 500 or the client has switched off the deduplication.
pub api_replace_keys-IsConsistent :
    {D : Type 0} (http : Http) (sled : Sled D) {base : ℕ} (b : Backend D)
    (body : Result (List Str × Bool)) (id : Str)
    → IsConsistent sled base b
    → IsDeduped body
    → ¬ IsFailure (api_replace_keys http sled body id b).0
    → IsConsistent sled base (api_replace_keys http sled body id b).1
unfolding api_replace_keys
api_replace_keys-IsConsistent http sled {base} b body id c d good =
    elim (Option-cases (upstream_by_id id b.router)) [
      | inl e ↦ rw (api_replace_keys, e) c
      | inr ((i, u), e) ↦
          let (at, same) = (upstream_by_id_lem b.router id i u c.built).0 e in
          elim (Checked-cases (checked_keys http body)) [
            | inl (r, f) ↦ rw (api_replace_keys, e, f) c
            | inr (keys, f) ↦
                let clean = checked_keys-IsKey http body keys f d in
                let good' = rw (api_replace_keys, e, f, ← same) at good in
                rw (api_replace_keys, e, f, ← same)
                  (replace_in_upstream-IsConsistent http sled b i u c at keys clean good')
          ]
    ]

-- When memory and database hold the same keys, they still do after `api_delete_keys`, unless it
-- answers 500.
pub api_delete_keys-IsConsistent :
    {D : Type 0} (http : Http) (sled : Sled D) {base : ℕ} (b : Backend D)
    (body : Result (List Str × Bool)) (id : Str)
    → IsConsistent sled base b
    → ¬ IsFailure (api_delete_keys http sled body id b).0
    → IsConsistent sled base (api_delete_keys http sled body id b).1
unfolding api_delete_keys
api_delete_keys-IsConsistent http sled {base} b body id c good =
    elim (Option-cases (upstream_by_id id b.router)) [
      | inl e ↦ rw (api_delete_keys, e) c
      | inr ((i, u), e) ↦
          let (at, same) = (upstream_by_id_lem b.router id i u c.built).0 e in
          elim (Result-cases body) [
            | inl (why, f) ↦ rw (api_delete_keys, e, f) c
            | inr ((parsed, dedupe), f) ↦ elim (Bool-cases (is_empty parsed)) [
              | inl g ↦ rw (api_delete_keys, e, f, g) c
              | inr g ↦
                  let good' = rw (api_delete_keys, e, f, g, ← same) at good in
                  rw (api_delete_keys, e, f, g, ← same)
                    (delete_from_upstream-IsConsistent http sled b i u c at _ good')
            ]
          ]
    ]
