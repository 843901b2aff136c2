-- ===== src/State/Routes/Stored.antt =====
-- Which models end in which upstream when routes are applied.
use gptload_rs.Prelude.{
  ℕ, zero, suc, ◌+◌, ◌<◌, ◌≡◌, ◌≢◌, refl, ◌∙◌, sym, ap, false, ◌||◌, some_same, Bool-cases, inl,
  inr, Option-cases, some, List, [], ◌∷◌, get_elem?, arith,
}
use gptload_rs.Prelude.Text.{Str, str_eq, str_eq_iff, contains}
use gptload_rs.Prelude.Dict.{Dict, lookup}
use gptload_rs.State.Defs.{Upstream, UpstreamCell, Memory, update, update_same, update_other}
use gptload_rs.State.Select.{index_of}
use gptload_rs.State.Routes.{list_at, insert_models, per_upstream, store_models}
use gptload_rs.State.Routes.Inverse.{IsDistinct}
use gptload_rs.State.Routes.Serves.{serves, insert_models-serves}

-- The set of an upstream whose position only its id has in the index.
pub per_upstream-serves :
    (d : Dict (List Str)) (index : List (Str × ℕ)) (sets : ℕ → List Str) (id : Str) (i : ℕ)
    (m : Str)
    → index_of id index ≡ some i
    → ((j : Str) → index_of j index ≡ some i → j ≡ id)
    → IsDistinct d
    → contains (per_upstream d index sets i) m ≡ (contains (sets i) m || serves (list_at id d) m)
unfolding per_upstream lookup
per_upstream-serves [] index sets id i m at only h = ground arith
per_upstream-serves ((j, l) ∷ d) index sets id i m at only (fresh, h) =
    elim (Option-cases (index_of j index)) [
      | inl e ↦
          let apart : str_eq j id ≡ false = elim (Bool-cases (str_eq j id)) [
            | inl f ↦ absurd (
                let same = ap (λ n. index_of n index) ((str_eq_iff j id).0 f) in
                let clash = sym e ∙ same ∙ at in cc clash)
            | inr f ↦ f
          ] in
          let ih = per_upstream-serves d index sets id i m at only h in ground (arith, e, apart, ih)
      | inr (k, e) ↦
          let set' = insert_models (sets k) l in
          let sets' = update sets k set' in
          let ih = per_upstream-serves d index sets' id i m at only h in
          elim (Bool-cases (str_eq j id)) [
            | inl f ↦
                let same = (str_eq_iff j id).0 f in
                let k_i : k ≡ i = some_same (sym e ∙ ap (λ n. index_of n index) same ∙ at) in
                let gone = ap (λ n. lookup n d) (sym same) ∙ fresh in
                let here =
                  ap (λ s. contains s m) (update_same sets set' {i = k} {j = i} (sym k_i)) in
                let grown = insert_models-serves (sets k) l m in
                let old = ap (λ n. contains (sets n) m) k_i in
                ground (arith, e, f, ih, gone, here, grown, old)
            | inr f ↦
                let away : i ≢ k = λ same.
                  let j_id = only j (e ∙ ap some (sym same)) in
                  absurd (let clash = sym ((str_eq_iff j id).1 j_id) ∙ f in cc clash) in
                let here = ap (λ s. contains s m) (update_other sets set' {i = k} {j = i} away) in
                ground (arith, e, f, ih, here)
          ]
    ]

-- Upstreams that stand in cells one after the other.
abbrev pub InRow : ℕ → List Upstream → Type 0
InRow b [] = Unit
InRow b (u ∷ us) = (u.cell ≡ b) × InRow (suc b) us

pub cells-InRow :
    (b : ℕ) (us : List Upstream)
    → ((i : ℕ) (u : Upstream) → get_elem? us i ≡ some u → u.cell ≡ b + i)
    → InRow b us
cells-InRow b [] h = tt
cells-InRow b (u ∷ us) h =
    (h 0 u refl ∙ omega arith, cells-InRow (suc b) us (λ i v e. h (suc i) v e ∙ omega arith))

-- Only the models of the row's cells change.
pub store_models_below :
    (us : List Upstream) (k b c : ℕ) (sets : ℕ → List Str) (m : Memory)
    → InRow b us
    → c < b
    → (store_models us k sets m).upstream_at c ≡ m.upstream_at c
unfolding store_models
store_models_below [] k b c sets m row lt = refl
store_models_below (u ∷ us) k b c sets m (at, row) lt =
    let cell = record (m.upstream_at u.cell) { models = sets k } in
    let m' = record m { upstream_at = update m.upstream_at u.cell cell } in
    store_models_below us (suc k) (suc b) c sets m' row (omega arith)
    ∙ update_other m.upstream_at cell {i = u.cell} {j = c} (λ e. absurd (omega arith))

InRow-cell :
    (b : ℕ) (us : List Upstream) (i : ℕ) (u : Upstream)
    → InRow b us
    → get_elem? us i ≡ some u
    → u.cell ≡ b + i
InRow-cell b [] i u row e = absurd (cc)
InRow-cell b (v ∷ us) zero u (at, row) e =
    ap (λ (w : Upstream). w.cell) (sym (some_same e)) ∙ at ∙ omega arith
InRow-cell b (v ∷ us) (suc i) u (at, row) e = InRow-cell (suc b) us i u row e ∙ omega arith

abbrev filled : Memory → (ℕ → List Str) → Upstream → ℕ → UpstreamCell
filled m sets u n = record (m.upstream_at u.cell) { models = sets n }

pub store_models_at :
    (us : List Upstream) (k b i : ℕ) (u : Upstream) (sets : ℕ → List Str) (m : Memory)
    → InRow b us
    → get_elem? us i ≡ some u
    → (store_models us k sets m).upstream_at u.cell
      ≡ record (m.upstream_at u.cell) { models = sets (k + i) }
unfolding store_models
store_models_at [] k b i u sets m row e = absurd (cc)
store_models_at (v ∷ us) k b zero u sets m (at, row) e =
    let cell = record (m.upstream_at v.cell) { models = sets k } in
    let m' = record m { upstream_at = update m.upstream_at v.cell cell } in
    let same : v ≡ u = some_same e in
    store_models_below us (suc k) (suc b) u.cell sets m' row (omega (arith, ap (λ w. w.cell) same))
    ∙ update_same m.upstream_at cell {i = v.cell} {j = u.cell} (ap (λ w. w.cell) (sym same))
    ∙ ap (λ (w : Upstream). filled m sets w k) same
    ∙ ap (filled m sets u) (omega arith)
store_models_at (v ∷ us) k b (suc i) u sets m (at, row) e =
    let cell = record (m.upstream_at v.cell) { models = sets k } in
    let m' = record m { upstream_at = update m.upstream_at v.cell cell } in
    let far = InRow-cell (suc b) us i u row e in
    let other : u.cell ≢ v.cell = λ same. absurd (omega (arith, far, same)) in
    store_models_at us (suc k) (suc b) i u sets m' row e
    ∙ ap (λ (c : UpstreamCell). record c { models = sets (suc k + i) })
        (update_other m.upstream_at cell {i = v.cell} {j = u.cell} other)
    ∙ ap (filled m sets u) (omega arith)
