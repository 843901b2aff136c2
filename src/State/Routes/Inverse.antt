-- ===== src/State/Routes/Inverse.antt =====
-- The two maps of the model routes are inverse to each other.
use gptload_rs.Prelude.{
  ℕ, ◌≡◌, refl, ◌∙◌, sym, ap, Bool, false, ◌&&◌, ◌||◌, Bool-cases, inl, inr, none, List, [], ◌∷◌,
  ◌++◌, arith,
}
use gptload_rs.Prelude.Text.{Str, str_eq, str_eq_iff, contains, contains-snoc, is_empty}
use gptload_rs.Prelude.Dict.{Dict, lookup, insert, lookup-insert}
use gptload_rs.Prelude.Sort.{sort, dedup, contains-sort, contains-dedup}
use gptload_rs.State.Defs.{Upstream, Memory, RouterState}
use gptload_rs.State.Routes.{
  list_at, push_at, push_all, invert, sort_values, models_of, loaded_models, build_model_routes,
}

-- No key stands twice, as in every map of the code.
abbrev pub IsDistinct : Dict (List Str) → Type 0
IsDistinct [] = Unit
IsDistinct ((k, _) ∷ d) = (lookup k d ≡ none) × IsDistinct d

pub insert-IsDistinct :
    (k : Str) (l : List Str) (d : Dict (List Str)) → IsDistinct d → IsDistinct (insert k l d)
unfolding insert lookup
insert-IsDistinct k l [] h = (refl, tt)
insert-IsDistinct k l ((j, w) ∷ d) (fresh, h) = elim (Bool-cases (str_eq j k)) [
  | inl e ↦ let same = (str_eq_iff j k).0 e in rw e (ap (λ n. lookup n d) (sym same) ∙ fresh, h)
  | inr e ↦
      let swap = str_eq_iff j k in
      let swap' = str_eq_iff k j in
      rw e
        (lookup-insert k j l d ∙ ground (arith, e, swap, swap', fresh), insert-IsDistinct k l d h)
]

-- Whether an entry for `id` has the model.
abbrev mentions : Dict (List Str) → Str → Str → Bool
mentions [] id m = false
mentions ((j, l) ∷ d) id m = str_eq j id && contains l m || mentions d id m

mentions-fresh : (d : Dict (List Str)) (id m : Str) → lookup id d ≡ none → mentions d id m ≡ false
unfolding lookup
mentions-fresh [] id m h = refl
mentions-fresh ((j, l) ∷ d) id m h = elim (Bool-cases (str_eq j id)) [
  | inl e ↦ absurd (ground (arith, e, h))
  | inr e ↦ ground (arith, e, mentions-fresh d id m (ground (arith, e, h)))
]

mentions-list_at :
    (d : Dict (List Str)) (id m : Str) → IsDistinct d → mentions d id m ≡ contains (list_at id d) m
unfolding lookup contains
mentions-list_at [] id m h = refl
mentions-list_at ((j, l) ∷ d) id m (fresh, h) = elim (Bool-cases (str_eq j id)) [
  | inl e ↦
      let same = (str_eq_iff j id).0 e in
      let gone = mentions-fresh d id m (ap (λ n. lookup n d) (sym same) ∙ fresh) in
      ground (arith, e, gone)
  | inr e ↦ ground (arith, e, mentions-list_at d id m h)
]

push_at-contains :
    (model id : Str) (models : Dict (List Str)) (m j : Str)
    → contains (list_at m (push_at model id models)) j
      ≡ (contains (list_at m models) j || str_eq model m && str_eq id j)
push_at-contains model id models m j =
    let found = lookup-insert model m (list_at model models ++ id ∷ []) models in
    let snoc = contains-snoc (list_at model models) id j in
    elim (Bool-cases (str_eq model m)) [
      | inl e ↦
          let same = ap (λ n. contains (list_at n models) j) ((str_eq_iff model m).0 e) in
          ground (arith, e, found, snoc, same)
      | inr e ↦ ground (arith, e, found)
    ]

push_all-contains :
    (id : Str) (list : List Str) (models : Dict (List Str)) (m j : Str)
    → contains (list_at m (push_all id list models)) j
      ≡ (contains (list_at m models) j || contains list m && str_eq id j)
unfolding push_all contains
push_all-contains id [] models m j = ground arith
push_all-contains id (k ∷ list) models m j =
    let one = push_at-contains k id models m j in
    push_all-contains id list (push_at k id models) m j ∙ ground (arith, one)

invert-contains :
    (d models : Dict (List Str)) (m j : Str)
    → contains (list_at m (invert d models)) j ≡ (contains (list_at m models) j || mentions d j m)
unfolding invert
invert-contains [] models m j = ground arith
invert-contains ((id, l) ∷ d) models m j =
    let one = push_all-contains id l models m j in
    invert-contains d (push_all id l models) m j ∙ ground (arith, one)

sort_values-contains :
    (d : Dict (List Str)) (m j : Str)
    → contains (list_at m (sort_values d)) j ≡ contains (list_at m d) j
unfolding sort_values lookup
sort_values-contains [] m j = refl
sort_values-contains ((k, ids) ∷ d) m j =
    let one = contains-dedup (sort ids) j ∙ contains-sort ids j in
    ground (arith, one, sort_values-contains d m j)

-- The map from models to upstreams has an upstream under a model exactly when the map from
-- upstreams to models has the model under the upstream.
pub models_of_lem :
    (upstreams : Dict (List Str)) (model id : Str)
    → IsDistinct upstreams
    → contains (list_at model (models_of upstreams)) id ≡ contains (list_at id upstreams) model
unfolding lookup contains
models_of_lem upstreams model id h =
    sort_values-contains (invert upstreams []) model id
    ∙ invert-contains upstreams [] model id
    ∙ mentions-list_at upstreams id model h

loaded_models-IsDistinct :
    (m : Memory) (us : List Upstream) (acc : Dict (List Str))
    → IsDistinct acc
    → IsDistinct (loaded_models m us acc)
unfolding loaded_models
loaded_models-IsDistinct m [] acc h = h
loaded_models-IsDistinct m (u ∷ us) acc h =
    let set = (m.upstream_at u.cell).models in
    elim (Bool-cases (is_empty set)) [
      | inl e ↦ rw e (loaded_models-IsDistinct m us acc h)
      | inr e ↦ rw e (
          loaded_models-IsDistinct m us (insert u.id (dedup (sort set)) acc)
            (insert-IsDistinct u.id (dedup (sort set)) acc h))
    ]

-- The routes that are built from memory agree in both directions.
pub build_model_routes_lem :
    (now : ℕ) (s : RouterState) (model id : Str)
    → contains (list_at model (build_model_routes now s).models) id
      ≡ contains (list_at id (build_model_routes now s).upstreams) model
unfolding build_model_routes
build_model_routes_lem now s model id =
    models_of_lem (loaded_models s.memory s.snapshot.upstreams []) model id
      (loaded_models-IsDistinct s.memory s.snapshot.upstreams [] tt)
