-- ===== src/Admin/Keys/Steps.antt =====
-- The blocking parts of the handlers keep the keys in memory and in the database the same.
use gptload_rs.Prelude.{
  ℕ, ◌≡◌, ◌≢◌, refl, ◌∙◌, sym, ap, subst, Bool, true, false, ◌&&◌, ◌||◌, not, Bool-cases, inl, inr,
  some, List, [], ◌∷◌, ◌++◌, All, get_elem?, if◌then◌else◌, arith,
}
use gptload_rs.Prelude.Text.{Str, str_eq, str_eq_iff, str_eq_refl, contains}
use gptload_rs.Prelude.Result.{Result, ok, err, Result-cases}
use gptload_rs.State.Defs.{KeyState, Upstream, Memory, upstream_cell}
use gptload_rs.State.Snapshot.{Http, build_key_states}
use gptload_rs.State.Snapshot.Built.{build_key_states-next}
use gptload_rs.Storage.Database.{Sled}
use gptload_rs.Storage.{AddKeysResult, tree_name, add_keys, replace_keys, delete_keys}
use gptload_rs.Storage.Contents.{add_keys_lem, replace_keys_lem, delete_keys_lem}
use gptload_rs.Admin.Defs.{Backend, Response, json_error, internal_error}
use gptload_rs.Admin.Body.{dedupe_keys}
use gptload_rs.Admin.Body.Dedupe.{
  IsKey, dedupe_keys_lem, line_keys_same, keys_of, build_key_states-keys_of,
}
use gptload_rs.Admin.Keys.{
  accepted, checked_keys, retain_keys, append_states, append_keys, add_to_upstream, install_states,
  install_keys, drop_keys, replace_in_upstream, delete_from_upstream,
}
use gptload_rs.Admin.Keys.InSync.{
  keys_of-++, retain_keys-keys_of, IsConsistent, store_keys-IsConsistent,
}

abbrev pub IsFailure : Response → Type 0
IsFailure r = r ≡ json_error 500 internal_error

-- The client has not switched the deduplication off.
abbrev pub IsDeduped : Result (List Str × Bool) → Type 0
IsDeduped body = (keys : List Str) → body ≢ ok (keys, false)

All-contains : (P : Str → Type 0) (l : List Str) (k : Str) → All P l → contains l k ≡ true → P k
unfolding contains
All-contains P [] k a e = absurd (cc)
All-contains P (j ∷ l) k (p, a) e = elim (Bool-cases (str_eq j k)) [
  | inl f ↦ subst P ((str_eq_iff j k).0 f) p
  | inr f ↦ All-contains P l k a (ground (arith, e, f, str_eq_iff j k))
]

pub contains-All :
    (P : Str → Type 0) (l : List Str) → ((k : Str) → contains l k ≡ true → P k) → All P l
unfolding contains
contains-All P [] h = tt
contains-All P (j ∷ l) h = (
  h j (let self = str_eq_refl j in ground (arith, self)),
  contains-All P l (λ k e. h k (ground (arith, e))),
)

pub checked_keys-IsKey :
    (http : Http) (body : Result (List Str × Bool)) (keys : List Str)
    → checked_keys http body ≡ accepted keys
    → IsDeduped body
    → All IsKey keys
unfolding checked_keys
checked_keys-IsKey http (err why) keys e d = absurd (cc)
checked_keys-IsKey http (ok (parsed, false)) keys e d = absurd (d parsed refl)
checked_keys-IsKey http (ok (parsed, true)) keys e d =
    let same : dedupe_keys parsed ≡ keys = ground (arith, e) in
    let (_, clean, _) = dedupe_keys_lem parsed [] in subst (All IsKey) same clean

module _ {D : Type 0} (http : Http) (sled : Sled D) {base : ℕ} (b : Backend D) (i : ℕ)
    (u : Upstream) (c : IsConsistent sled base b)
    (at : get_elem? b.router.snapshot.upstreams i ≡ some u) where
  append_states-IsConsistent :
      (keys : List Str) (r : AddKeysResult) (built : Result (List KeyState × Memory)) (d : D)
      → built ≡ build_key_states http r.inserted_keys b.router.memory
      → All IsKey keys
      → ((t k : Str)
          → sled.has t k d ≡ (str_eq (tree_name u.id) t && contains keys k || sled.has t k b.db))
      → ((k : Str)
          → contains r.inserted_keys k
            ≡ (contains keys k && not (sled.has (tree_name u.id) k b.db)))
      → ¬ IsFailure (append_states http u r built d b).0
      → IsConsistent sled base (append_states http u r built d b).1
  unfolding append_states
  append_states-IsConsistent keys r (err why) d e clean has new good = absurd (good refl)
  append_states-IsConsistent keys r (ok (states, m)) d e clean has new good =
      let (named, cells) = build_key_states-keys_of http r.inserted_keys b.router.memory (sym e) in
      let next = build_key_states-next http r.inserted_keys b.router.memory (sym e) in
      let old = (m.upstream_at u.cell).keys in
      let clean' =
        contains-All IsKey r.inserted_keys
          (λ k h. All-contains IsKey keys k clean (let one = new k in ground (arith, h, one))) in
      let named' : keys_of states ≡ r.inserted_keys =
        named ∙ line_keys_same r.inserted_keys clean' in
      let held : (t k : Str)
          → sled.has t k d ≡ (
              if str_eq (tree_name u.id) t
              then contains (keys_of (old ++ states)) k
              else sled.has t k b.db) =
        λ t k.
          let both = keys_of-++ old states k in
          let before = ap (λ f. contains (keys_of (f u.cell).keys) k) cells ∙ c.in_sync i u k at in
          let named_k = ap (λ l. contains l k) named' in
          let one = new k in
          let all = has t k in
          elim (Bool-cases (str_eq (tree_name u.id) t)) [
            | inl f ↦
                let same = ap (λ n. sled.has n k b.db) ((str_eq_iff (tree_name u.id) t).0 f) in
                ground (arith, both, before, named_k, one, all, f, same)
            | inr f ↦ ground (arith, all, f)
          ] in
      store_keys-IsConsistent sled b i u (old ++ states) m d c at cells next held

  install_states-IsConsistent :
      (keys : List Str) (built : Result (List KeyState × Memory)) (d : D)
      → built ≡ build_key_states http keys b.router.memory
      → All IsKey keys
      → ((t k : Str)
          → sled.has t k d
            ≡ (if str_eq (tree_name u.id) t then contains keys k else sled.has t k b.db))
      → ¬ IsFailure (install_states http u built d b).0
      → IsConsistent sled base (install_states http u built d b).1
  unfolding install_states
  install_states-IsConsistent keys (err why) d e clean has good = absurd (good refl)
  install_states-IsConsistent keys (ok (states, m)) d e clean has good =
      let (named, cells) = build_key_states-keys_of http keys b.router.memory (sym e) in
      let next = build_key_states-next http keys b.router.memory (sym e) in
      let named' : keys_of states ≡ keys = named ∙ line_keys_same keys clean in
      store_keys-IsConsistent sled b i u states m d c at cells next (λ t k.
        let named_k = ap (λ l. contains l k) named' in
        let all = has t k in ground (arith, named_k, all))

  pub add_to_upstream-IsConsistent :
      (keys : List Str)
      → All IsKey keys
      → ¬ IsFailure (add_to_upstream http sled u.id u keys b).0
      → IsConsistent sled base (add_to_upstream http sled u.id u keys b).1
  unfolding add_to_upstream append_keys
  add_to_upstream-IsConsistent keys clean good =
      let added = add_keys sled u.id keys b.db in
      elim (Result-cases added.0) [
        | inl (why, e) ↦
            absurd (subst (λ a. ¬ IsFailure (append_keys http u a added.1 b).0) e good refl)
        | inr (r, e) ↦
            let built = build_key_states http r.inserted_keys b.router.memory in
            let lem = λ (t k : Str). add_keys_lem sled u.id keys t k b.db {r = r} e in
            subst (λ a. IsConsistent sled base (append_keys http u a added.1 b).1) (sym e)
              (append_states-IsConsistent keys r built added.1 refl clean (λ t k. (lem t k).0)
                (λ k. (lem [] k).1)
                (subst (λ a. ¬ IsFailure (append_keys http u a added.1 b).0) e good))
      ]

  pub replace_in_upstream-IsConsistent :
      (keys : List Str)
      → All IsKey keys
      → ¬ IsFailure (replace_in_upstream http sled u.id u keys b).0
      → IsConsistent sled base (replace_in_upstream http sled u.id u keys b).1
  unfolding replace_in_upstream install_keys
  replace_in_upstream-IsConsistent keys clean good =
      let replaced = replace_keys sled u.id keys b.db in
      elim (Result-cases replaced.0) [
        | inl (why, e) ↦
            absurd
              (subst (λ a. ¬ IsFailure (install_keys http u keys a replaced.1 b).0) e good refl)
        | inr (_, e) ↦
            let built = build_key_states http keys b.router.memory in
            subst (λ a. IsConsistent sled base (install_keys http u keys a replaced.1 b).1) (sym e)
              (install_states-IsConsistent keys built replaced.1 refl clean
                (λ t k. replace_keys_lem sled u.id keys t k b.db e)
                (subst (λ a. ¬ IsFailure (install_keys http u keys a replaced.1 b).0) e good))
      ]

  pub delete_from_upstream-IsConsistent :
      (keys : List Str)
      → ¬ IsFailure (delete_from_upstream http sled u.id u keys b).0
      → IsConsistent sled base (delete_from_upstream http sled u.id u keys b).1
  unfolding delete_from_upstream drop_keys
  delete_from_upstream-IsConsistent keys good =
      let deleted = delete_keys sled u.id keys b.db in
      elim (Result-cases deleted.0) [
        | inl (why, e) ↦
            absurd (subst (λ a. ¬ IsFailure (drop_keys u keys a deleted.1 b).0) e good refl)
        | inr (n, e) ↦
            let old = (upstream_cell b.router u).keys in
            subst (λ a. IsConsistent sled base (drop_keys u keys a deleted.1 b).1) (sym e)
              (store_keys-IsConsistent sled b i u (retain_keys keys old) b.router.memory deleted.1 c
                at refl refl
                (λ t k.
                  let (all, _) = delete_keys_lem sled u.id keys t k b.db {n = n} e in
                  let kept = retain_keys-keys_of keys old k in
                  let before = c.in_sync i u k at in
                  elim (Bool-cases (str_eq (tree_name u.id) t)) [
                    | inl f ↦
                        let same =
                          ap (λ w. sled.has w k b.db) ((str_eq_iff (tree_name u.id) t).0 f) in
                        ground (arith, all, kept, before, f, same)
                    | inr f ↦ ground (arith, all, f)
                  ]))
      ]
