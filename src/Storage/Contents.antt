-- ===== src/Storage/Contents.antt =====
-- What the calls of the key store leave in the trees, when they succeed.
use gptload_rs.Prelude.{
  ℕ, ◌+◌, ◌≤◌, ◌≡◌, ◌∙◌, sym, ap, subst, Bool, true, false, ◌&&◌, ◌||◌, not, inl, inr, Option, none,
  some, List, [], ◌∷◌, length, length-append, if◌then◌else◌, arith,
}
use gptload_rs.Prelude.Text.{Str, str_eq, str_eq_iff, str_eq_refl, contains, contains-snoc}
use gptload_rs.Prelude.Result.{ok, ok-injective, Result-cases}
use gptload_rs.Prelude.Effect.{pure, bind-eq-ok}
use gptload_rs.Storage.Database.{Sled, texts}
use gptload_rs.Storage.{
  AddKeysResult, tree_name, texts_of, counting, add_loop, add_keys, insert_loop, replace_keys,
  delete_loop, delete_keys, load_all_keys,
}

module _ {D : Type 0} (sled : Sled D) where
  insert_loop-has :
      (name : Str) (keys : List Str) (t k : Str) (d : D)
      → (insert_loop sled name keys d).0 ≡ ok tt
      → sled.has t k (insert_loop sled name keys d).1
        ≡ (str_eq name t && contains keys k || sled.has t k d)
  unfolding insert_loop contains
  insert_loop-has name [] t k d e = ground arith
  insert_loop-has name (j ∷ keys) t k d e =
      let (new, one, rest, e') =
        bind-eq-ok (sled.insert name j) (λ _. insert_loop sled name keys) d e in
      let d' = (sled.insert name j d).1 in
      let (_, held) = sled.has-insert name j t k d new one in
      let more = insert_loop-has name keys t k d' e' in
      ap (λ r. sled.has t k r.1) rest ∙ more ∙ ground (arith, held)

  -- `replace_keys`, when it succeeds, leaves exactly the given keys in the upstream's tree, and the
  -- other trees as they were.
  pub replace_keys_lem :
      (upstream_id : Str) (keys : List Str) (t k : Str) (d : D)
      → (replace_keys sled upstream_id keys d).0 ≡ ok tt
      → sled.has t k (replace_keys sled upstream_id keys d).1
        ≡ (if str_eq (tree_name upstream_id) t then contains keys k else sled.has t k d)
  unfolding replace_keys
  replace_keys_lem upstream_id keys t k d e =
      let name = tree_name upstream_id in
      let (_, e1, r1, f1) = bind-eq-ok (sled.open_tree name) _ d e in
      let d1 = (sled.open_tree name d).1 in
      let (_, e2, r2, f2) = bind-eq-ok (sled.clear name) _ d1 f1 in
      let d2 = (sled.clear name d1).1 in
      let (_, e3, r3, f3) = bind-eq-ok (insert_loop sled name keys) _ d2 f2 in
      let d3 = (insert_loop sled name keys d2).1 in
      let a = sled.has-open_tree name t k d e1 in
      let b = sled.has-clear name t k d1 e2 in
      let c = insert_loop-has name keys t k d2 e3 in
      let f = sled.has-flush name t k d3 f3 in
      ap (λ r. sled.has t k r.1) (r1 ∙ r2 ∙ r3) ∙ f ∙ c ∙ ground (arith, a, b)

  delete_loop-has :
      (name : Str) (keys : List Str) (removed : ℕ) (t k : Str) (d : D) {n : ℕ}
      → (delete_loop sled name keys removed d).0 ≡ ok n
      → (sled.has t k (delete_loop sled name keys removed d).1
          ≡ (not (str_eq name t && contains keys k) && sled.has t k d))
        × (n ≤ removed + length keys)
  unfolding delete_loop contains
  delete_loop-has name [] removed t k d e = ground (arith, e)
  delete_loop-has name (j ∷ keys) removed t k d {n} e =
      let (old, one, rest, e') =
        bind-eq-ok (sled.remove name j)
          (λ old. delete_loop sled name keys (if old then removed + 1 else removed)) d e in
      let d' = (sled.remove name j d).1 in
      let (_, held) = sled.has-remove name j t k d old one in
      let (more, few) =
        delete_loop-has name keys (if old then removed + 1 else removed) t k d' {n = n} e' in
      (ap (λ r. sled.has t k r.1) rest ∙ more ∙ ground (arith, held), ground (arith, few))

  -- `delete_keys`, when it succeeds, takes the given keys out of the upstream's tree and nothing
  -- else, and does not count more removals than there are keys.
  pub delete_keys_lem :
      (upstream_id : Str) (keys : List Str) (t k : Str) (d : D) {n : ℕ}
      → (delete_keys sled upstream_id keys d).0 ≡ ok n
      → (sled.has t k (delete_keys sled upstream_id keys d).1
          ≡ (not (str_eq (tree_name upstream_id) t && contains keys k) && sled.has t k d))
        × (n ≤ length keys)
  unfolding delete_keys
  delete_keys_lem upstream_id keys t k d {n} e =
      let name = tree_name upstream_id in
      let (_, e1, r1, f1) = bind-eq-ok (sled.open_tree name) _ d e in
      let d1 = (sled.open_tree name d).1 in
      let (m, e2, r2, f2) = bind-eq-ok (delete_loop sled name keys 0) _ d1 f1 in
      let d2 = (delete_loop sled name keys 0 d1).1 in
      let (_, e3, r3, f3) = bind-eq-ok (sled.flush name) (λ _. pure m) d2 f2 in
      let a = sled.has-open_tree name t k d e1 in
      let (b, few) = delete_loop-has name keys 0 t k d1 {n = m} e2 in
      let c = sled.has-flush name t k d2 e3 in
      let same = ok-injective f3 in
      (
        ap (λ r. sled.has t k r.1) (r1 ∙ r2 ∙ r3) ∙ c ∙ b ∙ ground (arith, a),
        omega (arith, few, same),
      )

  -- What the loop of `add_keys` has done: the tree holds the keys as well, the new ones are those it
  -- did not hold, each counted once, and every key is counted.
  record IsAdded (name : Str) (keys : List Str) (r : AddKeysResult) (d : D) (r' : AddKeysResult)
      (d' : D) : Type 0 where
    has : (t k : Str) → sled.has t k d' ≡ (str_eq name t && contains keys k || sled.has t k d)
    new :
        (k : Str)
        → contains r'.inserted_keys k
          ≡ (contains r.inserted_keys k || contains keys k && not (sled.has name k d))
    counted : r'.inserted + r'.existed ≡ r.inserted + r.existed + length keys
    listed : length r'.inserted_keys + r.inserted ≡ length r.inserted_keys + r'.inserted

  new_step :
      (name j k : Str) (keys : List Str) (r : AddKeysResult) (d d1 : D) (new : Bool)
      → new ≡ not (sled.has name j d)
      → sled.has name k d1 ≡ (str_eq name name && str_eq j k || sled.has name k d)
      → (contains (counting j new r).inserted_keys k || contains keys k && not (sled.has name k d1))
        ≡ (contains r.inserted_keys k || (str_eq j k || contains keys k) && not (sled.has name k d))
  new_step name j k keys r d d1 true fresh held =
      let snoc = contains-snoc r.inserted_keys j k in
      let same = str_eq_iff j k in
      let self = str_eq_refl name in ground (arith, snoc, same, self, fresh, held)
  new_step name j k keys r d d1 false fresh held =
      let same = str_eq_iff j k in
      let self = str_eq_refl name in ground (arith, same, self, fresh, held)

  add_loop-IsAdded :
      (name : Str) (keys : List Str) (r : AddKeysResult) (d : D) {r' : AddKeysResult}
      → (add_loop sled name keys r d).0 ≡ ok r'
      → IsAdded name keys r d r' (add_loop sled name keys r d).1
  unfolding add_loop contains
  add_loop-IsAdded name [] r d {r'} e =
      subst (λ q. IsAdded name [] r d q d) (ok-injective e)
        (record {
          has = λ t k. ground arith;
          new = λ k. ground arith;
          counted = omega arith;
          listed = omega arith;
        })
  add_loop-IsAdded name (j ∷ keys) r d {r'} e =
      let (new, one, rest, e') =
        bind-eq-ok (sled.insert name j) (λ new. add_loop sled name keys (counting j new r)) d e in
      let d1 = (sled.insert name j d).1 in
      let ih = add_loop-IsAdded name keys (counting j new r) d1 {r' = r'} e' in
      subst (λ q. IsAdded name (j ∷ keys) r d r' q.1) (sym rest)
        (record {
          has = λ t k.
              let (_, held) = sled.has-insert name j t k d new one in
              ih.has t k ∙ ground (arith, held);
          new = λ k.
              let (fresh, held) = sled.has-insert name j name k d new one in
              ih.new k ∙ new_step name j k keys r d d1 new fresh held;
          counted = let c = ih.counted in ground (arith, c);
          listed =
              let c = ih.listed in
              let l = length-append r.inserted_keys (j ∷ []) in ground (arith, c, l);
        })

  -- `add_keys`, when it succeeds, adds the given keys to the upstream's tree and nothing else. Every
  -- key is counted as inserted or as existing, and the inserted ones are listed: the given keys that
  -- the tree did not hold.
  pub add_keys_lem :
      (upstream_id : Str) (keys : List Str) (t k : Str) (d : D) {r : AddKeysResult}
      → (add_keys sled upstream_id keys d).0 ≡ ok r
      → (sled.has t k (add_keys sled upstream_id keys d).1
          ≡ (str_eq (tree_name upstream_id) t && contains keys k || sled.has t k d))
        × (contains r.inserted_keys k
            ≡ (contains keys k && not (sled.has (tree_name upstream_id) k d)))
        × (r.inserted + r.existed ≡ length keys)
        × (length r.inserted_keys ≡ r.inserted)
  unfolding add_keys contains
  add_keys_lem upstream_id keys t k d {r} e =
      let name = tree_name upstream_id in
      let (_, e1, r1, f1) = bind-eq-ok (sled.open_tree name) _ d e in
      let d1 = (sled.open_tree name d).1 in
      let start : AddKeysResult = record { inserted = 0; existed = 0; inserted_keys = [] } in
      let (q, e2, r2, f2) = bind-eq-ok (add_loop sled name keys start) _ d1 f1 in
      let d2 = (add_loop sled name keys start d1).1 in
      let (_, e3, r3, f3) = bind-eq-ok (sled.flush name) (λ _. pure q) d2 f2 in
      let a = sled.has-open_tree name t k d e1 in
      let a' = sled.has-open_tree name name k d e1 in
      let b = add_loop-IsAdded name keys start d1 {r' = q} e2 in
      let c = sled.has-flush name t k d2 e3 in
      let new = b.new k in
      let counted = b.counted in
      let listed = b.listed in
      let same = ok-injective f3 in
      (
        ap (λ p. sled.has t k p.1) (r1 ∙ r2 ∙ r3) ∙ c ∙ b.has t k ∙ ground (arith, a),
        subst (λ p. contains p.inserted_keys k ≡ (contains keys k && not (sled.has name k d))) same
            (new ∙ ground (arith, a')),
        subst (λ p. p.inserted + p.existed ≡ length keys) same (omega (arith, counted)),
        subst (λ p. length p.inserted_keys ≡ p.inserted) same (omega (arith, listed)),
      )

  texts_of-ok :
      (items : List (Option Str)) {keys : List Str} → texts_of items ≡ ok keys → keys ≡ texts items
  unfolding texts_of
  texts_of-ok [] e = sym (ok-injective e)
  texts_of-ok (none ∷ items) e = absurd (cc)
  texts_of-ok (some k ∷ items) {keys} e = elim (Result-cases (texts_of items)) [
    | inl (why, f) ↦ absurd (ground (arith, e, f))
    | inr (rest, f) ↦
        let ih = texts_of-ok items f in
        let same : k ∷ rest ≡ keys = ground (arith, e, f) in sym same ∙ ap (λ l. k ∷ l) ih
  ]

  -- `load_all_keys`, when it succeeds, returns the keys that the upstream's tree holds, and changes
  -- nothing.
  pub load_all_keys_lem :
      (upstream_id : Str) (t k : Str) (d : D) {keys : List Str}
      → (load_all_keys sled upstream_id d).0 ≡ ok keys
      → (contains keys k ≡ sled.has (tree_name upstream_id) k d)
        × (sled.has t k (load_all_keys sled upstream_id d).1 ≡ sled.has t k d)
  unfolding load_all_keys
  load_all_keys_lem upstream_id t k d {keys} e =
      let name = tree_name upstream_id in
      let (_, e1, r1, f1) = bind-eq-ok (sled.open_tree name) _ d e in
      let d1 = (sled.open_tree name d).1 in
      let (items, e2, r2, f2) = bind-eq-ok (sled.iter name) (λ l s. (texts_of l, s)) d1 f1 in
      let (held, kept) = sled.has-iter name t k d1 items e2 in
      let same = texts_of-ok items f2 in
      (
        ap (λ l. contains l k) same ∙ held ∙ sled.has-open_tree name name k d e1,
        ap (λ p. sled.has t k p.1) (r1 ∙ r2) ∙ kept ∙ sled.has-open_tree name t k d e1,
      )
