-- ===== src/Admin/Keys/InSync.antt =====
-- The keys in memory and the keys in the database are the same, and the handlers keep it so.
use gptload_rs.Prelude.{
  ℕ, ◌≡◌, ◌≢◌, refl, ◌∙◌, sym, ap, ◌&&◌, ◌||◌, not, some_same, Bool-cases, inl, inr, some, List, [],
  ◌∷◌, ◌++◌, get_elem?, if◌then◌else◌, arith,
}
use gptload_rs.Prelude.Text.{Str, str_eq, str_eq_iff, str_eq_refl, contains}
use gptload_rs.State.Defs.{
  KeyState, Upstream, UpstreamCell, Memory, upstream_cell, update_same, update_other,
}
use gptload_rs.State.Select.{index_of}
use gptload_rs.State.Snapshot.Built.{IsBuilt}
use gptload_rs.Storage.Database.{Sled}
use gptload_rs.Storage.{tree_name}
use gptload_rs.Admin.Defs.{Backend}
use gptload_rs.Admin.Body.Dedupe.{keys_of}
use gptload_rs.Admin.Keys.{store_keys, retain_keys}

tree_name_eq : (a b : Str) → str_eq (tree_name a) (tree_name b) ≡ str_eq a b
unfolding tree_name str_eq
tree_name_eq a b = refl

pub keys_of-++ :
    (l r : List KeyState) (k : Str)
    → contains (keys_of (l ++ r)) k ≡ (contains (keys_of l) k || contains (keys_of r) k)
unfolding contains
keys_of-++ [] r k = ground arith
keys_of-++ (s ∷ l) r k = ground (arith, keys_of-++ l r k)

pub retain_keys-keys_of :
    (remove : List Str) (l : List KeyState) (k : Str)
    → contains (keys_of (retain_keys remove l)) k
      ≡ (not (contains remove k) && contains (keys_of l) k)
unfolding retain_keys contains
retain_keys-keys_of remove [] k = ground arith
retain_keys-keys_of remove (s ∷ l) k =
    let same = str_eq_iff s.key k in
    elim (Bool-cases (contains remove s.key)) [
      | inl e ↦ ground (arith, e, same, retain_keys-keys_of remove l k)
      | inr e ↦ ground (arith, e, same, retain_keys-keys_of remove l k)
    ]

module _ {D : Type 0} (sled : Sled D) where
  -- Every upstream has in memory the keys that its tree holds.
  pub record IsConsistent (base : ℕ) (b : Backend D) : Type 0 where
    pub built : IsBuilt base b.router.snapshot b.router.memory
    pub in_sync :
        (i : ℕ) (u : Upstream) (k : Str)
        → get_elem? b.router.snapshot.upstreams i ≡ some u
        → contains (keys_of (upstream_cell b.router u).keys) k ≡ sled.has (tree_name u.id) k b.db

  -- New keys for one upstream, in memory and in its tree.
  pub store_keys-IsConsistent :
      {base : ℕ} (b : Backend D) (i : ℕ) (u : Upstream) (states : List KeyState) (m : Memory)
      (d : D)
      → IsConsistent base b
      → get_elem? b.router.snapshot.upstreams i ≡ some u
      → m.upstream_at ≡ b.router.memory.upstream_at
      → m.next_upstream ≡ b.router.memory.next_upstream
      → ((t k : Str)
          → sled.has t k d ≡ (
              if str_eq (tree_name u.id) t then contains (keys_of states) k else sled.has t k b.db))
      → IsConsistent base
          (record b { router = store_keys u states (record b.router { memory = m }); db = d })
  store_keys-IsConsistent {base} b i u states m d c at cells next held = record {
    built = record {
      entries = c.built.entries;
      weights = c.built.weights;
      indexed = c.built.indexed;
      found = c.built.found;
      cells = c.built.cells;
      next = next ∙ c.built.next;
    };
    in_sync = λ j v k at'.
        let old = c.in_sync j v k at' in
        let cell_u = c.built.cells i u at in
        let cell_v = c.built.cells j v at' in
        let new = held (tree_name v.id) k in
        let names = tree_name_eq u.id v.id in
        let same_cell = ap (λ f. f v.cell) cells in
        let there = ap (λ l. contains (keys_of l.keys) k) same_cell ∙ old in
        elim (Bool-cases (str_eq u.id v.id)) [
          | inl e ↦
              let same = (str_eq_iff u.id v.id).0 e in
              let index = ap (λ w. index_of w b.router.snapshot.upstream_index) same in
              let one : i ≡ j =
                some_same (sym (c.built.found i u at) ∙ index ∙ c.built.found j v at') in
              let mine : UpstreamCell = record (upstream_cell (record b.router { memory = m }) u) {
                keys = states;
              } in
              let here =
                update_same m.upstream_at mine {i = u.cell} {j = v.cell}
                  (omega (arith, cell_u, cell_v, one)) in
              ap (λ l. contains (keys_of l.keys) k) here ∙ ground (arith, e, names, new)
          | inr e ↦
              let apart : i ≢ j = λ same_index.
                let one = sym at ∙ ap (get_elem? b.router.snapshot.upstreams) same_index ∙ at' in
                let same = ap (λ (w : Upstream). str_eq w.id v.id) (some_same one) in
                absurd (let clash = sym (str_eq_refl v.id) ∙ sym same ∙ e in cc clash) in
              let mine : UpstreamCell = record (upstream_cell (record b.router { memory = m }) u) {
                keys = states;
              } in
              let away =
                update_other m.upstream_at mine {i = u.cell} {j = v.cell}
                  (λ at_one. apart (omega (arith, cell_u, cell_v, at_one))) in
              ap (λ l. contains (keys_of l.keys) k) away ∙ there ∙ ground (arith, e, names, new)
        ];
  }
