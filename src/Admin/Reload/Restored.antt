-- ===== src/Admin/Reload/Restored.antt =====
-- After a reload the keys in memory are those of the database.
use gptload_rs.Prelude.{
  ℕ, zero, suc, ◌<◌, ◌≡◌, ◌≢◌, refl, ◌∙◌, sym, ap, subst, Bool, true, false, some_same, inl, inr,
  some, List, [], ◌∷◌, All, get_elem?, arith,
}
use gptload_rs.Prelude.Text.{Str, contains}
use gptload_rs.Prelude.Result.{Result, ok, err, Result-cases}
use gptload_rs.State.Defs.{
  KeyState, Upstream, UpstreamCell, Memory, RouterSnapshot, update_same, update_other,
}
use gptload_rs.State.Snapshot.{Http, build_key_states}
use gptload_rs.State.Snapshot.Built.{IsBuilt, build_key_states-next}
use gptload_rs.State.Routes.Stored.{InRow, cells-InRow}
use gptload_rs.Storage.Database.{Sled}
use gptload_rs.Storage.{tree_name, load_all_keys}
use gptload_rs.Storage.Contents.{load_all_keys_lem}
use gptload_rs.Admin.Defs.{Backend}
use gptload_rs.Admin.Body.Dedupe.{IsKey, line_keys_same, keys_of, build_key_states-keys_of}
use gptload_rs.Admin.Keys.InSync.{IsConsistent}
use gptload_rs.Admin.Keys.Steps.{contains-All}
use gptload_rs.Admin.Reload.{
  Reloaded, reloaded, failed, reload_states, reload_keys, reload_one, reload_loop, api_reload_all,
}

abbrev pub is_reloaded : Reloaded → Bool
is_reloaded (reloaded _ _) = true
is_reloaded (failed _) = false

module _ {D : Type 0} (http : Http) (sled : Sled D) where
  -- Every key in the database is trimmed and not empty.
  abbrev pub HoldsKeys : D → Type 0
  HoldsKeys db = (t k : Str) → sled.has t k db ≡ true → IsKey k

  -- What a successful round does.
  record IsRound (u : Upstream) (b b' : Backend D) : Type 0 where
    snapshot : b'.router.snapshot ≡ b.router.snapshot
    same_db : (t k : Str) → sled.has t k b'.db ≡ sled.has t k b.db
    next : b'.router.memory.next_upstream ≡ b.router.memory.next_upstream
    others : (c : ℕ) → c ≢ u.cell → b'.router.memory.upstream_at c ≡ b.router.memory.upstream_at c
    synced :
        (k : Str)
        → contains (keys_of (b'.router.memory.upstream_at u.cell).keys) k
          ≡ sled.has (tree_name u.id) k b.db

  reload_states-IsRound :
      (u : Upstream) (keys : List Str) (built : Result (List KeyState × Memory)) (db : D)
      (b : Backend D)
      → built ≡ build_key_states http keys b.router.memory
      → ((k : Str) → contains keys k ≡ sled.has (tree_name u.id) k b.db)
      → ((t k : Str) → sled.has t k db ≡ sled.has t k b.db)
      → HoldsKeys b.db
      → is_reloaded (reload_states u built db b).0 ≡ true
      → IsRound u b (reload_states u built db b).1
  unfolding reload_states
  reload_states-IsRound u keys (err why) db b e held same clean done = absurd (cc)
  reload_states-IsRound u keys (ok (ks, m)) db b e held same clean done =
      let (named, cells) = build_key_states-keys_of http keys b.router.memory (sym e) in
      let next = build_key_states-next http keys b.router.memory (sym e) in
      let all_keys = contains-All IsKey keys (λ k h. clean (tree_name u.id) k (sym (held k) ∙ h)) in
      let named' : keys_of ks ≡ keys = named ∙ line_keys_same keys all_keys in
      let cell : UpstreamCell = record (m.upstream_at u.cell) { keys = ks } in
      record {
        snapshot = refl;
        same_db = same;
        next = next;
        others =
            λ c far. update_other m.upstream_at cell {i = u.cell} {j = c} far ∙ ap (λ f. f c) cells;
        synced = λ k.
            ap (λ (l : UpstreamCell). contains (keys_of l.keys) k)
              (update_same m.upstream_at cell {i = u.cell} {j = u.cell} refl)
            ∙ ap (λ l. contains l k) named'
            ∙ held k;
      }

  reload_one-IsRound :
      (u : Upstream) (b : Backend D)
      → HoldsKeys b.db
      → is_reloaded (reload_one http sled u b).0 ≡ true
      → IsRound u b (reload_one http sled u b).1
  unfolding reload_one reload_keys
  reload_one-IsRound u b clean done =
      let loaded = load_all_keys sled u.id b.db in
      elim (Result-cases loaded.0) [
        | inl (why, e) ↦ absurd (
            let clash =
              subst (λ r. is_reloaded (reload_keys http u r loaded.1 b).0 ≡ true) e done in
            cc clash)
        | inr (keys, e) ↦
            let lem = λ (t k : Str). load_all_keys_lem sled u.id t k b.db {keys = keys} e in
            subst (λ r. IsRound u b (reload_keys http u r loaded.1 b).1) (sym e)
              (reload_states-IsRound u keys (build_key_states http keys b.router.memory) loaded.1 b
                refl (λ k. (lem [] k).0) (λ t k. (lem t k).1) clean
                (subst (λ r. is_reloaded (reload_keys http u r loaded.1 b).0 ≡ true) e done))
      ]

  -- What the loop does over a row of upstreams.
  record IsLoop (c : ℕ) (us : List Upstream) (b b' : Backend D) : Type 0 where
    snapshot : b'.router.snapshot ≡ b.router.snapshot
    same_db : (t k : Str) → sled.has t k b'.db ≡ sled.has t k b.db
    next : b'.router.memory.next_upstream ≡ b.router.memory.next_upstream
    below : (x : ℕ) → x < c → b'.router.memory.upstream_at x ≡ b.router.memory.upstream_at x
    synced :
        (i : ℕ) (u : Upstream) (k : Str)
        → get_elem? us i ≡ some u
        → contains (keys_of (b'.router.memory.upstream_at u.cell).keys) k
          ≡ sled.has (tree_name u.id) k b.db

  IsRound-synced :
      (c : ℕ) (v : Upstream) (us : List Upstream) (b b1 b2 : Backend D)
      → v.cell ≡ c
      → IsRound v b b1
      → IsLoop (suc c) us b1 b2
      → (i : ℕ) (u : Upstream) (k : Str) → get_elem? (v ∷ us) i ≡ some u
      → contains (keys_of (b2.router.memory.upstream_at u.cell).keys) k
        ≡ sled.has (tree_name u.id) k b.db
  IsRound-synced c v us b b1 b2 at r l zero u k e =
      subst
        (λ (w : Upstream).
          contains (keys_of (b2.router.memory.upstream_at w.cell).keys) k
          ≡ sled.has (tree_name w.id) k b.db)
        (some_same e)
        (ap (λ (x : UpstreamCell). contains (keys_of x.keys) k) (l.below v.cell (omega (arith, at)))
          ∙ r.synced k)
  IsRound-synced c v us b b1 b2 at r l (suc i) u k e =
      l.synced i u k e ∙ r.same_db (tree_name u.id) k

  reload_loop-IsLoop :
      (c : ℕ) (us : List Upstream) (b : Backend D)
      → InRow c us
      → HoldsKeys b.db
      → All (λ r. is_reloaded r ≡ true) (reload_loop http sled us b).0
      → IsLoop c us b (reload_loop http sled us b).1
  unfolding reload_loop
  reload_loop-IsLoop c [] b row clean done = record {
    snapshot = refl;
    same_db = λ t k. refl;
    next = refl;
    below = λ x lt. refl;
    synced = λ i u k e. absurd (cc);
  }
  reload_loop-IsLoop c (v ∷ us) b (at, row) clean (one, more) =
      let b1 = (reload_one http sled v b).1 in
      let b2 = (reload_loop http sled us b1).1 in
      let r = reload_one-IsRound v b clean one in
      let l =
        reload_loop-IsLoop (suc c) us b1 row (λ t k h. clean t k (sym (r.same_db t k) ∙ h)) more in
      record {
        snapshot = l.snapshot ∙ r.snapshot;
        same_db = λ t k. l.same_db t k ∙ r.same_db t k;
        next = l.next ∙ r.next;
        below = λ x lt.
            l.below x (omega (arith, lt)) ∙ r.others x (λ e. absurd (omega (arith, at, lt, e)));
        synced = IsRound-synced c v us b b1 b2 at r l;
      }

  -- When `api_reload_all` reports success for every upstream, memory holds the keys of the database,
  -- whatever it held before, as long as the keys in the database are trimmed and not empty.
  pub api_reload_all-IsConsistent :
      {base : ℕ} (b : Backend D)
      → IsBuilt base b.router.snapshot b.router.memory
      → HoldsKeys b.db
      → All (λ r. is_reloaded r ≡ true) (api_reload_all http sled b).0
      → IsConsistent sled base (api_reload_all http sled b).1
  unfolding api_reload_all
  api_reload_all-IsConsistent {base} b v clean done =
      let us = b.router.snapshot.upstreams in
      let l = reload_loop-IsLoop base us b (cells-InRow base us v.cells) clean done in
      let b' = (reload_loop http sled us b).1 in
      record {
        built =
            subst (λ s. IsBuilt base s b'.router.memory) (sym l.snapshot)
              (record {
                entries = v.entries;
                weights = v.weights;
                indexed = v.indexed;
                found = v.found;
                cells = v.cells;
                next = l.next ∙ v.next;
              });
        in_sync = λ i u k e.
            l.synced i u k
              (ap (λ (s : RouterSnapshot). get_elem? s.upstreams i) (sym l.snapshot) ∙ e)
            ∙ sym (l.same_db (tree_name u.id) k);
      }
