-- ===== src/Admin/Pages/Listed.antt =====
-- What the lists show.
use gptload_rs.Prelude.{
  ℕ, ◌+◌, ◌^◌, ◌≤◌, ◌<◌, ◌≡◌, ◌∙◌, sym, ap, Bool-cases, inl, inr, List, [], ◌∷◌, length, take, drop,
  ltb, take_all, length-drop, if◌then◌else◌, arith,
}
use gptload_rs.State.Defs.{KeyState, Upstream, RouterState, upstream_cell}
use gptload_rs.State.Select.{is_ready}
use gptload_rs.Admin.Pages.{page_of, count_banned, build_upstream_info}

module _ {ℓ} {A : Type ℓ} where
  take_enough : (n m : ℕ) (l : List A) → length l ≤ n → length l ≤ m → take n l ≡ take m l
  take_enough n m l h k = take_all n l h ∙ sym (take_all m l k)

  -- A page holds the keys from its offset on, at most as many as the limit: also when the offset is
  -- beyond the last key and the computation of the end wraps.
  pub page_of-eq-take :
      (offset limit : ℕ) (keys : List A)
      → offset < 2 ^ 64
      → length keys < 2 ^ 63
      → limit ≤ 5000
      → page_of offset limit keys ≡ take limit (drop offset keys)
  unfolding page_of
  page_of-eq-take offset limit keys h k l =
      let size = length-drop offset keys in
      elim (Bool-cases (ltb (length keys) offset)) [
        | inl beyond ↦
            take_enough _ limit (drop offset keys) (ground (arith, beyond, size))
              (ground (arith, beyond, size))
        | inr within ↦ elim (Bool-cases (ltb (length keys) (offset + limit))) [
          | inl last ↦
              take_enough _ limit (drop offset keys) (ground (arith, within, last, size))
                (ground (arith, within, last, size))
          | inr inner ↦ ap (λ n. take n (drop offset keys)) (ground (arith, within, inner))
        ]
      ]

-- The number of keys that a selection would take.
abbrev pub count_ready : RouterState → ℕ → List KeyState → ℕ
count_ready s now [] = 0
count_ready s now (k ∷ keys) =
    if is_ready s now k then count_ready s now keys + 1 else count_ready s now keys

count_ready_add :
    (s : RouterState) (now : ℕ) (keys : List KeyState)
    → count_ready s now keys + count_banned s now keys ≡ length keys
unfolding count_banned
count_ready_add s now [] = ground arith
count_ready_add s now (k ∷ keys) = ground (arith, count_ready_add s now keys)

-- The keys that are reported as healthy are exactly those that a selection may take, and with the
-- banned ones they are all keys of the upstream.
pub build_upstream_info-count_ready :
    (s : RouterState) (now : ℕ) (u : Upstream)
    → ((build_upstream_info s now u).keys_healthy ≡ count_ready s now (upstream_cell s u).keys)
      × ((build_upstream_info s now u).keys_healthy + (build_upstream_info s now u).keys_banned
          ≡ (build_upstream_info s now u).keys_total)
unfolding build_upstream_info
build_upstream_info-count_ready s now u =
    let all = count_ready_add s now (upstream_cell s u).keys in
    (omega (arith, all), omega (arith, all))
