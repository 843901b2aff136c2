-- ===== src/State/Select/Available.antt =====
-- `select` and `select_for_model` find an upstream and a key exactly when one is available.
use native.Mathlib.Nat.{add-zero, mod-mod, mod-lt}
use gptload_rs.Prelude.{
  sym, Option-cases, ◌⊎◌, ◌∙◌, ℕ, zero, suc, ◌+◌, ◌%◌, ◌^◌, ◌≤◌, ◌<◌, ◌≡◌, ◌≢◌, refl, Bool, true,
  inl, inr, none, some, List, length, get_elem?, arith,
}
use gptload_rs.Prelude.Words.{add64}
use gptload_rs.Prelude.Text.{Str}
use gptload_rs.State.Defs.{
  KeyState, Upstream, RouterSnapshot, RouterState, Selected, upstream_cell, key_cell,
}
use gptload_rs.State.Select.{select_key, visit, scheduled, select_loop, select_where}
use gptload_rs.State.Select.Keys.{round_meets, select_key_sound, select_key_complete}

-- What selecting leaves alone: everything it reads but the positions of the round robins, and an
-- upstream's position moves by at most `n`.
record Quiet (n : ℕ) (s s' : RouterState) : Type 0 where
  keys : (u : Upstream) → (upstream_cell s' u).keys ≡ (upstream_cell s u).keys
  models : (u : Upstream) → (upstream_cell s' u).models ≡ (upstream_cell s u).models
  cooldown :
      (u : Upstream)
      → (upstream_cell s' u).cooldown_until_ms ≡ (upstream_cell s u).cooldown_until_ms
  position : (u : Upstream) → (upstream_cell s' u).key_rr ≤ (upstream_cell s u).key_rr + n
  key_cells : (k : KeyState) → key_cell s' k ≡ key_cell s k

visit-Quiet :
    (wanted : List Str → Bool) (now_ms : ℕ) (u : Upstream) (s : RouterState)
    → Quiet 1 s (visit wanted now_ms u s).1
unfolding visit
visit-Quiet wanted now_ms u s = record {
  keys = λ v. ground arith;
  models = λ v. ground arith;
  cooldown = λ v. ground arith;
  position = λ v. ground arith;
  key_cells = λ k. ground arith;
}

visit-sched_rr :
    (wanted : List Str → Bool) (now_ms : ℕ) (u : Upstream) (s : RouterState)
    → (visit wanted now_ms u s).1.sched_rr ≡ s.sched_rr
unfolding visit
visit-sched_rr wanted now_ms u s = ground arith

-- Moving the schedule's position changes no cell.
abbrev advance : RouterState → RouterState
advance s = record s { sched_rr = add64 s.sched_rr 1 }

Quiet-advance : (s : RouterState) → Quiet 0 s (advance s)
Quiet-advance s = record {
  keys = λ u. refl;
  models = λ u. refl;
  cooldown = λ u. refl;
  position = λ u. omega arith;
  key_cells = λ k. refl;
}

-- An upstream of the schedule that is wanted and not cooling down, with a key that is ready.
pub record IsAvailable (wanted : List Str → Bool) (snap : RouterSnapshot) (now_ms : ℕ)
    (s : RouterState) (u : Upstream) (k : KeyState) : Type 0 where
  pub slot : ℕ
  pub in_schedule : slot < length snap.schedule
  pub scheduled_at : scheduled snap slot ≡ some u
  pub fits : wanted (upstream_cell s u).models ≡ true
  pub up : (upstream_cell s u).cooldown_until_ms ≤ now_ms
  pub position : ℕ
  pub listed : get_elem? (upstream_cell s u).keys position ≡ some k
  pub ready : (key_cell s k).cooldown_until_ms ≤ now_ms

module _ (wanted : List Str → Bool) (snap : RouterSnapshot) (now_ms : ℕ) where
  abbrev Available : RouterState → Upstream → KeyState → Type 0
  Available = IsAvailable wanted snap now_ms

  -- What is available after a quiet change was so before.
  Available-back :
      {n : ℕ} {s s' : RouterState} (u : Upstream) (k : KeyState)
      → Quiet n s s'
      → Available s' u k
      → Available s u k
  Available-back {s} {s'} u k q a = record {
    slot = a.slot;
    in_schedule = a.in_schedule;
    scheduled_at = a.scheduled_at;
    fits = rw (← q.models u) a.fits;
    up = rw (← q.cooldown u) a.up;
    position = a.position;
    listed = rw (← q.keys u) a.listed;
    ready = rw (← q.key_cells k) a.ready;
  }

  visit_found :
      (u : Upstream) (s : RouterState) (slot : ℕ) {sel : Selected}
      → slot < length snap.schedule
      → scheduled snap slot ≡ some u
      → (visit wanted now_ms u s).0 ≡ some sel
      → Available s sel.upstream sel.key
  unfolding visit
  visit_found u s slot {sel} lt at e =
      let same : u ≡ sel.upstream = ground arith in
      let found : (select_key u now_ms s).0 ≡ some sel.key = ground arith in
      let (p, listed, ready) = select_key_sound u now_ms s {k = sel.key} found in
      rw (← same) (record {
        slot = slot;
        in_schedule = lt;
        scheduled_at = at;
        fits = ground arith;
        up = ground arith;
        position = p;
        listed = listed;
        ready = ready;
      })

  scheduled-mod : (rr : ℕ) → scheduled snap (rr % length snap.schedule) ≡ scheduled snap rr
  unfolding scheduled
  scheduled-mod rr = rw (mod-mod rr (length snap.schedule), scheduled)

  -- The first round hits, or a later one does.
  loop_cases :
      (rounds : ℕ) (s : RouterState) {sel : Selected}
      → (select_loop wanted snap now_ms (suc rounds) s).0 ≡ some sel
      → (u : Upstream) × (scheduled snap s.sched_rr ≡ some u)
        × (((visit wanted now_ms u (advance s)).0 ≡ some sel)
            ⊎ ((select_loop wanted snap now_ms rounds (visit wanted now_ms u (advance s)).1).0
                ≡ some sel))
  unfolding select_loop
  loop_cases rounds s {sel} e = elim (Option-cases (scheduled snap s.sched_rr)) [
    | inl out ↦ absurd (ground arith)
    | inr (u, at) ↦ (u, at, ground arith)
  ]

  loop_found :
      (rounds : ℕ) (s : RouterState) {sel : Selected}
      → 0 < length snap.schedule
      → (select_loop wanted snap now_ms rounds s).0 ≡ some sel
      → Available s sel.upstream sel.key
  unfolding select_loop
  loop_found zero s some_slot e = absurd (cc)
  loop_found (suc rounds) s {sel} some_slot e =
      let (u, at, next) = loop_cases rounds s {sel = sel} e in
      let slot = s.sched_rr % length snap.schedule in
      Available-back {s = s} sel.upstream sel.key (Quiet-advance s) (elim next [
        | inl hit ↦
            visit_found u (advance s) slot {sel = sel} (mod-lt s.sched_rr some_slot)
              (scheduled-mod s.sched_rr ∙ at) hit
        | inr again ↦
            Available-back sel.upstream sel.key (visit-Quiet wanted now_ms u (advance s))
              (loop_found rounds (visit wanted now_ms u (advance s)).1 {sel = sel} some_slot again)
      ])

  -- A visit to an available upstream hits.
  visit_meets :
      (u : Upstream) (k : KeyState) (s : RouterState)
      → Available s u k
      → (upstream_cell s u).key_rr + length (upstream_cell s u).keys ≤ 2 ^ 64
      → (visit wanted now_ms u s).0 ≢ none
  unfolding visit
  visit_meets u k s a room =
      let found = select_key_complete u now_ms s a.position {k = k} a.listed a.ready room in
      ground arith

  -- Quiet changes keep what is available, at the same place.
  Available-forth :
      {n : ℕ} {s s' : RouterState} (u : Upstream) (k : KeyState)
      → Quiet n s s'
      → Available s u k
      → Available s' u k
  Available-forth {s} {s'} u k q a = record {
    slot = a.slot;
    in_schedule = a.in_schedule;
    scheduled_at = a.scheduled_at;
    fits = rw (q.models u) a.fits;
    up = rw (q.cooldown u) a.up;
    position = a.position;
    listed = rw (q.keys u) a.listed;
    ready = rw (q.key_cells k) a.ready;
  }

  -- Every position of the schedule names an upstream.
  abbrev IsScheduled : Type 0
  IsScheduled = (rr : ℕ) → scheduled snap rr ≢ none

  loop_step :
      (rounds : ℕ) (s : RouterState) {v : Upstream}
      → scheduled snap s.sched_rr ≡ some v
      → (visit wanted now_ms v (advance s)).0 ≡ none
      → select_loop wanted snap now_ms (suc rounds) s
        ≡ select_loop wanted snap now_ms rounds (visit wanted now_ms v (advance s)).1
  unfolding select_loop
  loop_step rounds s at miss = ground arith

  loop_hit :
      (rounds : ℕ) (s : RouterState) {v : Upstream}
      → scheduled snap s.sched_rr ≡ some v
      → (visit wanted now_ms v (advance s)).0 ≢ none
      → (select_loop wanted snap now_ms (suc rounds) s).0 ≢ none
  unfolding select_loop
  loop_hit rounds s at hit = ground arith

  loop_meets :
      (rounds j : ℕ) (s : RouterState) (u : Upstream) (k : KeyState)
      → IsScheduled
      → Available s u k
      → (upstream_cell s u).key_rr + length (upstream_cell s u).keys + rounds ≤ 2 ^ 64
      → s.sched_rr + rounds ≤ 2 ^ 64
      → j < rounds
      → scheduled snap (s.sched_rr + j) ≡ some u
      → (select_loop wanted snap now_ms rounds s).0 ≢ none
  loop_meets zero j s u k full a room room_rr lt at = absurd (omega arith)
  loop_meets (suc rounds) zero s u k full a room room_rr lt at =
      let here : scheduled snap s.sched_rr ≡ some u = rw (add-zero s.sched_rr) at at in
      loop_hit rounds s here (
        visit_meets u k (advance s) (Available-forth {s = s} u k (Quiet-advance s) a) (omega arith))
  loop_meets (suc rounds) (suc j) s u k full a room room_rr lt at =
      elim (Option-cases (scheduled snap s.sched_rr)) [
        | inl out ↦ absurd (full s.sched_rr out)
        | inr (v, here) ↦
            let s1 = advance s in
            let s2 = (visit wanted now_ms v s1).1 in
            let q = visit-Quiet wanted now_ms v s1 in
            elim (Option-cases (visit wanted now_ms v s1).0) [
              | inr (sel, hit) ↦ loop_hit rounds s here (λ miss. cc)
              | inl miss ↦
                  let moved : s2.sched_rr ≡ s.sched_rr + 1 =
                    visit-sched_rr wanted now_ms v s1 ∙ omega arith in
                  let at' : scheduled snap (s2.sched_rr + j) ≡ some u =
                    (let e : s2.sched_rr + j ≡ s.sched_rr + suc j = omega arith in rw e at) in
                  rw (loop_step rounds s here miss) (
                    loop_meets rounds j s2 u k full
                      (Available-forth {s = s1} u k q
                        (Available-forth {s = s} u k (Quiet-advance s) a))
                      (rw (q.keys u) (omega (arith, q.position u))) (omega arith) (omega arith) at')
            ]
      ]

-- What `select` and `select_for_model` return is available, in the state before the call.
pub select_where_sound :
    (wanted : List Str → Bool) (now_ms : ℕ) (s : RouterState) {sel : Selected}
    → (select_where wanted now_ms s).0 ≡ some sel
    → IsAvailable wanted s.snapshot now_ms s sel.upstream sel.key
unfolding select_where
select_where_sound wanted now_ms s {sel} e =
    loop_found wanted s.snapshot now_ms (length s.snapshot.schedule) s {sel = sel} (ground arith)
      (ground arith)

pub select_where_complete :
    (wanted : List Str → Bool) (now_ms : ℕ) (s : RouterState) (u : Upstream) (k : KeyState)
    → ((rr : ℕ) → scheduled s.snapshot rr ≢ none)
    → IsAvailable wanted s.snapshot now_ms s u k
    → (upstream_cell s u).key_rr + length (upstream_cell s u).keys + length s.snapshot.schedule
      ≤ 2 ^ 64
    → s.sched_rr + length s.snapshot.schedule ≤ 2 ^ 64
    → (select_where wanted now_ms s).0 ≢ none
unfolding select_where
select_where_complete wanted now_ms s u k full a room room_rr =
    let n = length s.snapshot.schedule in
    let (j, lt, meets) = round_meets s.sched_rr a.slot n a.in_schedule in
    let at : scheduled s.snapshot (s.sched_rr + j) ≡ some u =
      sym (scheduled-mod wanted s.snapshot now_ms (s.sched_rr + j)) ∙ (rw meets a.scheduled_at) in
    let found = loop_meets wanted s.snapshot now_ms n j s u k full a room room_rr lt at in
    ground (arith, a.in_schedule)
