-- ===== src/State/Select/Rotation.antt =====
-- One turn of the weighted round robin.
use native.Mathlib.Nat.{mod-add-mod, mod-eq_of_lt, mod-lt, mod_self}
use mathlib.Core.Path.{ap₂}
use mathlib.Core.List.{append-nil}
use gptload_rs.Prelude.Words.{add64}
use gptload_rs.Prelude.{
  count-le-length, length-drop, Bool-cases, ◌==◌, ℕ, zero, suc, ◌+◌, ◌-◌, ◌%◌, ◌^◌, ◌≤◌, ◌<◌, ◌≡◌,
  refl, sym, ap, ◌∙◌, none, some, inl, inr, List, [], ◌∷◌, ◌++◌, length, get_elem?, get_elem?-lt,
  take, drop, take-append-drop, count, count-append, arith,
}
use gptload_rs.State.Defs.{RouterSnapshot}
use gptload_rs.State.Select.{schedule_entry}

-- The schedule's entries met in `rounds` rounds from position `rr`, which wraps like a usize.
pub turn : RouterSnapshot → ℕ → ℕ → List ℕ
turn snap rr zero = []
turn snap rr (suc rounds) = elim (schedule_entry snap rr) [
  | none ↦ turn snap (add64 rr 1) rounds
  | some u_idx ↦ u_idx ∷ turn snap (add64 rr 1) rounds
]

turn-add :
    (snap : RouterSnapshot) (rr a b : ℕ)
    → rr + a < 2 ^ 64
    → turn snap rr (a + b) ≡ turn snap rr a ++ turn snap (rr + a) b
unfolding turn
turn-add snap rr zero b room =
    rw (let e : zero + b ≡ b = omega arith in e, let e : rr + zero ≡ rr = omega arith in e)
turn-add snap rr (suc a) b room =
    let count_up : suc a + b ≡ suc (a + b) = omega arith in
    let move : rr + suc a ≡ add64 rr 1 + a = omega arith in
    rw (count_up, move) (ground (arith, turn-add snap (add64 rr 1) a b (omega arith)))

turn-add-zero :
    (snap : RouterSnapshot) (rr a b : ℕ)
    → b ≡ 0
    → turn snap rr (a + b) ≡ turn snap rr a ++ turn snap (rr + a) b
unfolding turn
turn-add-zero snap rr a b none_left =
    rw (none_left, let e : a + 0 ≡ a = omega arith in e) (sym (append-nil (turn snap rr a)))

drop-get_elem? :
    (l : List ℕ) (i : ℕ) {x : ℕ} → get_elem? l i ≡ some x → drop i l ≡ x ∷ drop (suc i) l
drop-get_elem? [] i e = absurd (cc)
drop-get_elem? (y ∷ l) zero e = cc
drop-get_elem? (y ∷ l) (suc i) e = drop-get_elem? l i e

-- Inside the schedule a turn is a piece of it.
turn-drop :
    (snap : RouterSnapshot) (rr i rounds : ℕ)
    → rr % length snap.schedule ≡ i
    → i + rounds ≤ length snap.schedule
    → rr + rounds ≤ 2 ^ 64
    → turn snap rr rounds ≡ take rounds (drop i snap.schedule)
unfolding turn schedule_entry
turn-drop snap rr i zero at fits room = refl
turn-drop snap rr i (suc zero) at fits room =
    let (x, ex) = get_elem?-lt snap.schedule i (omega arith) in
    rw (drop-get_elem? snap.schedule i {x = x} ex) (ground arith)
turn-drop snap rr i (suc (suc rounds)) at fits room =
    let (x, ex) = get_elem?-lt snap.schedule i (omega arith) in
    let n = length snap.schedule in
    let next : (rr + 1) % n ≡ suc i =
      sym (mod-add-mod rr n 1)
      ∙ (rw at (let e : i + 1 ≡ suc i = omega arith in rw e (mod-eq_of_lt (omega arith)))) in
    let step : add64 rr 1 ≡ rr + 1 = omega arith in
    let at' : add64 rr 1 % n ≡ suc i = ap (λ r. r % n) step ∙ next in
    let rest = turn-drop snap (add64 rr 1) (suc i) (suc rounds) at' (omega arith) (omega arith) in
    rw (drop-get_elem? snap.schedule i {x = x} ex) (ground (arith, rest))

take-length_lem {ℓ} : {A : Type ℓ} (l : List A) (n : ℕ) → length l ≤ n → take n l ≡ l
take-length_lem [] zero h = refl
take-length_lem [] (suc n) h = refl
take-length_lem (x ∷ l) zero h = absurd (omega arith)
take-length_lem (x ∷ l) (suc n) h = ap (λ r. x ∷ r) (take-length_lem l n (omega arith))

-- A turn of the whole length is a rotation of the schedule.
pub turn-eq-rotation :
    (snap : RouterSnapshot) (rr : ℕ)
    → 0 < length snap.schedule
    → rr + length snap.schedule ≤ 2 ^ 64
    → let i = rr % length snap.schedule in
      turn snap rr (length snap.schedule) ≡ drop i snap.schedule ++ take i snap.schedule
turn-eq-rotation snap rr pos room =
    let n = length snap.schedule in
    let i = rr % n in
    let lt : i < n = mod-lt rr pos in
    let split : n ≡ n - i + i = omega arith in
    let back : (rr + (n - i)) % n ≡ 0 =
      sym (mod-add-mod rr n (n - i))
      ∙ (let e : i + (n - i) ≡ n = omega arith in rw e (mod_self n)) in
    let first = turn-drop snap rr i (n - i) refl (omega arith) (omega arith) in
    let second = turn-drop snap (rr + (n - i)) 0 i back (omega arith) (omega arith) in
    let add : turn snap rr (n - i + i) ≡ turn snap rr (n - i) ++ turn snap (rr + (n - i)) i =
      elim (Bool-cases (i == 0)) [
        | inl zero_left ↦ turn-add-zero snap rr (n - i) i (ground arith)
        | inr some_left ↦ turn-add snap rr (n - i) i (ground arith)
      ] in
    ap (turn snap rr) split
    ∙ add
    ∙ ap₂ ◌++◌ (first ∙ take-length_lem _ _ (omega (arith, length-drop i snap.schedule))) second

-- From any position that is a turn away from its end, one turn meets each entry of the schedule as often as it stands there.
pub count-turn :
    (snap : RouterSnapshot) (rr u_idx : ℕ)
    → rr + length snap.schedule ≤ 2 ^ 64
    → count u_idx (turn snap rr (length snap.schedule)) ≡ count u_idx snap.schedule
unfolding turn
count-turn snap rr u_idx room = elim (Bool-cases (length snap.schedule == 0)) [
  | inl none_left ↦
      let e : length snap.schedule ≡ 0 = ground arith in
      (rw e (ground (arith, count-le-length u_idx snap.schedule)))
  | inr some_left ↦
      let n = length snap.schedule in
      let i = rr % n in
      let pos : 0 < n = ground arith in
      rw
        (
          turn-eq-rotation snap rr pos room,
          count-append u_idx (drop i snap.schedule) (take i snap.schedule),
        )
        (omega (
          arith,
          count-append u_idx (take i snap.schedule) (drop i snap.schedule),
          ap (count u_idx) (take-append-drop i snap.schedule),
        ))
]
