-- ===== src/Shard/Orchestrator/Progress.antt =====
-- No interleaving of the shards' runs goes on for ever, and none stops before the enqueue of the
-- reduce.
use construction_harness.Prelude.{
  ltb, if◌then◌else◌, Bool-cases, length, All, All-append, nat_eq, string_eq, pair_eq, ℕ, suc, ◌+◌,
  ◌-◌, ◌*◌, ◌≤◌, ◌<◌, ◌≡◌, refl, ap, ◌⊎◌, inl, inr, false, List, [], ◌∷◌, ◌++◌, arith,
}
use construction_harness.Shard.Orchestrator.{begin_shard, fail_shard, succeed_shard, finalize_shard}
use construction_harness.Shard.Orchestrator.Enqueue.{
  RaisingStep, enqueue_raises, Reaches, at_start, and_step, and_raise, Reaches-IsTried,
}
use construction_harness.Shard.Orchestrator.Counter.{
  Phase, waiting, begun, settled, counted, Slot, System, Moves, begins, succeeds, fails, dies, Step,
  moves, finalizes, IsDispatched, is_counted, count_counted, All-split,
}

-- How many transactions a shard can still make.
abbrev pub moves_left : ℕ → Slot → ℕ
moves_left n a = elim a.phase [
  | waiting ↦ 3 * (n - a.shard.attempts)
  | begun ↦ 3 * (n - a.shard.attempts) + 2
  | settled ↦ 3 * (n - a.shard.attempts) + 1
  | counted ↦ 0
]

abbrev total_left : ℕ → List Slot → ℕ
total_left n [] = 0
total_left n (a ∷ slots) = moves_left n a + total_left n slots

-- A waiting shard has an attempt left.
abbrev IsBudgeted : ℕ → Slot → Type 0
IsBudgeted n a = a.phase ≡ waiting → a.shard.attempts < n

total_left-append :
    (n : ℕ) (xs ys : List Slot) → total_left n (xs ++ ys) ≡ total_left n xs + total_left n ys
total_left-append n [] ys = omega arith
total_left-append n (x ∷ xs) ys = omega (arith, total_left-append n xs ys)

Moves-left :
    (n : ℕ) (a b : Slot)
    → Moves n a b
    → IsBudgeted n a
    → IsBudgeted n b × (moves_left n b < moves_left n a)
unfolding begin_shard fail_shard succeed_shard
Moves-left n a b (begins p e) h = ground (arith, h p)
Moves-left n a b (succeeds key p e) h = ground arith
Moves-left n a b (fails m p q e) h = ground arith
Moves-left n a b (dies m p q e) h = ground arith

Step-left :
    (n : ℕ) (s t : System)
    → Step n s t
    → All (IsBudgeted n) s.slots
    → All (IsBudgeted n) t.slots × (total_left n t.slots < total_left n s.slots)
Step-left n s t (moves before after a b e m f) h =
    let (hx, hy) = All-split (IsBudgeted n) before (a ∷ after) (rw e at h) in
    let (hb, less) = Moves-left n a b m hy.0 in
    rw (f, e)
      (
        All-append (IsBudgeted n) before (b ∷ after) hx (hb, hy.1),
        omega (
          arith,
          less,
          total_left-append n before (b ∷ after),
          total_left-append n before (a ∷ after),
        ),
      )
Step-left n s t (finalizes before after a e p f) h =
    let (hx, hy) = All-split (IsBudgeted n) before (a ∷ after) (rw e at h) in
    let b : Slot = record a { phase = counted } in
    rw (f, e)
      (
        All-append (IsBudgeted n) before (b ∷ after) hx ((λ q. cc), hy.1),
        ground
            (arith, total_left-append n before (b ∷ after), total_left-append n before (a ∷ after)),
      )

RaisingStep-left :
    (n : ℕ) (s t : System)
    → RaisingStep n s t
    → All (IsBudgeted n) s.slots
    → All (IsBudgeted n) t.slots × (total_left n t.slots < total_left n s.slots)
RaisingStep-left n s t (enqueue_raises before after a e p due f) h =
    let (hx, hy) = All-split (IsBudgeted n) before (a ∷ after) (rw e at h) in
    let b : Slot = record a { phase = if ltb a.shard.attempts n then waiting else counted } in
    rw (f, e)
      (
        All-append (IsBudgeted n) before (b ∷ after) hx ((λ q. ground arith), hy.1),
        ground
            (arith, total_left-append n before (b ∷ after), total_left-append n before (a ∷ after)),
      )

-- How many transactions an interleaving has made.
pub steps : {n : ℕ} {s t : System} {lost : ℕ} → Reaches n s t lost → ℕ
steps at_start = 0
steps (and_step r st) = suc (steps r)
steps (and_raise r st) = suc (steps r)

steps-left :
    (n : ℕ) (s t : System) (lost : ℕ) (r : Reaches n s t lost)
    → All (IsBudgeted n) s.slots
    → All (IsBudgeted n) t.slots × (steps r + total_left n t.slots ≤ total_left n s.slots)
unfolding steps
steps-left n s t lost at_start h = (h, omega arith)
steps-left n s t lost (and_step {t = m} r st) h =
    let (hm, lm) = steps-left n s m lost r h in
    let (ht, lt) = Step-left n m t st hm in (ht, omega arith)
steps-left n s t _ (and_raise {t = m} {lost = before} r st) h =
    let (hm, lm) = steps-left n s m before r h in
    let (ht, lt) = RaisingStep-left n m t st hm in (ht, omega arith)

fresh_left :
    (n : ℕ) (slots : List Slot)
    → 0 < n
    → All (λ a. a.phase ≡ waiting) slots
    → All (λ a. a.shard.attempts ≡ 0) slots
    → All (IsBudgeted n) slots × (total_left n slots ≡ length slots * (3 * n))
fresh_left n [] p w z = (tt, omega arith)
fresh_left n (a ∷ slots) p w z =
    let (b, l) = fresh_left n slots p w.1 z.1 in
    (((λ q. omega (arith, z.0)), b), ground (arith, w.0, z.0))

-- A shard that has not been counted can make a transaction.
slot-Moves :
    (n : ℕ) (a : Slot) (p : Phase)
    → a.phase ≡ p
    → is_counted p ≡ false
    → ((b : Slot) × Moves n a b) ⊎ (a.phase ≡ settled)
slot-Moves n a waiting e h =
    inl (record { shard = begin_shard a.shard; phase = begun }, begins e refl)
slot-Moves n a begun e h =
    inl (record { shard = succeed_shard "" a.shard; phase = settled }, succeeds "" e refl)
slot-Moves n a settled e h = inr e
slot-Moves n a counted e h = cc

-- A shard that has not been counted, and what stands before and after it.
abbrev Uncounted : List Slot → Type 0
Uncounted slots =
    (before : List Slot) × (a : Slot) × (after : List Slot) × (slots ≡ before ++ (a ∷ after))
    × (is_counted a.phase ≡ false)

find-Uncounted : (slots : List Slot) → (count_counted slots ≡ length slots) ⊎ Uncounted slots
find-Uncounted [] = inl refl
find-Uncounted (a ∷ slots) = elim (Bool-cases (is_counted a.phase)) [
  | inr open_slot ↦ inr ([], a, slots, refl, open_slot)
  | inl done ↦ elim (find-Uncounted slots) [
    | inl e ↦ inl (ground arith)
    | inr (before, b, after, e, h) ↦ inr (a ∷ before, b, after, ap (◌∷◌ a) e, h)
  ]
]

can-Step : (n : ℕ) (t : System) → Uncounted t.slots → (u : System) × Step n t u
can-Step n t (before, a, after, e, h) = elim (slot-Moves n a a.phase refl h) [
  | inl (b, m) ↦ (record t { slots = before ++ (b ∷ after) }, moves before after a b e m refl)
  | inr p ↦ (
    record {
      slots = before ++ (record a { phase = counted } ∷ after);
      job = (finalize_shard t.job).0;
      reduces = if (finalize_shard t.job).1 then suc t.reduces else t.reduces;
    },
    finalizes before after a e p refl,
  )
]

-- With at least one attempt configured and fresh shards, whichever extractions, uploads and enqueues
-- raise: an interleaving of the runs of `k` shards makes at most `k * 3 * max_shard_attempts`
-- transactions; at any time the reduce has been enqueued, or its enqueue has raised, at most once
-- altogether; and one that can make no further transaction has come to that one attempt. So the
-- reduce is enqueued in the end unless that attempt raises, and after that it never is.
pub reduce_reached :
    (max_shard_attempts : ℕ) (s t : System) (lost : ℕ)
    → 0 < max_shard_attempts
    → IsDispatched s
    → All (λ a. a.shard.attempts ≡ 0) s.slots
    → (r : Reaches max_shard_attempts s t lost)
    → (steps r ≤ length s.slots * (3 * max_shard_attempts))
      × (t.reduces + lost ≤ 1)
      × ((t.reduces + lost ≡ 1) ⊎ ((u : System) × Step max_shard_attempts t u))
reduce_reached n s t lost p d z r =
    let (b, l) = fresh_left n s.slots p d.all_waiting z in
    let h = Reaches-IsTried n s t lost d r in
    (
      omega (arith, (steps-left n s t lost r b).1),
      ground (arith, h.tried),
      elim (find-Uncounted t.slots) [
        | inl e ↦ inl (ground (arith, h.tried, h.completed, h.shard_count))
        | inr u ↦ inr (can-Step n t u)
      ],
    )
