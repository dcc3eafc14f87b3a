-- ===== src/Shard/Orchestrator/Counter.antt =====
-- Concurrent workers: each transaction of each shard's runs is one step, in any interleaving. The
-- enqueue of the reduce belongs to the step of its counter update, and raises nothing here; Enqueue
-- has the step in which it raises.
use construction_harness.Prelude.{
  nat_beq, if◌then◌else◌, Bool-cases, length, All, length-append, All-append, nat_eq, string_eq,
  pair_eq, ℕ, suc, ◌+◌, ◌≤◌, ◌<◌, String, ◌≡◌, refl, sym, ◌∙◌, ◌⊎◌, inl, inr, Bool, true, false,
  List, [], ◌∷◌, ◌++◌, arith,
}
use construction_harness.Shard.Orchestrator.{
  succeeded, dead, Shard, Job, is_terminal, begin_shard, fail_shard, succeed_shard, finalize_shard,
}

-- Where a shard's runs stand between transactions: its task waits in the queue, a run has begun, the
-- run has written its terminal status, the counter has been bumped.
pub data Phase : Type 0 where
  waiting begun settled counted : Phase

pub record Slot : Type 0 where
  pub shard : Shard
  pub phase : Phase

pub record System : Type 0 where
  pub slots : List Slot
  pub job : Job
  -- how often the reduce has been enqueued
  pub reduces : ℕ

-- The transactions of run_shard on one shard. A failed run that is not the last goes back to the
-- queue.
pub data Moves (max_shard_attempts : ℕ) (a b : Slot) : Type 0 where
  begins :
      a.phase ≡ waiting
      → b ≡ record { shard = begin_shard a.shard; phase = begun }
      → Moves max_shard_attempts a b
  succeeds :
      (key : String)
      → a.phase ≡ begun
      → b ≡ record { shard = succeed_shard key a.shard; phase = settled }
      → Moves max_shard_attempts a b
  fails :
      (message : String)
      → a.phase ≡ begun
      → is_terminal max_shard_attempts a.shard.attempts ≡ false
      → b ≡ record {
        shard = fail_shard max_shard_attempts a.shard.attempts message a.shard;
        phase = waiting;
      }
      → Moves max_shard_attempts a b
  dies :
      (message : String)
      → a.phase ≡ begun
      → is_terminal max_shard_attempts a.shard.attempts ≡ true
      → b ≡ record {
        shard = fail_shard max_shard_attempts a.shard.attempts message a.shard;
        phase = settled;
      }
      → Moves max_shard_attempts a b

-- One transaction of some worker.
pub data Step (max_shard_attempts : ℕ) (s t : System) : Type 0 where
  moves :
      (before after : List Slot) (a b : Slot)
      → s.slots ≡ before ++ (a ∷ after)
      → Moves max_shard_attempts a b
      → t ≡ record s { slots = before ++ (b ∷ after) }
      → Step max_shard_attempts s t
  finalizes :
      (before after : List Slot) (a : Slot)
      → s.slots ≡ before ++ (a ∷ after)
      → a.phase ≡ settled
      → t ≡ record {
        slots = before ++ (record a { phase = counted } ∷ after);
        job = (finalize_shard s.job).0;
        reduces = if (finalize_shard s.job).1 then suc s.reduces else s.reduces;
      }
      → Step max_shard_attempts s t

pub data Reach (max_shard_attempts : ℕ) (s : System) : System → Type 0 where
  no_step : Reach max_shard_attempts s s
  one_more :
      {t u : System}
      → Reach max_shard_attempts s t
      → Step max_shard_attempts t u
      → Reach max_shard_attempts s u

-- The system that plan_and_dispatch leaves: all tasks in the queue, nothing counted.
pub record IsDispatched (s : System) : Type 0 where
  pub some_shard : 0 < length s.slots
  pub all_waiting : All (λ a. a.phase ≡ waiting) s.slots
  pub shard_count : s.job.shard_count ≡ length s.slots
  pub none_completed : s.job.completed_shards ≡ 0
  pub no_reduce : s.reduces ≡ 0

abbrev pub is_counted : Phase → Bool
is_counted counted = true
is_counted _ = false

abbrev pub count_counted : List Slot → ℕ
count_counted [] = 0
count_counted (a ∷ slots) =
    if is_counted a.phase then suc (count_counted slots) else count_counted slots

-- A shard past its terminal transaction has succeeded or is dead.
abbrev pub IsFinal : Slot → Type 0
IsFinal a = elim a.phase [
  | settled ↦ (a.shard.status ≡ succeeded) ⊎ (a.shard.status ≡ dead)
  | counted ↦ (a.shard.status ≡ succeeded) ⊎ (a.shard.status ≡ dead)
  | _ ↦ Unit
]

pub record IsCounting (s : System) : Type 0 where
  pub some_shard : 0 < length s.slots
  pub shard_count : s.job.shard_count ≡ length s.slots
  pub completed : s.job.completed_shards ≡ count_counted s.slots
  pub reduces : s.reduces ≡ (if nat_beq (count_counted s.slots) (length s.slots) then 1 else 0)
  pub final : All IsFinal s.slots

pub count_counted-le : (slots : List Slot) → count_counted slots ≤ length slots
count_counted-le [] = omega arith
count_counted-le (a ∷ slots) = ground (arith, count_counted-le slots)

count_counted-append :
    (xs ys : List Slot) → count_counted (xs ++ ys) ≡ count_counted xs + count_counted ys
count_counted-append [] ys = omega arith
count_counted-append (x ∷ xs) ys = ground (arith, count_counted-append xs ys)

pub All-split {ℓ} : (P : Slot → Type ℓ) (xs ys : List Slot) → All P (xs ++ ys) → All P xs × All P ys
All-split P [] ys h = (tt, h)
All-split P (x ∷ xs) ys h = let (hx, hy) = All-split P xs ys h.1 in ((h.0, hx), hy)

pub Moves-IsFinal :
    (n : ℕ) (a b : Slot) → Moves n a b → (is_counted a.phase ≡ is_counted b.phase) × IsFinal b
unfolding begin_shard fail_shard succeed_shard
Moves-IsFinal n a b (begins p e) = ground arith
Moves-IsFinal n a b (succeeds key p e) = ground arith
Moves-IsFinal n a b (fails m p q e) = ground arith
Moves-IsFinal n a b (dies m p q e) = ground arith

module _ (s : System) (before after : List Slot) (a b : Slot) where
  abbrev pub replaced : List Slot
  replaced = before ++ (b ∷ after)

  replaced-IsFinal :
      s.slots ≡ before ++ (a ∷ after) → All IsFinal s.slots → IsFinal b → All IsFinal replaced
  replaced-IsFinal e h hb =
      let (hx, hy) = All-split IsFinal before (a ∷ after) (rw e at h) in
      All-append IsFinal before (b ∷ after) hx (hb, hy.1)

  pub length-replaced : s.slots ≡ before ++ (a ∷ after) → length replaced ≡ length s.slots
  length-replaced e =
      rw e (omega (arith, length-append before (a ∷ after), length-append before (b ∷ after)))

  pub count_counted-replaced :
      s.slots ≡ before ++ (a ∷ after)
      → count_counted replaced + (if is_counted a.phase then 1 else 0)
        ≡ count_counted s.slots + (if is_counted b.phase then 1 else 0)
  count_counted-replaced e = rw e (
      ground
        (arith, count_counted-append before (a ∷ after), count_counted-append before (b ∷ after)))

Step-IsCounting : (n : ℕ) (s t : System) → Step n s t → IsCounting s → IsCounting t
unfolding finalize_shard
Step-IsCounting n s t (moves before after a b e m f) h =
    let (same, final) = Moves-IsFinal n a b m in
    let len = length-replaced s before after a b e in
    let cnt = count_counted-replaced s before after a b e in
    rw f (record {
      some_shard = omega (arith, h.some_shard);
      shard_count = h.shard_count ∙ sym len;
      completed = ground arith;
      reduces = ground arith;
      final = replaced-IsFinal s before after a b e h.final final;
    })
Step-IsCounting n s t (finalizes before after a e p f) h =
    let b : Slot = record a { phase = counted } in
    let len = length-replaced s before after a b e in
    let cnt = count_counted-replaced s before after a b e in
    let final = (All-split IsFinal before (a ∷ after) (rw e at h.final)).1.0 in
    let few = count_counted-le (replaced s before after a b) in
    rw f (record {
      some_shard = omega (arith, h.some_shard);
      shard_count = h.shard_count ∙ sym len;
      completed = ground arith;
      reduces = ground arith;
      final = replaced-IsFinal s before after a b e h.final (ground arith);
    })

pub count_counted-waiting :
    (slots : List Slot)
    → All (λ a. a.phase ≡ waiting) slots
    → (count_counted slots ≡ 0) × All IsFinal slots
count_counted-waiting [] h = (refl, tt)
count_counted-waiting (a ∷ slots) h = ground (arith, count_counted-waiting slots h.1)

Reach-IsCounting : (n : ℕ) (s t : System) → IsDispatched s → Reach n s t → IsCounting t
Reach-IsCounting n s t d no_step =
    let (zero_counted, final) = count_counted-waiting s.slots d.all_waiting in
    record {
      some_shard = d.some_shard;
      shard_count = d.shard_count;
      completed = omega (arith, d.none_completed);
      reduces = ground (arith, d.no_reduce, d.some_shard);
      final = final;
    }
Reach-IsCounting n s t d (one_more {t = m} r st) =
    Step-IsCounting n m t st (Reach-IsCounting n s m d r)

abbrev pub IsTerminal : Slot → Type 0
IsTerminal a = (a.shard.status ≡ succeeded) ⊎ (a.shard.status ≡ dead)

all_counted :
    (slots : List Slot)
    → count_counted slots ≡ length slots
    → All IsFinal slots
    → All IsTerminal slots
all_counted [] e h = tt
all_counted (a ∷ slots) e h = ground (arith, count_counted-le slots, all_counted slots)

-- In every state that any interleaving of the shards' runs, in which no enqueue of the reduce raises,
-- reaches from a dispatched job, either some shard has not been counted and the reduce has not been
-- enqueued, or every shard has been counted, the reduce has been enqueued exactly once, and every
-- shard's row says `succeeded` or `dead`.
pub reduce_once :
    (max_shard_attempts : ℕ) (s t : System)
    → IsDispatched s
    → Reach max_shard_attempts s t
    → ((count_counted t.slots < length t.slots) × (t.reduces ≡ 0))
      ⊎ ((count_counted t.slots ≡ length t.slots) × (t.reduces ≡ 1) × All IsTerminal t.slots)
reduce_once n s t d r =
    let h = Reach-IsCounting n s t d r in
    elim (Bool-cases (nat_beq (count_counted t.slots) (length t.slots))) [
      | inl every ↦
          inr (ground arith, ground (arith, h.reduces), all_counted t.slots (ground arith) h.final)
      | inr some_left ↦ inl (ground (arith, count_counted-le t.slots), ground (arith, h.reduces))
    ]
