-- ===== src/Shard/Orchestrator/Enqueue.antt =====
-- The interleavings in which the enqueue of the reduce may raise, after the counter's update has
-- committed.
use construction_harness.Prelude.{
  ltb, leb, if◌then◌else◌, length, nat_eq, string_eq, pair_eq, ℕ, suc, ◌+◌, ◌≤◌, ◌≡◌, sym, ◌∙◌,
  true, List, ◌∷◌, ◌++◌, arith,
}
use construction_harness.Shard.Orchestrator.{finalize_shard}
use construction_harness.Shard.Orchestrator.Counter.{
  waiting, settled, counted, Slot, System, Step, moves, finalizes, Reach, no_step, one_more,
  IsDispatched, count_counted, length-replaced, count_counted-replaced, count_counted-waiting,
  Moves-IsFinal,
}

-- The counter's update commits and its shard is the one that enqueues the reduce, but the enqueue
-- raises: the queue runs the shard again, if it has a retry left.
pub data RaisingStep (max_shard_attempts : ℕ) (s t : System) : Type 0 where
  enqueue_raises :
      (before after : List Slot) (a : Slot)
      → s.slots ≡ before ++ (a ∷ after)
      → a.phase ≡ settled
      → (finalize_shard s.job).1 ≡ true
      → t ≡ record s {
        slots =
            before
            ++ (record a {
              phase = if ltb a.shard.attempts max_shard_attempts then waiting else counted;
            }
                ∷ after);
        job = (finalize_shard s.job).0;
      }
      → RaisingStep max_shard_attempts s t

-- What any interleaving reaches, and how many enqueues have raised on the way.
pub data Reaches (max_shard_attempts : ℕ) (s : System) : System → ℕ → Type 0 where
  at_start : Reaches max_shard_attempts s s 0
  and_step :
      {t u : System} {lost : ℕ}
      → Reaches max_shard_attempts s t lost
      → Step max_shard_attempts t u
      → Reaches max_shard_attempts s u lost
  and_raise :
      {t u : System} {lost : ℕ}
      → Reaches max_shard_attempts s t lost
      → RaisingStep max_shard_attempts t u
      → Reaches max_shard_attempts s u (suc lost)

-- The counter is no less than the shards that are done, and the one update that makes it equal to the
-- shard count has attempted the enqueue.
pub record IsTried (s : System) (lost : ℕ) : Type 0 where
  pub shard_count : s.job.shard_count ≡ length s.slots
  pub completed : count_counted s.slots ≤ s.job.completed_shards
  pub tried : s.reduces + lost ≡ (if leb s.job.shard_count s.job.completed_shards then 1 else 0)

Step-IsTried : (n lost : ℕ) (s t : System) → Step n s t → IsTried s lost → IsTried t lost
unfolding finalize_shard
Step-IsTried n lost s t (moves before after a b e m f) h =
    let (same, final) = Moves-IsFinal n a b m in
    let len = length-replaced s before after a b e in
    let cnt = count_counted-replaced s before after a b e in
    rw f (record {
      shard_count = h.shard_count ∙ sym len;
      completed = ground (arith, h.completed);
      tried = h.tried;
    })
Step-IsTried n lost s t (finalizes before after a e p f) h =
    let b : Slot = record a { phase = counted } in
    let len = length-replaced s before after a b e in
    let cnt = count_counted-replaced s before after a b e in
    rw f (record {
      shard_count = h.shard_count ∙ sym len;
      completed = ground (arith, h.completed);
      tried = ground (arith, h.tried);
    })

RaisingStep-IsTried :
    (n lost : ℕ) (s t : System) → RaisingStep n s t → IsTried s lost → IsTried t (suc lost)
unfolding finalize_shard
RaisingStep-IsTried n lost s t (enqueue_raises before after a e p due f) h =
    let b : Slot = record a { phase = if ltb a.shard.attempts n then waiting else counted } in
    let len = length-replaced s before after a b e in
    let cnt = count_counted-replaced s before after a b e in
    rw f (record {
      shard_count = h.shard_count ∙ sym len;
      completed = ground (arith, h.completed);
      tried = ground (arith, h.tried);
    })

pub Reaches-IsTried :
    (n : ℕ) (s t : System) (lost : ℕ) → IsDispatched s → Reaches n s t lost → IsTried t lost
Reaches-IsTried n s t lost d at_start =
    let (zero_counted, final) = count_counted-waiting s.slots d.all_waiting in
    record {
      shard_count = d.shard_count;
      completed = omega (arith, zero_counted);
      tried = ground (arith, d.no_reduce, d.some_shard, d.shard_count, d.none_completed);
    }
Reaches-IsTried n s t lost d (and_step {t = m} r st) =
    Step-IsTried n lost m t st (Reaches-IsTried n s m lost d r)
Reaches-IsTried n s t _ d (and_raise {t = m} {lost = before} r st) =
    RaisingStep-IsTried n before m t st (Reaches-IsTried n s m before d r)

-- An interleaving without such a step is one of those.
pub Reach-Reaches : (n : ℕ) (s t : System) → Reach n s t → Reaches n s t 0
Reach-Reaches n s t no_step = at_start
Reach-Reaches n s t (one_more {t = m} r st) = and_step (Reach-Reaches n s m r) st
