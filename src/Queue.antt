-- ===== src/Queue.antt =====
-- internal/queue/queue.go.
pub mod Keys
pub mod Moves
pub mod Fifo
pub mod Reclaim
use dist_task_queue.Prelude.{ℕ, zero, suc, ◌+◌, Bool, Option, none, some, List, [], ◌∷◌, ◌++◌}
use dist_task_queue.Prelude.Tests.{Bytes, ltb, ◌==◌, if◌then◌else◌}
use dist_task_queue.Prelude.Lists.{length}
use dist_task_queue.Prelude.Decimal.{format_uint}
use dist_task_queue.Services.{Env, left, right}
use dist_task_queue.World.{World, M, Result, ok, err, Error, io, empty, call, pure, ◌>>=◌}
use dist_task_queue.Store.Types.{Time, unix_seconds}

-- "queue:", "processing:" and "heartbeat:"
abbrev pub queue_prefix : Bytes
queue_prefix = b'q' ∷ b'u' ∷ b'e' ∷ b'u' ∷ b'e' ∷ b':' ∷ []

abbrev pub processing_prefix : Bytes
processing_prefix = b'p' ∷ b'r' ∷ b'o' ∷ b'c' ∷ b'e' ∷ b's' ∷ b's' ∷ b'i' ∷ b'n' ∷ b'g' ∷ b':' ∷ []

abbrev pub heartbeat_prefix : Bytes
heartbeat_prefix = b'h' ∷ b'e' ∷ b'a' ∷ b'r' ∷ b't' ∷ b'b' ∷ b'e' ∷ b'a' ∷ b't' ∷ b':' ∷ []

unfoldable pub key : Bytes → Bytes
key stage = queue_prefix ++ stage

unfoldable pub processing_key : Bytes → Bytes → Bytes
processing_key stage worker = processing_prefix ++ (stage ++ b':' ∷ worker)

unfoldable pub heartbeat_key : Bytes → Bytes
heartbeat_key worker = heartbeat_prefix ++ worker

pub record ProcessingRef : Type 0 where
  pub stage : Bytes
  pub worker_id : Bytes

-- strings.Cut at the first colon: what stands before it and behind it.
unfoldable pub cut_colon : Bytes → Option (Bytes × Bytes)
cut_colon [] = none
cut_colon (c ∷ s) =
    let rest = cut_colon s in
    if c == b':' then some ([], s) else elim rest [ none ↦ none | some (a, b) ↦ some (c ∷ a, b) ]

-- strings.SplitN(k, ":", 3), where it has three parts.
unfoldable pub parse_ref : Bytes → Option ProcessingRef
parse_ref k = elim (cut_colon k) [
  | none ↦ none
  | some (a, rest) ↦ elim (cut_colon rest) [
    | none ↦ none
    | some (stage, worker) ↦ some (record { stage = stage; worker_id = worker })
  ]
]

-- The loop over the keys of one page; a key with fewer parts is passed over.
unfoldable pub add_refs : List Bytes → List ProcessingRef → List ProcessingRef
add_refs [] out = out
add_refs (k ∷ ks) out = add_refs ks (elim (parse_ref k) [ none ↦ out | some r ↦ out ++ r ∷ [] ])

module _ (e : Env) where
  -- A Redis command that changes no table.
  abbrev pub redis_call : {A : Type 0} → (Time → e.redis.State → A × e.redis.State) → M e A
  redis_call op = call e λ now w. (ok (op now w.redis).0, record w { redis = (op now w.redis).1 })

  unfoldable pub push : Bytes → Bytes → M e (Unit {0})
  push stage job = redis_call λ now s. (tt, e.redis.lpush (key stage) job s)

  abbrev pub or_empty : Option Bytes → M e Bytes
  or_empty none w = (err empty, w)
  or_empty (some v) w = (ok v, w)

  -- BLMOVE with a timeout: an empty queue is goredis.Nil, which becomes ErrEmpty.
  unfoldable pub blocking_pop : Bytes → Bytes → M e Bytes
  blocking_pop stage worker = do
    res ← redis_call (λ now. e.redis.lmove left (key stage) (processing_key stage worker))
    or_empty res

  unfoldable pub depth : Bytes → M e ℕ
  depth stage = redis_call λ now s. (e.redis.llen (key stage) s, s)

  unfoldable pub is_worker_alive : Bytes → M e Bool
  is_worker_alive worker =
      redis_call λ now s. (ltb 0 (e.redis.exists (heartbeat_key worker) now s), s)

  unfoldable pub heartbeat : Bytes → Time → M e (Unit {0})
  heartbeat worker ttl =
      redis_call
        λ now s. (tt, e.redis.set (heartbeat_key worker) (format_uint (unix_seconds now)) ttl now s)

  unfoldable pub ack : Bytes → Bytes → Bytes → M e (Unit {0})
  ack stage worker job = redis_call λ now s. (tt, e.redis.lrem (processing_key stage worker) job s)

  -- The pages of SCAN, until the cursor is 0 again. `none` means that the fuel ran out.
  unfoldable pub list_pages : ℕ → ℕ → List ProcessingRef → M e (Option (List ProcessingRef))
  list_pages zero cursor out = pure none
  list_pages (suc fuel) cursor out = do
    page ← redis_call (λ now s. (e.redis.scan processing_prefix s cursor, s))
    let out' = add_refs page.0 out
    let rest = list_pages fuel page.1 out'
    if page.1 == 0 then pure (some out') else rest

  unfoldable pub list_processing : M e (Option (List ProcessingRef))
  unfolding list_pages
  list_processing w = list_pages (e.redis.scan_rounds processing_prefix w.redis) 0 [] w

  -- The round of the loop behind its LMOVE; `again` makes the next one.
  abbrev pub reclaim_after :
      ℕ
      → (World e → (ℕ × Option Error) × World e)
      → Result (Option Bytes) × World e
      → (ℕ × Option Error) × World e
  reclaim_after moved again (err x, w) = ((moved, some x), w)
  reclaim_after moved again (ok none, w) = ((moved, none), w)
  reclaim_after moved again (ok (some v), w) = again w

  -- LMOVE until the list is empty: how many were moved, and the error that stopped it.
  unfoldable pub reclaim_loop : ℕ → Bytes → Bytes → ℕ → World e → (ℕ × Option Error) × World e
  reclaim_loop zero stage worker moved w = ((moved, some io), w)
  reclaim_loop (suc fuel) stage worker moved w =
      reclaim_after moved (reclaim_loop fuel stage worker (moved + 1))
        (redis_call (λ now. e.redis.lmove right (processing_key stage worker) (key stage)) w)

  -- Each round moves one element, so one round more than the list is long is enough.
  unfoldable pub reclaim_processing : Bytes → Bytes → World e → (ℕ × Option Error) × World e
  reclaim_processing stage worker w =
      reclaim_loop (suc (length (e.redis.lrange (processing_key stage worker) w.redis))) stage
        worker 0 w
