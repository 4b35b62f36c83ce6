-- ===== src/Queue/Keys.antt =====
-- The names of the Redis keys, printed and read.
use dist_task_queue.Prelude.{◌≡◌, ◌≢◌, refl, true, some, [], ◌∷◌, ◌++◌, arith}
use dist_task_queue.Prelude.Tests.{Bytes, bytes_eq, bytes_eq→ne}
use dist_task_queue.Prelude.Lists.{All}
use dist_task_queue.Queue.{
  key, processing_key, heartbeat_key, cut_colon, parse_ref, processing_prefix,
}
use dist_task_queue.Services.{starts_with}

-- A stage queue, a processing list and a heartbeat never share a key.
pub key-ne-processing_key : (s t w : Bytes) → key s ≢ processing_key t w
unfolding key processing_key bytes_eq
key-ne-processing_key s t w = bytes_eq→ne _ _ refl

pub heartbeat_key-ne-processing_key : (v t w : Bytes) → heartbeat_key v ≢ processing_key t w
unfolding heartbeat_key processing_key bytes_eq
heartbeat_key-ne-processing_key v t w = bytes_eq→ne _ _ refl

pub heartbeat_key-ne-key : (v s : Bytes) → heartbeat_key v ≢ key s
unfolding heartbeat_key key bytes_eq
heartbeat_key-ne-key v s = bytes_eq→ne _ _ refl

pub processing_key-ne-key : (s t w : Bytes) → processing_key t w ≢ key s
unfolding key processing_key bytes_eq
processing_key-ne-key s t w = bytes_eq→ne _ _ refl

abbrev pub NoColon : Bytes → Type 0
NoColon = All λ c. c ≢ b':'

cut_colon-append : (s rest : Bytes) → NoColon s → cut_colon (s ++ b':' ∷ rest) ≡ some (s, rest)
unfolding cut_colon
cut_colon-append [] rest h = refl
cut_colon-append (c ∷ s) rest (hc, hs) = ground (arith, cut_colon-append s rest hs)

-- ListProcessing takes the processing key of a stage with no colon apart into the stage and the
-- worker id, whatever the worker id holds.
pub parse_ref-processing_key :
    (s w : Bytes)
    → NoColon s
    → parse_ref (processing_key s w) ≡ some (record { stage = s; worker_id = w })
unfolding parse_ref processing_key cut_colon
parse_ref-processing_key s w h = rw (cut_colon-append s w h, parse_ref)

pub starts_with-processing_key :
    (s w : Bytes) → starts_with processing_prefix (processing_key s w) ≡ true
unfolding starts_with processing_key
starts_with-processing_key s w = refl
