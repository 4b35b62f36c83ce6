-- ===== src/Sweeper/Living.antt =====
-- reclaimProcessing of internal/sweeper/sweeper.go for a worker that lives, where no call fails.
use dist_task_queue.Prelude.{
  ℕ, ◌≡◌, ◌≢◌, inl, inr, refl, sym, ap, subst, ◌∙◌, Bool, true, false, Option, none, some, List, [],
  ◌∷◌, ◌++◌, arith,
}
use dist_task_queue.Prelude.Tests.{Bytes, ◌==◌, Bool-cases, Option-cases}
use dist_task_queue.Prelude.Lists.{All, All-append}
use dist_task_queue.Services.{Env}
use dist_task_queue.World.{World, Calm, Result, ok, tick, call_fine, for_each}
use dist_task_queue.Queue.{
  processing_key, heartbeat_key, processing_prefix, ProcessingRef, cut_colon, parse_ref, add_refs,
  is_worker_alive, list_processing,
}
use dist_task_queue.Queue.Keys.{
  NoColon, parse_ref-processing_key, heartbeat_key-ne-processing_key, heartbeat_key-ne-key,
  processing_key-ne-key,
}
use dist_task_queue.Queue.Moves.{held}
use dist_task_queue.Queue.Reclaim.{reclaim_processing-Reclaimed}
use dist_task_queue.Sweeper.{reclaim_dead, reclaim_ref, reclaim_refs, reclaim_pass}
use dist_task_queue.Sweeper.Reclaims.{pages_fine, alive_fine}

abbrev cut : Bytes → Bytes → Option (Bytes × Bytes)
cut a b = some (a, b)

same_cut : {a b x y : Bytes} → cut a b ≡ cut x y → a ≡ x
same_cut h = cc

no_cut : (x y : Bytes) → none ≢ cut x y
no_cut x y h = cc

cut_colon-NoColon : (s a b : Bytes) → cut_colon s ≡ some (a, b) → NoColon a
unfolding cut_colon
cut_colon-NoColon [] a b h = absurd (no_cut a b h)
cut_colon-NoColon (c ∷ s) a b h = elim (Bool-cases (c == b':')) [
  | inl here ↦ subst NoColon (same_cut (rw here at h)) tt
  | inr on ↦ elim (Option-cases (cut_colon s)) [
    | inl missing ↦ absurd (no_cut a b (rw (on, missing) at h))
    | inr ((x, y), found) ↦
        subst NoColon (same_cut (rw (on, found) at h))
          (ground (arith, on), cut_colon-NoColon s x y found)
  ]
]

abbrev Plain : ProcessingRef → Type 0
Plain r = NoColon r.stage

no_ref : (r : ProcessingRef) → none ≢ some r
no_ref r h = cc

same_ref : {r s : ProcessingRef} → some r ≡ some s → r ≡ s
same_ref h = cc

parse_ref-Plain : (k : Bytes) (r : ProcessingRef) → parse_ref k ≡ some r → Plain r
unfolding parse_ref
parse_ref-Plain k r h = elim (Option-cases (cut_colon k)) [
  | inl missing ↦ absurd (no_ref r (rw (parse_ref, missing) at h))
  | inr ((a, rest), found) ↦ elim (Option-cases (cut_colon rest)) [
    | inl missing ↦ absurd (no_ref r (rw (parse_ref, found, missing) at h))
    | inr ((stage, worker), split) ↦
        subst Plain (same_ref (rw (parse_ref, found, split) at h))
          (cut_colon-NoColon rest stage worker split)
  ]
]

add_refs-Plain :
    (ks : List Bytes) (out : List ProcessingRef) → All Plain out → All Plain (add_refs ks out)
unfolding add_refs
add_refs-Plain [] out h = h
add_refs-Plain (k ∷ ks) out h = elim (Option-cases (parse_ref k)) [
  | inl other ↦ rw other (add_refs-Plain ks out h)
  | inr (r, parsed) ↦ rw parsed (
      add_refs-Plain ks (out ++ r ∷ [])
        (All-append Plain out (r ∷ []) h (parse_ref-Plain k r parsed, tt)))
]

module _ (e : Env) (calm : Calm e) (stage worker : Bytes) where
  -- The worker has a heartbeat at every time that the clock shows, and no list stands under the
  -- heartbeat's key.
  pub record Living (s : e.redis.State) : Type 0 where
    pub beats : (n : ℕ) → e.redis.get (heartbeat_key worker) (e.now n) s ≢ none
    pub no_list : e.redis.lrange (heartbeat_key worker) s ≡ []

  pub Living-fine :
      (w : World e) → Living w.redis → is_worker_alive e worker w ≡ (ok true, tick e w)
  unfolding is_worker_alive
  Living-fine w d =
      elim (Option-cases (e.redis.get (heartbeat_key worker) (e.now w.calls) w.redis)) [
        | inl gone ↦ absurd (d.beats w.calls gone)
        | inr (v, seen) ↦
            call_fine e _ w (calm _)
            ∙ rw (e.redis.exists_iff (heartbeat_key worker) (e.now w.calls) w.redis d.no_list, seen)
                refl
      ]

  -- What a round leaves as it was.
  abbrev Kept : World e → World e → Type 0
  Kept w v = Living v.redis × (held stage worker v ≡ held stage worker w)

  same_worker :
      (r : ProcessingRef)
      → NoColon stage
      → Plain r
      → processing_key r.stage r.worker_id ≡ processing_key stage worker
      → r.worker_id ≡ worker
  same_worker r plain h k =
      ap (λ (r : ProcessingRef). r.worker_id)
        (same_ref (
          sym (parse_ref-processing_key r.stage r.worker_id h)
          ∙ ap parse_ref k
          ∙ parse_ref-processing_key stage worker plain))

  reclaim_dead-Kept :
      (r : ProcessingRef) (w : World e)
      → processing_key r.stage r.worker_id ≢ processing_key stage worker
      → Living w.redis
      → Kept w (reclaim_dead e r w)
  reclaim_dead-Kept r w other d =
      let done = reclaim_processing-Reclaimed e calm r.stage r.worker_id w in
      (
        record {
          beats = λ n x. d.beats n (sym (done.rest.texts (heartbeat_key worker) (e.now n)) ∙ x);
          no_list =
              done.rest.lists (heartbeat_key worker)
                (λ x. heartbeat_key-ne-processing_key worker r.stage r.worker_id (sym x))
                (λ x. heartbeat_key-ne-key worker r.stage (sym x))
              ∙ d.no_list;
        },
        done.rest.lists (processing_key stage worker) other
            (λ x. processing_key-ne-key r.stage stage worker (sym x)),
      )

  abbrev answers : Bool → World e → Result Bool × World e
  answers b v = (ok b, v)

  true_ne_false : (v : World e) → answers true v ≢ answers false v
  true_ne_false v h = cc

  reclaim_ref-Kept :
      (r : ProcessingRef) (w : World e)
      → NoColon stage
      → Plain r
      → Living w.redis
      → Kept w (reclaim_ref e r w)
  unfolding reclaim_ref
  reclaim_ref-Kept r w plain h d =
      by_answer (alive_fine e calm r.worker_id w).0 (alive_fine e calm r.worker_id w).1
    where
      by_answer :
          (b : Bool)
          → is_worker_alive e r.worker_id w ≡ (ok b, tick e w)
          → Kept w (reclaim_ref e r w)
      by_answer true a = rw (reclaim_ref, a) (d, refl)
      by_answer false a =
          rw (reclaim_ref, a)
            (reclaim_dead-Kept r (tick e w)
              (λ k. true_ne_false (tick e w) (
                sym (Living-fine w d)
                ∙ ap (λ (id : Bytes). is_worker_alive e id w) (sym (same_worker r plain h k))
                ∙ a))
              d)

  loop-Kept :
      (refs : List ProcessingRef) (w : World e)
      → NoColon stage
      → All Plain refs
      → Living w.redis
      → held stage worker (for_each (reclaim_ref e) refs w) ≡ held stage worker w
  unfolding for_each
  loop-Kept [] w plain h d = refl
  loop-Kept (r ∷ refs) w plain (hr, h) d =
      let (still, same) = reclaim_ref-Kept r w plain hr d in
      loop-Kept refs (reclaim_ref e r w) plain h still ∙ same

  -- Where no call fails, the stage has no colon, and the worker has a heartbeat at every time that
  -- the clock shows and no list under the heartbeat's key: reclaimProcessing leaves the jobs that
  -- the worker holds of the stage as they are, whichever other lists there are and however SCAN
  -- gives them.
  pub reclaim_pass-Living :
      (w : World e)
      → NoColon stage
      → Living w.redis
      → held stage worker (reclaim_pass e w).1 ≡ held stage worker w
  unfolding reclaim_pass reclaim_refs list_processing
  reclaim_pass-Living w plain d =
      let (ks, found, complete) = e.redis.scan_complete processing_prefix w.redis in
      let (v, listed, same) =
        pages_fine e calm (e.redis.scan_rounds processing_prefix w.redis) 0 ks [] w found in
      rw listed (
        loop-Kept (add_refs ks []) v plain (add_refs-Plain ks [] tt) (subst Living (sym same) d)
        ∙ ap (e.redis.lrange (processing_key stage worker)) same)
