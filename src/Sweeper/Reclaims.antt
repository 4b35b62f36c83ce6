-- ===== src/Sweeper/Reclaims.antt =====
-- reclaimProcessing of internal/sweeper/sweeper.go for a dead worker, where no call fails.
use mathlib.Core.List.Memᴰ
use dist_task_queue.Prelude.{
  ℕ, zero, suc, ◌≡◌, ◌≢◌, ◌⊎◌, inl, inr, refl, sym, ap, subst, ◌∙◌, Bool, true, false, none, some,
  List, [], ◌∷◌, ◌++◌, Memᴰ,
}
use dist_task_queue.Prelude.Tests.{
  Bytes, bytes_eq, bytes_eq_iff, ◌==◌, Bool-cases, Option-cases, bytes_eq→ne,
}
use dist_task_queue.Services.{Env, scan_keys}
use dist_task_queue.World.{World, Calm, ok, call_fine, tick, for_each}
use dist_task_queue.Queue.{
  processing_key, heartbeat_key, processing_prefix, ProcessingRef, parse_ref, add_refs, redis_call,
  is_worker_alive, list_pages, list_processing, reclaim_processing,
}
use dist_task_queue.Queue.Keys.{
  NoColon, parse_ref-processing_key, starts_with-processing_key, heartbeat_key-ne-processing_key,
  heartbeat_key-ne-key, processing_key-ne-key,
}
use dist_task_queue.Queue.Moves.{held}
use dist_task_queue.Queue.Reclaim.{reclaim_processing-Reclaimed}
use dist_task_queue.Sweeper.{reclaim_dead, reclaim_ref, reclaim_refs, reclaim_pass}

-- The refs that the pages give, in the list that they are added to.
add_refs-append :
    (ks ls : List Bytes) (out : List ProcessingRef)
    → add_refs (ks ++ ls) out ≡ add_refs ls (add_refs ks out)
unfolding add_refs
add_refs-append [] ls out = refl
add_refs-append (k ∷ ks) ls out = add_refs-append ks ls _

Memᴰ-append : {A : Type 0} (x : A) (xs ys : List A) → Memᴰ x xs → Memᴰ x (xs ++ ys)
Memᴰ-append x [] ys m = absurd (Memᴰ.not-nil m)
Memᴰ-append x (y ∷ xs) ys (Memᴰ.head e) = Memᴰ.head e
Memᴰ-append x (y ∷ xs) ys (Memᴰ.tail m) = Memᴰ.tail (Memᴰ-append x xs ys m)

Memᴰ-append_last : {A : Type 0} (x : A) (xs : List A) → Memᴰ x (xs ++ x ∷ [])
Memᴰ-append_last x [] = Memᴰ.head refl
Memᴰ-append_last x (y ∷ xs) = Memᴰ.tail (Memᴰ-append_last x xs)

add_refs_mono :
    (r : ProcessingRef) (ks : List Bytes) (out : List ProcessingRef)
    → Memᴰ r out
    → Memᴰ r (add_refs ks out)
unfolding add_refs
add_refs_mono r [] out m = m
add_refs_mono r (k ∷ ks) out m = elim (Option-cases (parse_ref k)) [
  | inl other ↦ rw other (add_refs_mono r ks out m)
  | inr (s, parsed) ↦ rw parsed (add_refs_mono r ks (out ++ s ∷ []) (Memᴰ-append r out _ m))
]

add_refs_has :
    (k : Bytes) (r : ProcessingRef) (ks : List Bytes) (out : List ProcessingRef)
    → parse_ref k ≡ some r
    → Memᴰ k ks
    → Memᴰ r (add_refs ks out)
unfolding add_refs
add_refs_has k r [] out p m = absurd (Memᴰ.not-nil m)
add_refs_has k r (j ∷ ks) out p (Memᴰ.head e) =
    let q : parse_ref j ≡ some r = subst (λ (x : Bytes). parse_ref x ≡ some r) e p in
    rw q (add_refs_mono r ks (out ++ r ∷ []) (Memᴰ-append_last r out))
add_refs_has k r (j ∷ ks) out p (Memᴰ.tail m) = add_refs_has k r ks _ p m

List-cases : (xs : List Bytes) → (xs ≡ []) ⊎ (xs ≢ [])
List-cases [] = inl refl
List-cases (x ∷ xs) = inr λ h. cc

module _ (e : Env) (calm : Calm e) where
  pub pages_fine :
      (fuel cursor : ℕ) (ks : List Bytes) (out : List ProcessingRef) (w : World e)
      → scan_keys (e.redis.scan processing_prefix w.redis) fuel cursor ≡ some ks
      → (v : World e) × (list_pages e fuel cursor out w ≡ (ok (some (add_refs ks out)), v))
        × (v.redis ≡ w.redis)
  unfolding list_pages scan_keys
  pages_fine zero cursor ks out w h = cc
  pages_fine (suc fuel) cursor ks out w h =
      let (keys, next) = e.redis.scan processing_prefix w.redis cursor in
      let scanned : redis_call e (λ now s. (e.redis.scan processing_prefix s cursor, s)) w
          ≡ (ok (keys, next), tick e w) =
        call_fine e _ w (calm _) in
      elim (Bool-cases (next == 0)) [
        | inl last ↦ (
          tick e w,
          rw (scanned, last)
              (ap (λ ks. (ok (some (add_refs ks out)), tick e w)) (one (rw last at h))),
          refl,
        )
        | inr more ↦
            elim (Option-cases (scan_keys (e.redis.scan processing_prefix w.redis) fuel next)) [
              | inl ended ↦ absurd (apart ks (rw (more, ended) at h))
              | inr (rest, found) ↦
                  let (v, went, same) =
                    pages_fine fuel next rest (add_refs keys out) (tick e w) found in
                  (
                    v,
                    rw (scanned, more)
                        (went
                          ∙ ap (λ refs. (ok (some refs), v))
                              (sym (add_refs-append keys rest out)
                                ∙ ap (λ ks. add_refs ks out) (one (rw (more, found) at h)))),
                    same,
                  )
            ]
      ]
    where
      one : {ks ls : List Bytes} → some ks ≡ some ls → ks ≡ ls
      one h = cc

      apart : (ks : List Bytes) → none ≢ some ks
      apart ks h = cc

  pub alive_fine :
      (id : Bytes) (w : World e) → (b : Bool) × (is_worker_alive e id w ≡ (ok b, tick e w))
  unfolding is_worker_alive
  alive_fine id w = (_, call_fine e _ w (calm _))

  module _ (stage worker : Bytes) where
    -- The worker has no heartbeat now or later, and no list stands under the heartbeat's key.
    pub record Dead (s : e.redis.State) : Type 0 where
      pub silent : (t : ℕ) → e.redis.get (heartbeat_key worker) t s ≡ none
      pub no_list : e.redis.lrange (heartbeat_key worker) s ≡ []

    -- What a round can do to the worker and its list.
    abbrev Still : World e → World e → Type 0
    Still w v =
        Dead v.redis × ((held stage worker v ≡ []) ⊎ (held stage worker v ≡ held stage worker w))

    reclaim_dead-Still :
        (r : ProcessingRef) (w : World e) → Dead w.redis → Still w (reclaim_dead e r w)
    reclaim_dead-Still r w d =
        let done = reclaim_processing-Reclaimed e calm r.stage r.worker_id w in
        (
          record {
            silent = λ t. done.rest.texts (heartbeat_key worker) t ∙ d.silent t;
            no_list =
                done.rest.lists (heartbeat_key worker)
                  (λ x. heartbeat_key-ne-processing_key worker r.stage r.worker_id (sym x))
                  (λ x. heartbeat_key-ne-key worker r.stage (sym x))
                ∙ d.no_list;
          },
          elim (Bool-cases
              (bytes_eq (processing_key r.stage r.worker_id) (processing_key stage worker))) [
                | inl same ↦ inl (
                    subst
                      (λ (k : Bytes).
                        e.redis.lrange k (reclaim_processing e r.stage r.worker_id w).1.redis ≡ [])
                      ((bytes_eq_iff _ (processing_key stage worker)).0 same) done.processing)
                | inr other ↦ inr (
                    done.rest.lists (processing_key stage worker) (bytes_eq→ne _ _ other)
                      (λ x. processing_key-ne-key r.stage stage worker (sym x)))
              ],
        )

    Dead-fine : (w : World e) → Dead w.redis → is_worker_alive e worker w ≡ (ok false, tick e w)
    unfolding is_worker_alive
    Dead-fine w d =
        call_fine e _ w (calm _)
        ∙ rw
            (
              e.redis.exists_iff (heartbeat_key worker) (e.now w.calls) w.redis d.no_list,
              d.silent (e.now w.calls),
            )
            refl

    reclaim_ref-Still :
        (r : ProcessingRef) (w : World e) → Dead w.redis → Still w (reclaim_ref e r w)
    unfolding reclaim_ref
    reclaim_ref-Still r w d = by_answer (alive_fine r.worker_id w).0 (alive_fine r.worker_id w).1
      where
        by_answer :
            (b : Bool)
            → is_worker_alive e r.worker_id w ≡ (ok b, tick e w)
            → Still w (reclaim_ref e r w)
        by_answer true h = rw (reclaim_ref, h) (d, inr refl)
        by_answer false h = rw (reclaim_ref, h) (reclaim_dead-Still r (tick e w) d)

    -- The list stays empty in the rounds that follow.
    loop_keeps :
        (refs : List ProcessingRef) (w : World e)
        → Dead w.redis
        → held stage worker w ≡ []
        → held stage worker (for_each (reclaim_ref e) refs w) ≡ []
    unfolding for_each
    loop_keeps [] w d h = h
    loop_keeps (r ∷ refs) w d h =
        let (still, effect) = reclaim_ref-Still r w d in
        loop_keeps refs (reclaim_ref e r w) still
          (elim effect [ inl empty ↦ empty | inr same ↦ same ∙ h ])

    abbrev own_ref : ProcessingRef
    own_ref = record { stage = stage; worker_id = worker }

    own_reclaimed : (w : World e) → Dead w.redis → held stage worker (reclaim_ref e own_ref w) ≡ []
    unfolding reclaim_ref
    own_reclaimed w d =
        rw (Dead-fine w d) (reclaim_processing-Reclaimed e calm stage worker (tick e w)).processing

    loop_reaches :
        (refs : List ProcessingRef) (w : World e)
        → Dead w.redis
        → Memᴰ own_ref refs
        → held stage worker (for_each (reclaim_ref e) refs w) ≡ []
    unfolding for_each
    loop_reaches [] w d m = absurd (Memᴰ.not-nil m)
    loop_reaches (r ∷ refs) w d (Memᴰ.head here) =
        loop_keeps refs (reclaim_ref e r w) (reclaim_ref-Still r w d).0 (
          subst (λ (x : ProcessingRef). held stage worker (reclaim_ref e x w) ≡ []) here
            (own_reclaimed w d))
    loop_reaches (r ∷ refs) w d (Memᴰ.tail m) =
        loop_reaches refs (reclaim_ref e r w) (reclaim_ref-Still r w d).0 m

    -- Where no call fails, the stage has no colon, and the worker has no heartbeat now or later and
    -- no list under the heartbeat's key: reclaimProcessing succeeds, and behind it the worker holds
    -- no job of the stage, whichever other lists there are and however SCAN gives them.
    pub reclaim_pass-Dead :
        (w : World e)
        → NoColon stage
        → Dead w.redis
        → ((reclaim_pass e w).0 ≡ ok tt) × (held stage worker (reclaim_pass e w).1 ≡ [])
    unfolding reclaim_pass reclaim_refs list_processing
    reclaim_pass-Dead w plain d =
        let (ks, found, complete) = e.redis.scan_complete processing_prefix w.redis in
        let (v, listed, same) =
          pages_fine (e.redis.scan_rounds processing_prefix w.redis) 0 ks [] w found in
        let dv : Dead v.redis = subst Dead (sym same) d in
        rw listed (
          refl,
          elim (List-cases (held stage worker w)) [
            | inl empty ↦
                loop_keeps (add_refs ks []) v dv
                  (ap (e.redis.lrange (processing_key stage worker)) same ∙ empty)
            | inr full ↦ loop_reaches (add_refs ks []) v dv (
                add_refs_has (processing_key stage worker) own_ref ks []
                  (parse_ref-processing_key stage worker plain)
                  (complete (processing_key stage worker) (starts_with-processing_key stage worker)
                    full))
          ],
        )
