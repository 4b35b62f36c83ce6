-- ===== src/Queue/Reclaim.antt =====
-- ReclaimProcessing where no call fails.
use mathlib.Core.List.{reverse, reverse-append}
use dist_task_queue.Prelude.{
  ℕ, zero, suc, ◌+◌, ◌<◌, ◌≡◌, ◌≢◌, refl, sym, ap, ◌∙◌, Option, none, some, List, [], ◌∷◌, ◌++◌,
  append_assoc, append-nil, arith, inl, inr,
}
use dist_task_queue.Prelude.Tests.{Bytes, ne→bytes_eq}
use dist_task_queue.Prelude.Lists.{length, List-snoc, length-append}
use dist_task_queue.Services.Lists.{lmove_source, lmove_target}
use dist_task_queue.Services.{Env, right}
use dist_task_queue.World.{World, Calm, ok, Error, call_fine, tick}
use dist_task_queue.Queue.{key, processing_key, reclaim_loop, reclaim_processing}
use dist_task_queue.Queue.Keys.{processing_key-ne-key}
use dist_task_queue.Queue.Moves.{waiting, held, give_back}

module _ (e : Env) (calm : Calm e) (stage worker : Bytes) where
  -- The world behind one LMOVE.
  given_back : World e → World e
  given_back w = record w {
    redis = (e.redis.lmove right (processing_key stage worker) (key stage) w.redis).1;
    calls = suc w.calls;
  }

  give_back_calm :
      (w : World e)
      → give_back e stage worker w ≡ (
        ok (e.redis.lmove right (processing_key stage worker) (key stage) w.redis).0,
        given_back w,
      )
  unfolding given_back
  give_back_calm w = rw (call_fine e _ w (calm _)) refl

  ne : processing_key stage worker ≢ key stage
  ne = processing_key-ne-key stage stage worker

  give_back_empty :
      (w : World e) → held stage worker w ≡ [] → give_back e stage worker w ≡ (ok none, tick e w)
  unfolding given_back
  give_back_empty w h =
      rw
        (
          give_back_calm w,
          e.redis.lmove_empty right (processing_key stage worker) (key stage) w.redis h,
        )
        refl

  give_back_last :
      (w : World e) (x : Bytes) (xs : List Bytes)
      → held stage worker w ≡ xs ++ x ∷ []
      → give_back e stage worker w ≡ (ok (some x), given_back w)
  give_back_last w x xs h =
      rw
        (
          give_back_calm w,
          e.redis.lmove_last right (processing_key stage worker) (key stage) x xs w.redis h,
        )
        refl

  -- The other lists and the tables stay.
  pub record Elsewhere (w v : World e) : Type 0 where
    pub lists :
        (j : Bytes)
        → processing_key stage worker ≢ j
        → key stage ≢ j
        → e.redis.lrange j v.redis ≡ e.redis.lrange j w.redis
    pub texts : (j : Bytes) (t : ℕ) → e.redis.get j t v.redis ≡ e.redis.get j t w.redis
    pub tables : v.db ≡ w.db

  -- What a finished reclaim has done.
  pub record Reclaimed (moved : ℕ) (w : World e) (r : (ℕ × Option Error) × World e) : Type 0 where
    pub answer : r.0 ≡ (moved + length (held stage worker w), none)
    pub queue : waiting stage r.1 ≡ waiting stage w ++ reverse (held stage worker w)
    pub processing : held stage worker r.1 ≡ []
    pub rest : Elsewhere w r.1

  Elsewhere-given_back :
      (w : World e) (x : Bytes) (xs : List Bytes)
      → held stage worker w ≡ xs ++ x ∷ []
      → Elsewhere w (given_back w)
  unfolding given_back
  Elsewhere-given_back w x xs h = record {
    lists = λ j np nq. rw (
      e.redis.lrange-lmove right (processing_key stage worker) (key stage) x xs j w.redis h ne,
      ne→bytes_eq _ j np,
      ne→bytes_eq _ j nq,
    );
    texts = λ j t. e.redis.get-lmove right (processing_key stage worker) (key stage) j t w.redis;
    tables = refl;
  }

  Elsewhere-trans : {u v w : World e} → Elsewhere u v → Elsewhere v w → Elsewhere u w
  Elsewhere-trans a b = record {
    lists = λ j np nq. b.lists j np nq ∙ a.lists j np nq;
    texts = λ j t. b.texts j t ∙ a.texts j t;
    tables = b.tables ∙ a.tables;
  }

  gave :
      (w : World e) (x : Bytes) (xs : List Bytes)
      → held stage worker w ≡ xs ++ x ∷ []
      → (held stage worker (given_back w) ≡ xs)
        × (waiting stage (given_back w) ≡ waiting stage w ++ x ∷ [])
  unfolding given_back
  gave w x xs h = (
    lmove_source e.redis right _ _ ne x xs w.redis h,
    lmove_target e.redis right _ _ ne x xs w.redis h,
  )

  Reclaimed-empty :
      (moved : ℕ) (w : World e)
      → held stage worker w ≡ []
      → Reclaimed moved w ((moved, none), tick e w)
  Reclaimed-empty moved w h = record {
    answer = rw h (ground arith);
    queue = rw h (sym (append-nil _));
    processing = h;
    rest = record { lists = λ j _ _. refl; texts = λ j t. refl; tables = refl };
  }

  Reclaimed-step :
      (moved : ℕ) (w : World e) (x : Bytes) (xs : List Bytes) (r : (ℕ × Option Error) × World e)
      → held stage worker w ≡ xs ++ x ∷ []
      → Reclaimed (moved + 1) (given_back w) r
      → Reclaimed moved w r
  Reclaimed-step moved w x xs r h v =
      let (hx, hq) = gave w x xs h in
      record {
        answer = rw h (rw (v.answer, hx) (ground (arith, length-append xs (x ∷ []))));
        queue = rw h (
            rw (v.queue, hx, hq, reverse-append xs (x ∷ []))
              (append_assoc (waiting stage w) (x ∷ []) (reverse xs)));
        processing = v.processing;
        rest = Elsewhere-trans (Elsewhere-given_back w x xs h) v.rest;
      }

  reclaim_loop-Reclaimed :
      (fuel moved : ℕ) (w : World e)
      → length (held stage worker w) < fuel
      → Reclaimed moved w (reclaim_loop e fuel stage worker moved w)
  unfolding reclaim_loop
  reclaim_loop-Reclaimed zero moved w lt = elim lt [ ]
  reclaim_loop-Reclaimed (suc fuel) moved w lt = elim (List-snoc (held stage worker w)) [
    | inl h ↦ rw (give_back_empty w h) (Reclaimed-empty moved w h)
    | inr (xs, x, h) ↦ rw (give_back_last w x xs h) (
        Reclaimed-step moved w x xs _ h (
          reclaim_loop-Reclaimed fuel (moved + 1) (given_back w)
            (rw (gave w x xs h).0 (omega (arith, ap length h, length-append xs (x ∷ []))))))
  ]

  -- Where no call fails, a reclaim ends with the worker's list empty and its jobs behind the waiting
  -- ones, where the next pop takes them first and the newest of them before the others; it reports how
  -- many they were and no error, and changes no other list, no text and no table.
  pub reclaim_processing-Reclaimed :
      (w : World e) → Reclaimed 0 w (reclaim_processing e stage worker w)
  unfolding reclaim_processing
  reclaim_processing-Reclaimed w = reclaim_loop-Reclaimed _ 0 w (omega arith)
