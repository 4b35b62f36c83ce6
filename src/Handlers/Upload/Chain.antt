-- ===== src/Handlers/Upload/Chain.antt =====
-- The walk over the folders of Process of internal/handler/upload.go.
use mathlib.Core.List.{append_cancel_left}
use mathlib.Core.List.Memᴰ
use dist_task_queue.Prelude.{
  ◌≡◌, ◌≢◌, ◌⊎◌, inl, inr, refl, sym, ap, subst, ◌∙◌, Option, none, some, List, [], ◌∷◌, Memᴰ,
}
use dist_task_queue.Prelude.Tests.{Bytes, ne→bytes_eq}
use dist_task_queue.Prelude.Lists.{All}
use dist_task_queue.Services.{Env, Fault, fine, lost, late}
use dist_task_queue.World.{World, M, Result, ok, err, call, call_cases, attempt, ◌>>=◌, pure}
use dist_task_queue.Store.Types.{Uuid, Time}
use dist_task_queue.Drive.{ensure_folder, cache_key, cache_prefix, cache_get, cache_set}
use dist_task_queue.Drive.Shelf.{
  Folders, Plain, OneMade, OneMade-then, Obtained, ensure_folder-Obtained,
}
use dist_task_queue.Handlers.Upload.{
  UploadConfig, next_path, or_ensure, enter_folder, walk_folders, cache_ttl,
}

OneMade-Memᴰ : (x : Bytes) (is js : List Bytes) → OneMade is js → Memᴰ x is → Memᴰ x js
OneMade-Memᴰ x is js (inl same) m = subst (Memᴰ x) (sym same) m
OneMade-Memᴰ x is js (inr (empty, more)) m = absurd (Memᴰ.not-nil (subst (Memᴰ x) empty m))

module _ {e : Env} (c : UploadConfig e) (user : Uuid) (s : Folders c.drive user) where
  -- The paths that the walk comes by.
  unfoldable pub paths : Bytes → List Bytes → List Bytes
  paths path [] = []
  paths path (f ∷ fs) = next_path c.join path f ∷ paths (next_path c.join path f) fs

  -- No path comes twice.
  abbrev pub Distinct : List Bytes → Type 0
  Distinct [] = Unit {0}
  Distinct (p ∷ ps) = All (λ q. p ≢ q) ps × Distinct ps

  -- The cache has had this id for a path.
  abbrev pub Cached : e.redis.State → Bytes → Bytes → Type 0
  Cached r path id = (t : Time) × (e.redis.get (cache_key e user path) t r ≡ some id)

  -- Following the names of folders from a parent: each step goes to a folder that Drive has under the
  -- name in the last one, or to what the cache had for the path.
  unfoldable pub Reaches : e.redis.State → e.Outside → Bytes → Bytes → List Bytes → Bytes → Type 0
  Reaches r o path parent [] id = id ≡ parent
  Reaches r o path parent (f ∷ fs) id =
      (next : Bytes) × (Cached r (next_path c.join path f) next ⊎ Memᴰ next (s.ids o parent f))
      × Reaches r o (next_path c.join path f) next fs id

  abbrev NothingDoubled : World e → World e → Type 0
  NothingDoubled w v = (q g : Bytes) → OneMade (s.ids w.outside q g) (s.ids v.outside q g)

  then_nothing : (w u v : World e) → NothingDoubled w u → NothingDoubled u v → NothingDoubled w v
  then_nothing w u v h k q g = OneMade-then _ _ _ (h q g) (k q g)

  -- Another path's key holds what it held.
  abbrev OthersKept : Bytes → World e → World e → Type 0
  OthersKept path w v =
      (k : Bytes)
      → cache_key e user path ≢ k
      → (t : Time) → e.redis.get k t v.redis ≡ e.redis.get k t w.redis

  abbrev Entered : Bytes → Bytes → Bytes → World e → Result Bytes × World e → Type 0
  Entered path parent f w (r, v) =
      NothingDoubled w v
      × ((id : Bytes) → r ≡ ok id → Cached w.redis path id ⊎ Memᴰ id (s.ids v.outside parent f))
      × OthersKept path w v

  -- A look into the cache changes nothing, and finds only what is there.
  abbrev Looked : Bytes → World e → Result (Option Bytes) × World e → Type 0
  Looked path w (r, v) =
      (v.redis ≡ w.redis)
      × (v.outside ≡ w.outside)
      × ((id : Bytes) → r ≡ ok (some id) → Cached w.redis path id)

  found_there : (o : Option Bytes) (id : Bytes) → ok o ≡ ok (some id) → o ≡ some id
  found_there o id h = cc

  cache_get-Looked : (path : Bytes) (w : World e) → Looked path w (cache_get e user path w)
  unfolding cache_get call
  cache_get-Looked path w = by_fault (e.fault w.calls) refl
    where
      by_fault : (f : Fault) → e.fault w.calls ≡ f → Looked path w (cache_get e user path w)
      by_fault fine h =
          rw (h, cache_get, call) (refl, refl, λ id r. (e.now w.calls, found_there _ id r))
      by_fault lost h = rw (h, cache_get, call) (refl, refl, λ id r. cc)
      by_fault late h = rw (h, cache_get, call) (refl, refl, λ id r. cc)

  -- Storing in the cache touches one key of Redis.
  cache_set_lem :
      (path id : Bytes) (w : World e)
      → let v = (cache_set e user path id cache_ttl w).1 in
        (v.outside ≡ w.outside) × OthersKept path w v
  unfolding cache_set
  cache_set_lem path id w =
      call_cases e (λ v. (v.outside ≡ w.outside) × OthersKept path w v) _ w (refl, λ k ne t. refl)
        (
          refl,
          λ k ne t.
              rw
                (
                  e.redis.get-set (cache_key e user path) id k cache_ttl (e.now w.calls) t w.redis,
                  ne→bytes_eq (cache_key e user path) k ne,
                )
                refl,
        )

  module _ (path parent f : Bytes) where
    abbrev stored : Bytes → M e Bytes
    stored id = attempt (cache_set e user path id cache_ttl) >>= λ ignored. pure id

    abbrev ensured : M e Bytes
    ensured = ensure_folder c.drive user parent f >>= stored

    stored-Entered :
        (w : World e) (r : Result Bytes × World e)
        → Obtained c.drive s parent f w r
        → Entered path parent f w (((λ (u : World e). r) >>= stored) w)
    stored-Entered w (err x, u) (made, found, same) =
        (made, λ id h. cc, λ k ne t. ap (e.redis.get k t) same)
    stored-Entered w (ok i, u) (made, found, same) =
        let (still, kept) = cache_set_lem path i u in
        (
          λ q g. rw still (made q g),
          λ id h. inr (rw still (found id h)),
          λ k ne t. kept k ne t ∙ ap (e.redis.get k t) same,
        )

    ensured-Entered : (w : World e) → Plain f → Entered path parent f w (ensured w)
    ensured-Entered w plain =
        stored-Entered w (ensure_folder c.drive user parent f w)
          (ensure_folder-Obtained c.drive user s parent f w plain)

    moved :
        (w u : World e) (r : Result Bytes × World e)
        → u.redis ≡ w.redis
        → u.outside ≡ w.outside
        → Entered path parent f u r
        → Entered path parent f w r
    moved w u r same still (made, found, kept) = (
      λ q g. rw still at made q g,
      λ id h. rw same at found id h,
      λ k ne t. kept k ne t ∙ ap (e.redis.get k t) same,
    )

    or_ensure-Entered :
        (w : World e) (r : Result (Option Bytes) × World e)
        → Plain f
        → Looked path w r
        → Entered path parent f w (or_ensure c ensured r.0 r.1)
    or_ensure-Entered w (ok (some i), u) plain (same, still, cached) = (
      λ q g. inl (ap (λ o. s.ids o q g) still),
      λ id h. inl (cached id (as_found i id h)),
      λ k ne t. ap (e.redis.get k t) same,
    )
      where
        as_found : (i id : Bytes) → ok i ≡ ok id → ok (some i) ≡ ok (some id)
        as_found i id h = cc
    or_ensure-Entered w (ok none, u) plain (same, still, cached) =
        moved w u (ensured u) same still (ensured-Entered u plain)
    or_ensure-Entered w (err x, u) plain (same, still, cached) =
        moved w u (ensured u) same still (ensured-Entered u plain)

    enter_folder-Entered :
        (w : World e) → Plain f → Entered path parent f w (enter_folder c user parent path f w)
    unfolding enter_folder
    enter_folder-Entered w plain =
        or_ensure-Entered w (cache_get e user path w) plain (cache_get-Looked path w)

  cache_key-ne : (p q : Bytes) → p ≢ q → cache_key e user p ≢ cache_key e user q
  unfolding cache_key
  cache_key-ne p q ne h =
      let tails : b':' ∷ p ≡ b':' ∷ q =
        append_cancel_left (e.format_uuid user) _ _ (append_cancel_left cache_prefix _ _ h) in
      ne (append_cancel_left (b':' ∷ []) p q tails)

  -- A way through a later cache, which has kept the keys of its paths, is one through the first.
  Reaches-earlier :
      (r r2 : e.redis.State) (o : e.Outside) (path parent : Bytes) (fs : List Bytes) (id : Bytes)
      → All
          (λ p.
            (t : Time)
            → e.redis.get (cache_key e user p) t r2 ≡ e.redis.get (cache_key e user p) t r)
          (paths path fs)
      → Reaches r2 o path parent fs id
      → Reaches r o path parent fs id
  unfolding Reaches paths
  Reaches-earlier r r2 o path parent [] id kept h = h
  Reaches-earlier r r2 o path parent (f ∷ fs) id (here, kept) (next, step, rest) = (
    next,
    elim step [ inl (t, had) ↦ inl (t, sym (here t) ∙ had) | inr there ↦ inr there ],
    Reaches-earlier r r2 o (next_path c.join path f) next fs id kept rest,
  )

  keys_kept :
      (p : Bytes) (w v : World e) (ps : List Bytes)
      → All (λ q. p ≢ q) ps
      → OthersKept p w v
      → All
          (λ q.
            (t : Time)
            → e.redis.get (cache_key e user q) t v.redis
              ≡ e.redis.get (cache_key e user q) t w.redis)
          ps
  keys_kept p w v [] h kept = tt
  keys_kept p w v (q ∷ ps) (ne, h) kept =
      (kept (cache_key e user q) (cache_key-ne p q ne), keys_kept p w v ps h kept)

  abbrev Walked : Bytes → Bytes → List Bytes → World e → Result Bytes × World e → Type 0
  Walked path parent fs w (r, v) =
      NothingDoubled w v × ((id : Bytes) → r ≡ ok id → Reaches w.redis v.outside path parent fs id)

  same_id : (i id : Bytes) → ok i ≡ ok id → id ≡ i
  same_id i id h = cc

  walk_folders-Walked :
      (path parent : Bytes) (fs : List Bytes) (w : World e)
      → All Plain fs
      → Distinct (paths path fs)
      → Walked path parent fs w (walk_folders c user parent path fs w)
  unfolding walk_folders paths Reaches
  walk_folders-Walked path parent [] w plain d = (λ q g. inl refl, λ id h. same_id parent id h)
  walk_folders-Walked path parent (f ∷ fs) w (plain, plains) (apart, d) =
      behind (enter_folder c user parent path2 f w) (enter_folder-Entered path2 parent f w plain)
        (λ next u. walk_folders-Walked path2 next fs u plains d)
    where
      path2 : Bytes
      path2 = next_path c.join path f

      behind :
          (r : Result Bytes × World e)
          → Entered path2 parent f w r
          → ((next : Bytes) (u : World e)
              → Walked path2 next fs u (walk_folders c user next path2 fs u))
          → Walked path parent
              (f ∷ fs)
              w
              (((λ (u : World e). r) >>= λ id. walk_folders c user id path2 fs) w)
      behind (err x, u) (made, found, kept) later = (made, λ id h. cc)
      behind (ok next, u) (made, found, kept) later =
          let (made2, reached) = later next u in
          let v = (walk_folders c user next path2 fs u).1 in
          (
            then_nothing w u v made made2,
            λ id h. (
              next,
              elim (found next refl) [
                | inl had ↦ inl had
                | inr there ↦ inr (OneMade-Memᴰ next _ _ (made2 parent f) there)
              ],
              Reaches-earlier w.redis u.redis v.outside path2 next fs id
                  (keys_kept path2 w u (paths path2 fs) apart kept) (reached id h),
            ),
          )

  -- Where a listing gives the folders that Drive holds, no name has a backslash, and the paths of
  -- the chain are distinct, whatever the cache holds and whichever calls of Redis, Postgres and
  -- Drive fail: every parent and name has the folders it had before the walk, or its first one
  -- where it had none; and an id that the walk ends in is reached from the parent by steps to a
  -- folder that Drive has under the next name in the last one, or to the id that the cache had for
  -- the path.
  pub walk_folders_lem :
      (path parent : Bytes) (fs : List Bytes) (w : World e)
      → All Plain fs
      → Distinct (paths path fs)
      → let (r, v) = walk_folders c user parent path fs w in
        ((q g : Bytes) → OneMade (s.ids w.outside q g) (s.ids v.outside q g))
        × ((id : Bytes) → r ≡ ok id → Reaches w.redis v.outside path parent fs id)
  walk_folders_lem path parent fs w plain d = walk_folders-Walked path parent fs w plain d
