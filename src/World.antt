-- ===== src/World.antt =====
-- The state that the program's processes share, and programs over it: a Go function that calls
-- Redis or Postgres is a function of the world, with its `error` as a value.
use dist_task_queue.Prelude.{ℕ, suc, ◌≡◌, refl, List, [], ◌∷◌, arith}
use dist_task_queue.Prelude.Tests.{Bytes}
use dist_task_queue.Services.{Env, Fault, fine, lost, late}
use dist_task_queue.Store.Types.{Db, Time}

-- An error by what errors.Is finds in it. `fmt.Errorf("…: %w", err)` is `err`, and `post_claim e`
-- wraps errPostClaim and `e`; `io` is a failed call of a service, `text` any other error, whose words
-- are left out where nothing reads them.
pub data Error : Type 0 where
  io empty bad_id : Error
  job_not_found duplicate_job job_not_claimable user_not_found oauth_token_not_found : Error
  constraint bad_json : Error
  invalid_key short_ciphertext open_failed : Error
  text : Bytes → Error
  post_claim : Error → Error

pub data Result {ℓ} (A : Type ℓ) : Type ℓ where
  ok : A → Result A
  err : Error → Result A

-- `calls` counts the calls of services made so far; it indexes the faults and the clock.
pub record World (e : Env) : Type 0 where
  pub redis : e.redis.State
  pub db : Db
  pub disk : e.disk.State
  pub outside : e.Outside
  pub calls : ℕ

abbrev pub M : Env → Type 0 → Type 0
M e A = World e → Result A × World e

module _ {e : Env} {A B : Type 0} where
  -- `if err != nil { return …, err }`, and what comes behind it.
  abbrev pub and_then : (A → M e B) → Result A × World e → Result B × World e
  and_then f (ok a, w) = f a w
  and_then f (err x, w) = (err x, w)

  infixl 5 ◌>>=◌
  abbrev pub ◌>>=◌ : M e A → (A → M e B) → M e B
  ◌>>=◌ m f w = and_then f (m w)

  pub and_then_keeps :
      (P : World e → Type 0) (f : A → M e B) (r : Result A × World e)
      → P r.1
      → ((a : A) (w : World e) → P w → P (f a w).1)
      → P (and_then f r).1
  and_then_keeps P f (ok a, w) h keep = keep a w h
  and_then_keeps P f (err x, w) h keep = h

  -- A chain that gives a result went through its first part.
  pub and_then_ok :
      (f : A → M e B) (r : Result A × World e) (b : B)
      → (and_then f r).0 ≡ ok b
      → (a : A) × (r.0 ≡ ok a) × (and_then f r ≡ f a r.1)
  and_then_ok f (ok a, w) b h = (a, refl, refl)
  and_then_ok f (err x, w) b h = cc

module _ {e : Env} {B : Type 0} where
  infixl 5 ◌>>◌
  abbrev pub ◌>>◌ : M e (Unit {0}) → M e B → M e B
  ◌>>◌ m k w = and_then (λ u. k) (m w)

module _ {e : Env} {A : Type 0} where
  abbrev pub pure : A → M e A
  pure a w = (ok a, w)

  abbrev pub fail : Error → M e A
  fail x w = (err x, w)

  -- `if err := m; err != nil { log; continue }`: the error is looked at and dropped.
  abbrev pub attempt : M e A → M e (Result A)
  attempt m w = let (r, w') = m w in (ok r, w')

-- One call of a service, under the fault that the network has for it. The command gets the clock.
module _ (e : Env) where
  abbrev pub tick : World e → World e
  tick w = record w { calls = suc w.calls }

  unfoldable pub call : {A : Type 0} → (Time → World e → Result A × World e) → M e A
  call op w = elim (e.fault w.calls) [
    | fine ↦ op (e.now w.calls) (tick w)
    | lost ↦ (err io, tick w)
    | late ↦ (err io, (op (e.now w.calls) (tick w)).1)
  ]

  -- What a call can do to the world: nothing, or what its command does.
  pub call_cases :
      {A : Type 0} (P : World e → Type 0) (op : Time → World e → Result A × World e) (w : World e)
      → P (tick w)
      → P (op (e.now w.calls) (tick w)).1
      → P (call op w).1
  unfolding call
  call_cases P op w keep run = ground arith

  -- Without a fault a call is its command.
  pub call_fine :
      {A : Type 0} (op : Time → World e → Result A × World e) (w : World e)
      → e.fault w.calls ≡ fine
      → call op w ≡ op (e.now w.calls) (tick w)
  unfolding call
  call_fine op w h = rw (h, call)

  -- A call that gives a result is its command.
  pub call_ok :
      {A : Type 0} (op : Time → World e → Result A × World e) (a : A) (w : World e)
      → (call op w).0 ≡ ok a
      → call op w ≡ op (e.now w.calls) (tick w)
  unfolding call
  call_ok op a w = by_fault (e.fault w.calls) refl
    where
      by_fault :
          (f : Fault)
          → e.fault w.calls ≡ f
          → (call op w).0 ≡ ok a
          → call op w ≡ op (e.now w.calls) (tick w)
      by_fault fine h r = rw (h, call)
      by_fault lost h r = let q = rw (h, call) at r in cc
      by_fault late h r = let q = rw (h, call) at r in cc

-- No call fails.
abbrev pub Calm : Env → Type 0
Calm e = (n : ℕ) → e.fault n ≡ fine

-- `for _, x := range xs { … }` where every round only changes the world.
unfoldable pub for_each :
    {e : Env} {A : Type 0} → (A → World e → World e) → List A → World e → World e
for_each body [] w = w
for_each body (x ∷ xs) w = for_each body xs (body x w)

pub for_each_keeps :
    {e : Env} {A : Type 0} (P : World e → Type 0) (body : A → World e → World e) (xs : List A)
    (w : World e)
    → ((x : A) (v : World e) → P v → P (body x v))
    → P w
    → P (for_each body xs w)
unfolding for_each
for_each_keeps P body [] w keep h = h
for_each_keeps P body (x ∷ xs) w keep h = for_each_keeps P body xs (body x w) keep (keep x w h)
