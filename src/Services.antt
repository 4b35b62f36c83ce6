-- ===== src/Services.antt =====
-- What the program takes from outside: Redis, the clock, uuid.New, uuid.Parse and
-- uuid.UUID.String, the JSON type of Postgres, and the faults of the network.
-- Each is a field, with the documented behaviour that the code relies on as a law.
pub mod Memory
pub mod Lists
use dist_task_queue.Prelude.{
  ℕ, zero, suc, ◌+◌, ◌≡◌, ◌≢◌, Bool, true, false, ◌&&◌, ◌||◌, Option, none, some, List, [], ◌∷◌,
  ◌++◌, Memᴰ,
}
use dist_task_queue.Prelude.Tests.{Bytes, bytes_eq, ltb, ◌==◌, if◌then◌else◌, is_some}
use dist_task_queue.Prelude.Lists.{length, All}

-- The end of a list at which LMOVE puts the element.
pub data Side : Type 0 where
  left right : Side

abbrev pub put : Side → Bytes → List Bytes → List Bytes
put left x xs = x ∷ xs
put right x xs = xs ++ x ∷ []

-- LREM with count 1: the first occurrence from the head goes.
unfoldable pub remove_first : Bytes → List Bytes → List Bytes
remove_first v [] = []
remove_first v (x ∷ xs) = if bytes_eq v x then xs else x ∷ remove_first v xs

unfoldable pub starts_with : Bytes → Bytes → Bool
starts_with [] s = true
starts_with (a ∷ p) [] = false
starts_with (a ∷ p) (b ∷ s) = a == b && starts_with p s

-- The keys that a whole SCAN iteration returns, page after page until the cursor is 0.
unfoldable pub scan_keys : (ℕ → List Bytes × ℕ) → ℕ → ℕ → Option (List Bytes)
scan_keys page zero cursor = none
scan_keys page (suc fuel) cursor =
    let rest = scan_keys page fuel (page cursor).1 in
    if (page cursor).1 == 0
    then some (page cursor).0
    else elim rest [ none ↦ none | some ks ↦ some ((page cursor).0 ++ ks) ]

-- The Redis server. List commands and string commands are used at keys of different prefixes.
pub record Redis : Type 1 where
  pub State : Type 0
  pub lrange : Bytes → State → List Bytes
  pub get : Bytes → ℕ → State → Option Bytes
  pub lpush : Bytes → Bytes → State → State
  pub lmove : Side → Bytes → Bytes → State → Option Bytes × State
  pub lrem : Bytes → Bytes → State → State
  pub llen : Bytes → State → ℕ
  pub set : Bytes → Bytes → ℕ → ℕ → State → State
  pub exists : Bytes → ℕ → State → ℕ
  pub scan : Bytes → State → ℕ → List Bytes × ℕ
  pub scan_rounds : Bytes → State → ℕ
  pub lrange-lpush :
      (k v j : Bytes) (s : State)
      → lrange j (lpush k v s) ≡ (if bytes_eq k j then v ∷ lrange k s else lrange j s)
  pub get-lpush : (k v j : Bytes) (t : ℕ) (s : State) → get j t (lpush k v s) ≡ get j t s
  pub lmove_empty :
      (d : Side) (src dst : Bytes) (s : State) → lrange src s ≡ [] → lmove d src dst s ≡ (none, s)
  pub lmove_last :
      (d : Side) (src dst x : Bytes) (xs : List Bytes) (s : State)
      → lrange src s ≡ xs ++ x ∷ []
      → (lmove d src dst s).0 ≡ some x
  pub lrange-lmove :
      (d : Side) (src dst x : Bytes) (xs : List Bytes) (j : Bytes) (s : State)
      → lrange src s ≡ xs ++ x ∷ []
      → src ≢ dst
      → lrange j (lmove d src dst s).1 ≡ (
          if bytes_eq src j
          then xs
          else if bytes_eq dst j
          then put d x (lrange dst s)
          else lrange j s)
  pub get-lmove :
      (d : Side) (src dst j : Bytes) (t : ℕ) (s : State) → get j t (lmove d src dst s).1 ≡ get j t s
  pub lrange-lrem :
      (k v j : Bytes) (s : State)
      → lrange j (lrem k v s) ≡ (if bytes_eq k j then remove_first v (lrange k s) else lrange j s)
  pub get-lrem : (k v j : Bytes) (t : ℕ) (s : State) → get j t (lrem k v s) ≡ get j t s
  pub llen-lrange : (k : Bytes) (s : State) → llen k s ≡ length (lrange k s)
  pub get-set :
      (k v j : Bytes) (ttl t now : ℕ) (s : State)
      → get j now (set k v ttl t s) ≡ (
          if bytes_eq k j
          then (if ttl == 0 || ltb now (t + ttl) then some v else none)
          else get j now s)
  pub lrange-set :
      (k v j : Bytes) (ttl t : ℕ) (s : State) → k ≢ j → lrange j (set k v ttl t s) ≡ lrange j s
  pub exists_iff :
      (k : Bytes) (t : ℕ) (s : State)
      → lrange k s ≡ []
      → exists k t s ≡ (if is_some (get k t s) then 1 else 0)
  -- A whole iteration ends, and returns every key with the prefix that holds a list.
  pub scan_complete :
      (p : Bytes) (s : State)
      → (ks : List Bytes) × (scan_keys (scan p s) (scan_rounds p s) 0 ≡ some ks)
        × ((k : Bytes) → starts_with p k ≡ true → lrange k s ≢ [] → Memᴰ k ks)

-- The name of a file in its directory: what a path may be made of besides its root.
abbrev pub IsName : Bytes → Type 0
IsName s = (s ≢ []) × (s ≢ b'.' ∷ []) × (s ≢ b'.' ∷ b'.' ∷ []) × All (λ c. (c ≢ 0) × (c ≢ b'/')) s

unfoldable pub path_eq : List Bytes → List Bytes → Bool
path_eq [] [] = true
path_eq (a ∷ p) (b ∷ q) = bytes_eq a b && path_eq p q
path_eq _ _ = false

-- The file system. A path is filepath.Join of a root and of names; `false` and `none` are errors.
pub record Disk : Type 1 where
  pub State : Type 0
  pub read : Bytes → List Bytes → State → Option Bytes
  pub mkdir_all : Bytes → List Bytes → State → Bool × State
  pub write : Bytes → List Bytes → Bytes → State → Bool × State
  -- A write that succeeds is read back, and changes no file of another path under the root.
  pub read-write :
      (root : Bytes) (p q : List Bytes) (c : Bytes) (s : State)
      → All IsName p
      → All IsName q
      → (write root p c s).0 ≡ true
      → read root q (write root p c s).1 ≡ (if path_eq p q then some c else read root q s)
  pub read-mkdir_all :
      (root : Bytes) (p q : List Bytes) (s : State)
      → read root q (mkdir_all root p s).1 ≡ read root q s

-- What becomes of one call of Redis or Postgres: it is done; or the caller gets an error, and the
-- command was lost before or only after it took effect.
pub data Fault : Type 0 where
  fine lost late : Fault

-- The n-th call of a service fails as `fault n` says, and reads the clock `now n`.
pub record Env : Type 1 where
  pub redis : Redis
  pub disk : Disk
  -- what the remote services hold
  pub Outside : Type 0
  pub fault : ℕ → Fault
  pub now : ℕ → ℕ
  pub new_uuid : ℕ → ℕ
  pub format_uuid : ℕ → Bytes
  pub parse_uuid : Bytes → Option ℕ
  pub parse-format : (u : ℕ) → parse_uuid (format_uuid u) ≡ some u
  pub jsonb : Bytes → Option Bytes
