-- ===== src/Services/Memory.antt =====
-- A Redis server in memory, and an environment over it: the laws of `Services` can be met, and
-- theorems about the program can be run.
use Prim.Native.Nat.{◌*◌}
use dist_task_queue.Prelude.{
  ℕ, ◌+◌, ◌≡◌, ◌≢◌, refl, true, ◌||◌, Option, none, some, List, [], ◌∷◌, ◌++◌, Memᴰ, arith, inl,
  inr,
}
use dist_task_queue.Prelude.Tests.{
  Bytes, bytes_eq, bytes_eq_iff, ne→bytes_eq, ltb, ◌==◌, if◌then◌else◌, is_some, Bool-cases,
}
use dist_task_queue.Prelude.Lists.{length}
use dist_task_queue.Services.{
  Side, put, remove_first, starts_with, scan_keys, Redis, path_eq, Disk, fine, Env,
}

-- The last binding of a key stands first.
pub record Memory : Type 0 where
  pub lists : List (Bytes × List Bytes)
  pub texts : List (Bytes × (ℕ → Option Bytes))

unfoldable pub list_at : Bytes → List (Bytes × List Bytes) → List Bytes
list_at k [] = []
list_at k ((j, xs) ∷ m) = if bytes_eq j k then xs else list_at k m

unfoldable pub text_at : Bytes → ℕ → List (Bytes × (ℕ → Option Bytes)) → Option Bytes
text_at k t [] = none
text_at k t ((j, f) ∷ m) = if bytes_eq j k then f t else text_at k t m

keys_of : Bytes → List (Bytes × List Bytes) → List Bytes
keys_of p [] = []
keys_of p ((j, xs) ∷ m) = let rest = keys_of p m in if starts_with p j then j ∷ rest else rest

unfoldable pub lrange : Bytes → Memory → List Bytes
unfolding list_at
lrange k s = list_at k s.lists

unfoldable pub get : Bytes → ℕ → Memory → Option Bytes
unfolding text_at
get k t s = text_at k t s.texts

store : Bytes → List Bytes → Memory → Memory
store k xs s = record s { lists = (k, xs) ∷ s.lists }

unfoldable pub lpush : Bytes → Bytes → Memory → Memory
unfolding lrange store
lpush k v s = store k (v ∷ lrange k s) s

-- The last element of a list and what stands before it.
split_last : List Bytes → Option (List Bytes × Bytes)
split_last [] = none
split_last (x ∷ xs) = elim (split_last xs) [ none ↦ some ([], x) | some (ys, y) ↦ some (x ∷ ys, y) ]

move : Side → Bytes → Bytes → Option (List Bytes × Bytes) → Memory → Option Bytes × Memory
unfolding lrange store
move d src dst none s = (none, s)
move d src dst (some (xs, x)) s =
    let s' = store src xs s in (some x, store dst (put d x (lrange dst s')) s')

unfoldable pub lmove : Side → Bytes → Bytes → Memory → Option Bytes × Memory
unfolding move split_last
lmove d src dst s = move d src dst (split_last (lrange src s)) s

unfoldable pub lrem : Bytes → Bytes → Memory → Memory
unfolding lrange store remove_first
lrem k v s = store k (remove_first v (lrange k s)) s

unfoldable pub set : Bytes → Bytes → ℕ → ℕ → Memory → Memory
set k v ttl t s = record s {
  texts = (k, λ now. if ttl == 0 || ltb now (t + ttl) then some v else none) ∷ s.texts;
}

-- Whether the key holds a list or a text that has not expired.
unfoldable pub exists : Bytes → ℕ → Memory → ℕ
unfolding get lrange
exists k t s = elim (lrange k s) [ [] ↦ if is_some (get k t s) then 1 else 0 | _ ↦ 1 ]

unfoldable pub scan : Bytes → Memory → ℕ → List Bytes × ℕ
unfolding keys_of
scan p s cursor = (keys_of p s.lists, 0)

pub lrange-lpush :
    (k v j : Bytes) (s : Memory)
    → lrange j (lpush k v s) ≡ (if bytes_eq k j then v ∷ lrange k s else lrange j s)
unfolding lpush
lrange-lpush k v j s = refl

pub get-lpush : (k v j : Bytes) (t : ℕ) (s : Memory) → get j t (lpush k v s) ≡ get j t s
unfolding get lpush
get-lpush k v j t s = refl

split_last_nil : (xs : List Bytes) → xs ≡ [] → split_last xs ≡ none
unfolding split_last
split_last_nil [] h = refl
split_last_nil (x ∷ xs) h = cc

split_last_snoc : (xs : List Bytes) (x : Bytes) → split_last (xs ++ x ∷ []) ≡ some (xs, x)
unfolding split_last
split_last_snoc [] x = refl
split_last_snoc (y ∷ xs) x = rw (split_last_snoc xs x, split_last)

pub lmove_empty :
    (d : Side) (src dst : Bytes) (s : Memory) → lrange src s ≡ [] → lmove d src dst s ≡ (none, s)
unfolding lmove
lmove_empty d src dst s h = rw (split_last_nil _ h, move)

lmove_move :
    (d : Side) (src dst x : Bytes) (xs : List Bytes) (s : Memory)
    → lrange src s ≡ xs ++ x ∷ []
    → lmove d src dst s ≡ move d src dst (some (xs, x)) s
unfolding lmove
lmove_move d src dst x xs s h = rw (h, split_last_snoc xs x)

pub lmove_last :
    (d : Side) (src dst x : Bytes) (xs : List Bytes) (s : Memory)
    → lrange src s ≡ xs ++ x ∷ []
    → (lmove d src dst s).0 ≡ some x
unfolding move
lmove_last d src dst x xs s h = rw (lmove_move d src dst x xs s h)

lrange-move :
    (d : Side) (src dst x : Bytes) (xs : List Bytes) (j : Bytes) (s : Memory)
    → src ≢ dst
    → lrange j (move d src dst (some (xs, x)) s).1 ≡ (
        if bytes_eq src j
        then xs
        else if bytes_eq dst j
        then put d x (lrange dst s)
        else lrange j s)
unfolding move
lrange-move d src dst x xs j s h =
    ground
      (arith, ne→bytes_eq src dst h, bytes_eq_iff src j, bytes_eq_iff dst j, bytes_eq_iff src dst)

pub lrange-lmove :
    (d : Side) (src dst x : Bytes) (xs : List Bytes) (j : Bytes) (s : Memory)
    → lrange src s ≡ xs ++ x ∷ []
    → src ≢ dst
    → lrange j (lmove d src dst s).1 ≡ (
        if bytes_eq src j
        then xs
        else if bytes_eq dst j
        then put d x (lrange dst s)
        else lrange j s)
lrange-lmove d src dst x xs j s h ne =
    rw (lmove_move d src dst x xs s h) (lrange-move d src dst x xs j s ne)

get-move :
    (d : Side) (src dst : Bytes) (o : Option (List Bytes × Bytes)) (j : Bytes) (t : ℕ) (s : Memory)
    → get j t (move d src dst o s).1 ≡ get j t s
unfolding get move
get-move d src dst none j t s = refl
get-move d src dst (some (xs, x)) j t s = refl

pub get-lmove :
    (d : Side) (src dst j : Bytes) (t : ℕ) (s : Memory) → get j t (lmove d src dst s).1 ≡ get j t s
unfolding lmove
get-lmove d src dst j t s = get-move d src dst (split_last (lrange src s)) j t s

pub lrange-lrem :
    (k v j : Bytes) (s : Memory)
    → lrange j (lrem k v s) ≡ (if bytes_eq k j then remove_first v (lrange k s) else lrange j s)
unfolding lrem
lrange-lrem k v j s = refl

pub get-lrem : (k v j : Bytes) (t : ℕ) (s : Memory) → get j t (lrem k v s) ≡ get j t s
unfolding get lrem
get-lrem k v j t s = refl

pub get-set :
    (k v j : Bytes) (ttl t now : ℕ) (s : Memory)
    → get j now (set k v ttl t s) ≡ (
        if bytes_eq k j
        then (if ttl == 0 || ltb now (t + ttl) then some v else none)
        else get j now s)
unfolding get set
get-set k v j ttl t now s = refl

pub lrange-set :
    (k v j : Bytes) (ttl t : ℕ) (s : Memory) → k ≢ j → lrange j (set k v ttl t s) ≡ lrange j s
unfolding lrange set
lrange-set k v j ttl t s h = refl

pub exists_iff :
    (k : Bytes) (t : ℕ) (s : Memory)
    → lrange k s ≡ []
    → exists k t s ≡ (if is_some (get k t s) then 1 else 0)
unfolding exists
exists_iff k t s h = rw (h, exists)

keys_of_tail :
    (p k j : Bytes) (xs : List Bytes) (m : List (Bytes × List Bytes))
    → Memᴰ k (keys_of p m)
    → Memᴰ k (keys_of p ((j, xs) ∷ m))
unfolding keys_of
keys_of_tail p k j xs m h = elim (Bool-cases (starts_with p j)) [
  | inl e ↦ rw e (Memᴰ.tail h)
  | inr e ↦ rw e h
]

keys_of_head :
    (p k j : Bytes) (xs : List Bytes) (m : List (Bytes × List Bytes))
    → starts_with p k ≡ true
    → j ≡ k
    → Memᴰ k (keys_of p ((j, xs) ∷ m))
unfolding keys_of
keys_of_head p k j xs m h e = rw (e, h) (Memᴰ.head refl)

list_at-keys_of :
    (p k : Bytes) (m : List (Bytes × List Bytes))
    → starts_with p k ≡ true
    → list_at k m ≢ []
    → Memᴰ k (keys_of p m)
unfolding list_at keys_of
list_at-keys_of p k [] h ne = absurd (ne refl)
list_at-keys_of p k ((j, xs) ∷ m) h ne = elim (Bool-cases (bytes_eq j k)) [
  | inl e ↦ keys_of_head p k j xs m h ((bytes_eq_iff j k).0 e)
  | inr e ↦ keys_of_tail p k j xs m (list_at-keys_of p k m h (rw e at ne))
]

pub scan_complete :
    (p : Bytes) (s : Memory)
    → (ks : List Bytes) × (scan_keys (scan p s) 1 0 ≡ some ks)
      × ((k : Bytes) → starts_with p k ≡ true → lrange k s ≢ [] → Memᴰ k ks)
unfolding scan_keys scan lrange
scan_complete p s = (keys_of p s.lists, refl, λ k h ne. list_at-keys_of p k s.lists h ne)

abbrev pub redis : Redis
redis = record {
  State = Memory;
  lrange = lrange;
  get = get;
  lpush = lpush;
  lmove = lmove;
  lrem = lrem;
  llen = λ k s. length (lrange k s);
  set = set;
  exists = exists;
  scan = scan;
  scan_rounds = λ p s. 1;
  lrange-lpush = lrange-lpush;
  get-lpush = get-lpush;
  lmove_empty = lmove_empty;
  lmove_last = lmove_last;
  lrange-lmove = lrange-lmove;
  get-lmove = get-lmove;
  lrange-lrem = lrange-lrem;
  get-lrem = get-lrem;
  llen-lrange = λ k s. refl;
  get-set = get-set;
  lrange-set = lrange-set;
  exists_iff = exists_iff;
  scan_complete = scan_complete;
}

unfoldable pub format_uuid : ℕ → Bytes
format_uuid u = u ∷ []

unfoldable pub parse_uuid : Bytes → Option ℕ
parse_uuid [] = none
parse_uuid (u ∷ []) = some u
parse_uuid (u ∷ v ∷ s) = none

pub parse-format : (u : ℕ) → parse_uuid (format_uuid u) ≡ some u
unfolding parse_uuid format_uuid
parse-format u = refl

-- A disk in memory: the last contents of each path, roots aside.
unfoldable pub read : Bytes → List Bytes → List (List Bytes × Bytes) → Option Bytes
read root q [] = none
read root q ((p, c) ∷ s) = if path_eq p q then some c else read root q s

pub read-write :
    (root : Bytes) (p q : List Bytes) (c : Bytes) (s : List (List Bytes × Bytes))
    → read root q ((p, c) ∷ s) ≡ (if path_eq p q then some c else read root q s)
unfolding read
read-write root p q c s = refl

abbrev pub disk : Disk
disk = record {
  State = List (List Bytes × Bytes);
  read = read;
  mkdir_all = λ root p s. (true, s);
  write = λ root p c s. (true, (p, c) ∷ s);
  read-write = λ root p q c s hp hq ok. read-write root p q c s;
  read-mkdir_all = λ root p q s. refl;
}

-- No call fails, the clock shows one second more at each call, and uuids are numbered.
abbrev pub calm_env : Env
calm_env = record {
  redis = redis;
  disk = disk;
  Outside = Unit {0};
  fault = λ n. fine;
  now = λ n. 70000000000000000000 + n * 1000000000;
  new_uuid = λ n. n;
  format_uuid = format_uuid;
  parse_uuid = parse_uuid;
  parse-format = parse-format;
  jsonb = λ b. some b;
}
