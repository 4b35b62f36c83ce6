-- ===== src/Api/Counts.antt =====
-- The counts by label of internal/api: a Go map or a gauge vector, and the rows of
-- SELECT status, count(*) … GROUP BY status.
use dist_task_queue.Prelude.{
  ℕ, ◌+◌, ◌≡◌, refl, sym, ap, ◌∙◌, inl, inr, Bool, true, false, Option, none, some, List, [], ◌∷◌,
  arith,
}
use dist_task_queue.Prelude.Tests.{
  bytes_eq, bytes_eq_refl, bytes_eq_iff, ◌==◌, if◌then◌else◌, Bool-cases,
}
use dist_task_queue.Prelude.Lists.{exists}
use dist_task_queue.Store.Types.{JobStatus, queued, running, done, dead, is_status, Job}

module _ {A : Type 0} where
  -- `m[k] = n`, and WithLabelValues(k).Set(n).
  unfoldable pub set_label : (A → A → Bool) → A → ℕ → List (A × ℕ) → List (A × ℕ)
  set_label eq k n [] = (k, n) ∷ []
  set_label eq k n ((j, x) ∷ m) = if eq j k then (k, n) ∷ m else (j, x) ∷ set_label eq k n m

  unfoldable pub find_label : (A → A → Bool) → A → List (A × ℕ) → Option ℕ
  find_label eq k [] = none
  find_label eq k ((j, x) ∷ m) = if eq j k then some x else find_label eq k m

  -- A test that is true of equal labels only.
  pub record IsTest (eq : A → A → Bool) : Type 0 where
    pub same : (a : A) → eq a a ≡ true
    pub only : (a b : A) → eq a b ≡ true → a ≡ b

  module _ (eq : A → A → Bool) (t : IsTest eq) where
    pub find_label-set_label :
        (j k : A) (n : ℕ) (m : List (A × ℕ))
        → find_label eq j (set_label eq k n m) ≡ (if eq k j then some n else find_label eq j m)
    unfolding find_label set_label
    find_label-set_label j k n [] = refl
    find_label-set_label j k n ((i, x) ∷ m) = elim (Bool-cases (eq i k)) [
      | inl e ↦ elim (Bool-cases (eq k j)) [
        | inl h ↦ rw (e, h) refl
        | inr h ↦ rw (e, h, t.only i k e, h) refl
      ]
      | inr e ↦ elim (Bool-cases (eq i j)) [
        | inl h ↦ elim (Bool-cases (eq k j)) [
          | inl g ↦ let q : eq i k ≡ true = rw (t.only i j h, t.only k j g) (t.same j) in cc
          | inr g ↦ rw (e, h, g) refl
        ]
        | inr h ↦ rw (e, h) (find_label-set_label j k n m)
      ]
    ]

  -- A number set for every label of a list.
  unfoldable pub set_each : (A → A → Bool) → (A → ℕ) → List A → List (A × ℕ) → List (A × ℕ)
  set_each eq f [] m = m
  set_each eq f (k ∷ ks) m = set_each eq f ks (set_label eq k (f k) m)

  module _ (eq : A → A → Bool) (t : IsTest eq) (f : A → ℕ) where
    set_each_keeps :
        (j : A) (ks : List A) (m : List (A × ℕ))
        → find_label eq j m ≡ some (f j)
        → find_label eq j (set_each eq f ks m) ≡ some (f j)
    unfolding set_each
    set_each_keeps j [] m h = h
    set_each_keeps j (k ∷ ks) m h = set_each_keeps j ks _ (
        find_label-set_label eq t j k (f k) m ∙ elim (Bool-cases (eq k j)) [
          | inl same ↦ rw (same, t.only k j same) refl
          | inr other ↦ rw other h
        ])

    pub find_label-set_each :
        (j : A) (ks : List A) (m : List (A × ℕ))
        → exists (λ k. eq k j) ks ≡ true
        → find_label eq j (set_each eq f ks m) ≡ some (f j)
    unfolding set_each
    find_label-set_each j [] m h = cc
    find_label-set_each j (k ∷ ks) m h = elim (Bool-cases (eq k j)) [
      | inl same ↦
          set_each_keeps j ks _
            (find_label-set_label eq t j k (f k) m ∙ rw (same, t.only k j same) refl)
      | inr other ↦ find_label-set_each j ks _ (ground (arith, h, other))
    ]

unfoldable pub count_status : JobStatus → List Job → ℕ
count_status s [] = 0
count_status s (j ∷ js) = (if is_status j.status s then 1 else 0) + count_status s js

abbrev pub statuses : List JobStatus
statuses = queued ∷ running ∷ done ∷ dead ∷ []

-- The groups of the statuses that some row has.
unfoldable pub group_rows : List JobStatus → List Job → List (JobStatus × ℕ)
group_rows [] js = []
group_rows (s ∷ ss) js =
    let rest = group_rows ss js in
    if count_status s js == 0 then rest else (s, count_status s js) ∷ rest

unfoldable pub set_zeros : List JobStatus → List (JobStatus × ℕ) → List (JobStatus × ℕ)
set_zeros [] m = m
set_zeros (s ∷ ss) m = set_zeros ss (set_label is_status s 0 m)

-- `for rows.Next() { … out[status] = n }`
unfoldable pub set_rows : List (JobStatus × ℕ) → List (JobStatus × ℕ) → List (JobStatus × ℕ)
set_rows [] m = m
set_rows ((s, n) ∷ rows) m = set_rows rows (set_label is_status s n m)

is_status-same : (s : JobStatus) → is_status s s ≡ true
is_status-same queued = refl
is_status-same running = refl
is_status-same done = refl
is_status-same dead = refl

is_status-only : (s t : JobStatus) → is_status s t ≡ true → s ≡ t
is_status-only queued queued h = refl
is_status-only queued running h = cc
is_status-only queued done h = cc
is_status-only queued dead h = cc
is_status-only running queued h = cc
is_status-only running running h = refl
is_status-only running done h = cc
is_status-only running dead h = cc
is_status-only done queued h = cc
is_status-only done running h = cc
is_status-only done done h = refl
is_status-only done dead h = cc
is_status-only dead queued h = cc
is_status-only dead running h = cc
is_status-only dead done h = cc
is_status-only dead dead h = refl

pub status-IsTest : IsTest is_status
status-IsTest = record { same = is_status-same; only = is_status-only }

pub bytes-IsTest : IsTest bytes_eq
bytes-IsTest = record { same = bytes_eq_refl; only = λ s t. (bytes_eq_iff s t).0 }

every_status : (t : JobStatus) → exists (λ s. is_status s t) statuses ≡ true
every_status queued = refl
every_status running = refl
every_status done = refl
every_status dead = refl

module _ (js : List Job) (t : JobStatus) where
  -- The map has the count of the status.
  abbrev pub Counted : List (JobStatus × ℕ) → Type 0
  Counted m = find_label is_status t m ≡ some (count_status t js)

  set_count :
      (s : JobStatus) (m : List (JobStatus × ℕ))
      → is_status s t ≡ true
      → Counted (set_label is_status s (count_status s js) m)
  set_count s m h =
      find_label-set_label is_status status-IsTest t s (count_status s js) m
      ∙ rw (h, is_status-only s t h) refl

  set_other :
      (s : JobStatus) (n : ℕ) (m : List (JobStatus × ℕ))
      → is_status s t ≡ false
      → find_label is_status t (set_label is_status s n m) ≡ find_label is_status t m
  set_other s n m h = find_label-set_label is_status status-IsTest t s n m ∙ rw h refl

  set_rows-Counted :
      (ss : List JobStatus) (m : List (JobStatus × ℕ))
      → Counted m
      → Counted (set_rows (group_rows ss js) m)
  unfolding group_rows set_rows
  set_rows-Counted [] m h = h
  set_rows-Counted (s ∷ ss) m h = elim (Bool-cases (count_status s js == 0)) [
    | inl none_left ↦ rw none_left (set_rows-Counted ss m h)
    | inr more ↦ rw more (
        set_rows-Counted ss _ (elim (Bool-cases (is_status s t)) [
          | inl same ↦ set_count s m same
          | inr other ↦ set_other s _ m other ∙ h
        ]))
  ]

  set_rows-zeros :
      (ss : List JobStatus) (m : List (JobStatus × ℕ))
      → exists (λ s. is_status s t) ss ≡ true
      → find_label is_status t m ≡ some 0
      → Counted (set_rows (group_rows ss js) m)
  unfolding group_rows set_rows
  set_rows-zeros [] m h z = cc
  set_rows-zeros (s ∷ ss) m h z = elim (Bool-cases (is_status s t)) [
    | inl same ↦ elim (Bool-cases (count_status s js == 0)) [
      | inl absent ↦
          let counted : Counted m =
            z
            ∙ ap some (
                sym (
                  ground (arith, absent, ap (λ s. count_status s js) (is_status-only s t same)))) in
          rw absent (set_rows-Counted ss m counted)
      | inr present ↦ rw present (set_rows-Counted ss _ (set_count s m same))
    ]
    | inr other ↦
        let later : exists (λ s. is_status s t) ss ≡ true = ground (arith, h, other) in
        elim (Bool-cases (count_status s js == 0)) [
          | inl absent ↦ rw absent (set_rows-zeros ss m later z)
          | inr present ↦ rw present (set_rows-zeros ss _ later (set_other s _ m other ∙ z))
        ]
  ]

  find_label-zeros :
      (ss : List JobStatus) (m : List (JobStatus × ℕ))
      → find_label is_status t m ≡ some 0
      → find_label is_status t (set_zeros ss m) ≡ some 0
  unfolding set_zeros
  find_label-zeros [] m h = h
  find_label-zeros (s ∷ ss) m h =
      find_label-zeros ss _
        (find_label-set_label is_status status-IsTest t s 0 m ∙ zero_or (is_status s t))
    where
      zero_or : (b : Bool) → (if b then some 0 else find_label is_status t m) ≡ some 0
      zero_or true = refl
      zero_or false = h

  zero_set :
      (ss : List JobStatus) (m : List (JobStatus × ℕ))
      → exists (λ s. is_status s t) ss ≡ true
      → find_label is_status t (set_zeros ss m) ≡ some 0
  unfolding set_zeros
  zero_set [] m h = cc
  zero_set (s ∷ ss) m h = elim (Bool-cases (is_status s t)) [
    | inl same ↦
        find_label-zeros ss _ (find_label-set_label is_status status-IsTest t s 0 m ∙ rw same refl)
    | inr other ↦ zero_set ss _ (ground (arith, h, other))
  ]

  -- Zeros for the known statuses, then the groups: every status has the count of its rows.
  pub grouped-Counted :
      (m : List (JobStatus × ℕ))
      → Counted (set_rows (group_rows statuses js) (set_zeros statuses m))
  grouped-Counted m =
      set_rows-zeros statuses _ (every_status t) (zero_set statuses m (every_status t))
