-- ===== src/Tests/Drive.antt =====
-- The theorems on Drive at concrete inputs.
use mathlib.Core.List.{append_cancel_left}
use dist_task_queue.Prelude.{
  ℕ, ◌≡◌, ◌≢◌, ◌⊎◌, inl, inr, refl, sym, ap, ◌∙◌, Bool, true, false, ◌&&◌, List, [], ◌∷◌, ◌++◌,
  Memᴰ, arith, subst,
}
use dist_task_queue.Prelude.Tests.{
  Bytes, bytes_eq, bytes_eq_iff, bytes_eq_refl, Bool-cases, ◌==◌, if◌then◌else◌,
}
use dist_task_queue.Prelude.Lists.{length, length-append}
use dist_task_queue.Services.{Env}
use dist_task_queue.Services.Memory.{calm_env}
use dist_task_queue.World.{World, M, Result, ok, err, io}
use dist_task_queue.Drive.{Drive, escape, folder_query, file_query, folder_mime, upload}
use dist_task_queue.Drive.Words.{
  name_is, and_parent, in_parents, mime_is, and_not_trashed, not_trashed,
}
use dist_task_queue.Drive.Shelf.{Shelf, Folders, Files, Plain, OneMade, upload_tries, upload_again}
use dist_task_queue.Handlers.Upload.{UploadConfig, walk_folders}
use dist_task_queue.Handlers.Upload.Chain.{Reaches, paths, walk_folders_lem}
use dist_task_queue.Tests.{tables}
use dist_task_queue.Tests.Handlers.{uploading}

-- An environment whose Drive holds entries with one name, "a", in one folder, "r".
abbrev slot_env : Env
slot_env = record calm_env { Outside = List Bytes }

abbrev empty_slot : World slot_env
empty_slot = record {
  redis = record { lists = []; texts = [] };
  db = tables;
  disk = [];
  outside = [];
  calls = 0;
}

abbrev parent_r : Bytes
parent_r = b'r' ∷ []

abbrev name_a : Bytes
name_a = b'a' ∷ []

abbrev is_slot : Bytes → Bytes → Bool
is_slot p f = bytes_eq p parent_r && bytes_eq f name_a

abbrev slot_ids : List Bytes → Bytes → Bytes → List Bytes
slot_ids o p f = if is_slot p f then o else []

-- A creation of the name makes another entry each time, whatever is there.
abbrev slot_create : Bytes → Bytes → M slot_env Bytes
slot_create p f w =
    if is_slot p f
    then (ok (length w.outside ∷ []), record w { outside = (length w.outside ∷ []) ∷ w.outside })
    else (err io, w)

abbrev slot_list : (Bytes → Bytes → Bytes) → Bytes → M slot_env (List Bytes)
slot_list query q w = (ok (if bytes_eq q (query parent_r name_a) then w.outside else []), w)

abbrev slot_drive : (Bytes → Bytes → Bytes) → Drive slot_env
slot_drive query = record {
  new_service = λ u t w. (ok tt, w);
  list_files = λ u q. slot_list query q;
  create_folder = λ u f p m. slot_create p f;
  create_file = λ u f p m s. slot_create p f;
}

abbrev cons : ℕ → Bytes → Bytes
cons c s = c ∷ s

heads : {a b : ℕ} {r s : Bytes} → cons a r ≡ cons b s → a ≡ b
heads h = cc

tails : {a b : ℕ} {r s : Bytes} → cons a r ≡ cons b s → r ≡ s
tails h = cc

parent_behind : (p rest : Bytes) → p ++ rest ≡ b'r' ∷ rest → p ≡ parent_r
parent_behind [] rest h = absurd (omega (arith, ap length h))
parent_behind (c ∷ []) rest h = rw (heads h) refl
parent_behind (c ∷ d ∷ p) rest h = absurd (omega (arith, ap length h, length-append p rest))

-- A query that is the query for "a" in "r" is for it.
slot_behind :
    (f p rest : Bytes)
    → escape f ++ (and_parent ++ (p ++ rest)) ≡ b'a' ∷ (and_parent ++ (b'r' ∷ rest))
    → (p ≡ parent_r) × (f ≡ name_a)
unfolding escape
slot_behind [] p rest h = absurd (omega (arith, heads h))
slot_behind (c ∷ []) p rest h = elim (Bool-cases (c == 39)) [
  | inl quote ↦ absurd (omega (arith, heads (rw quote at h)))
  | inr other ↦
      let g = rw other at h in
      (parent_behind p rest (append_cancel_left and_parent _ _ (tails g)), rw (heads g) refl)
]
slot_behind (c ∷ d ∷ f) p rest h = elim (Bool-cases (c == 39)) [
  | inl quote ↦ absurd (omega (arith, heads (rw quote at h)))
  | inr other ↦ elim (Bool-cases (d == 39)) [
    | inl quote2 ↦ absurd (omega (arith, heads (tails (rw (other, quote2) at h))))
    | inr other2 ↦ absurd (ground (arith, other2, heads (tails (rw (other, other2) at h))))
  ]
]

slot_names : (p f : Bytes) → is_slot p f ≡ true → (p ≡ parent_r) × (f ≡ name_a)
slot_names p f h =
    ((bytes_eq_iff p parent_r).0 (ground (arith, h)), (bytes_eq_iff f name_a).0 (ground (arith, h)))

-- The query for a name in a folder, up to what stands behind the folder.
abbrev query_with : Bytes → Bytes → Bytes → Bytes
query_with rest p f = name_is ++ (escape f ++ (and_parent ++ (p ++ rest)))

query_with-slot :
    (rest p f : Bytes)
    → bytes_eq (query_with rest p f) (query_with rest parent_r name_a) ≡ is_slot p f
unfolding escape
query_with-slot rest p f =
    elim (Bool-cases (bytes_eq (query_with rest p f) (query_with rest parent_r name_a))) [
      | inl same ↦
          let (there, named) = slot_behind f p rest (
            append_cancel_left name_is _ _
              ((bytes_eq_iff (query_with rest p f) (query_with rest parent_r name_a)).0 same)) in
          same ∙ rw (there, named, bytes_eq_refl parent_r, bytes_eq_refl name_a) refl
      | inr other ↦ elim (Bool-cases (is_slot p f)) [
        | inr off ↦ other ∙ sym off
        | inl slot ↦
            let (there, named) = slot_names p f slot in
            absurd (
              apart (
                sym (bytes_eq_refl (query_with rest parent_r name_a))
                ∙ ap (λ x. bytes_eq (query_with rest x name_a) (query_with rest parent_r name_a))
                    (sym there)
                ∙ ap (λ x. bytes_eq (query_with rest p x) (query_with rest parent_r name_a))
                    (sym named)
                ∙ other))
      ]
    ]
  where
    apart : true ≢ false
    apart h = cc

slot_redis : (p f : Bytes) (w : World slot_env) → (slot_create p f w).1.redis ≡ w.redis
slot_redis p f w = elim (Bool-cases (is_slot p f)) [
  | inl slot ↦ rw slot refl
  | inr off ↦ rw off refl
]

module _ (query : Bytes → Bytes → Bytes) (rest : Bytes)
    (shape : (p f : Bytes) → query p f ≡ query_with rest p f) where
  listed_slot :
      (p f : Bytes) (w : World slot_env)
      → slot_list query (query p f) w ≡ (ok (slot_ids w.outside p f), w)
  listed_slot p f w = rw (shape p f, shape parent_r name_a, query_with-slot rest p f) refl

  as_listed :
      (p f : Bytes) (w v : World slot_env) (is : List Bytes)
      → slot_list query (query p f) w ≡ (ok is, v)
      → slot_ids w.outside p f ≡ is
  as_listed p f w v is h = same (slot_ids w.outside p f) is w v (sym (listed_slot p f w) ∙ h)
    where
      gave : List Bytes → World slot_env → Result (List Bytes) × World slot_env
      gave is w = (ok is, w)

      same : (is js : List Bytes) (w v : World slot_env) → gave is w ≡ gave js v → is ≡ js
      same is js w v h = cc

  slot_adds :
      (p f q g : Bytes) (w : World slot_env)
      → (slot_ids (slot_create p f w).1.outside q g ≡ slot_ids w.outside q g)
        ⊎ ((q ≡ p)
            × (g ≡ f)
            × ((id : Bytes) × (slot_ids (slot_create p f w).1.outside q g
                  ≡ id ∷ slot_ids w.outside q g)))
  slot_adds p f q g w = elim (Bool-cases (is_slot p f)) [
    | inr off ↦ rw off (inl refl)
    | inl slot ↦ elim (Bool-cases (is_slot q g)) [
      | inr other ↦ inl (rw (slot, other) refl)
      | inl slot2 ↦
          let (there, named) = slot_names p f slot in
          let (there2, named2) = slot_names q g slot2 in
          inr
            (there2 ∙ sym there, named2 ∙ sym named, (length w.outside ∷ [], rw (slot, slot2) refl))
    ]
  ]

  slot_created :
      (p f id : Bytes) (w v : World slot_env)
      → slot_create p f w ≡ (ok id, v)
      → Memᴰ id (slot_ids v.outside p f)
  slot_created p f id w v h = elim (Bool-cases (is_slot p f)) [
    | inr off ↦ absurd (refused (rw off at h))
    | inl slot ↦
        let (same, now_there) =
          made (length w.outside ∷ []) id
            (record w { outside = (length w.outside ∷ []) ∷ w.outside }) v (rw slot at h) in
        rw (slot, sym now_there) (Memᴰ.head (sym same))
  ]
    where
      gave : Result Bytes → World slot_env → Result Bytes × World slot_env
      gave r w = (r, w)

      refused : gave (err io) w ≢ gave (ok id) v
      refused h = cc

      made :
          (i j : Bytes) (u v : World slot_env)
          → gave (ok i) u ≡ gave (ok j) v
          → (i ≡ j) × (u.outside ≡ v.outside)
      made i j u v h = (cc, ap (λ (x : Result Bytes × World slot_env). x.1.outside) h)

  abbrev slot_shelf : {A : Type 0} → Shelf A (λ p f. slot_list query (query p f)) (λ a. slot_create)
  slot_shelf = record {
    ids = slot_ids;
    listed = λ p f w v is plain h x. (
      subst (λ (k : List Bytes). Memᴰ x k) (sym (as_listed p f w v is h)),
      subst (λ (k : List Bytes). Memᴰ x k) (as_listed p f w v is h),
    );
    list_keeps = λ p f q g w. refl;
    list_redis = λ p f w. refl;
    create_adds = λ a p f q g w. slot_adds p f q g w;
    created = λ a p f id w v h. slot_created p f id w v h;
    create_redis = λ a p f w. slot_redis p f w;
  }

folder_shape :
    (p f : Bytes)
    → folder_query p f
      ≡ query_with (in_parents ++ (mime_is ++ (folder_mime ++ and_not_trashed))) p f
unfolding folder_query
folder_shape p f = refl

file_shape : (p f : Bytes) → file_query p f ≡ query_with (in_parents ++ not_trashed) p f
unfolding file_query
file_shape p f = refl

abbrev slot_folders : Folders (slot_drive folder_query) 1
slot_folders = slot_shelf folder_query _ folder_shape

abbrev slot_files : Files (slot_drive file_query) 1
slot_files = slot_shelf file_query _ file_shape

a-Plain : Plain name_a
a-Plain = ground arith

-- Three runs of Upload of one name, over an empty folder.
upload_again_example :
    let (r, v) = upload (slot_drive file_query) 1 parent_r name_a [] (b'z' ∷ []) (
      upload_tries
        (slot_drive file_query)
        1
        parent_r
        name_a
        (([], b'x' ∷ []) ∷ ([], b'y' ∷ []) ∷ [])
        empty_slot) in
    ((q g : Bytes) → OneMade (slot_ids [] q g) (slot_ids v.outside q g))
    × ((id : Bytes) → r ≡ ok id → Memᴰ id (slot_ids v.outside parent_r name_a))
upload_again_example =
    upload_again (slot_drive file_query) 1 slot_files parent_r name_a [] (b'z' ∷ [])
      (([], b'x' ∷ []) ∷ ([], b'y' ∷ []) ∷ []) empty_slot a-Plain

abbrev slot_uploading : UploadConfig slot_env
slot_uploading = record {
  drive = slot_drive folder_query;
  aead = uploading.aead;
  encryption_key = uploading.encryption_key;
  data_dir = [];
  root_folder_id = [];
  root_path = [];
  unicode = uploading.unicode;
  calendar = uploading.calendar;
  json = uploading.json;
  join = uploading.join;
  words = uploading.words;
}

walk_folders_lem_example :
    let (r, v) = walk_folders slot_uploading 1 parent_r [] (name_a ∷ []) empty_slot in
    ((q g : Bytes) → OneMade (slot_ids [] q g) (slot_ids v.outside q g))
    × ((id : Bytes)
        → r ≡ ok id
        → Reaches slot_uploading 1 slot_folders empty_slot.redis v.outside [] parent_r
            (name_a ∷ [])
            id)
unfolding paths
walk_folders_lem_example =
    walk_folders_lem slot_uploading 1 slot_folders [] parent_r (name_a ∷ []) empty_slot
      (a-Plain, tt) (tt, tt)
