-- ===== src/Drive/Shelf.antt =====
-- EnsureFolder and Upload of internal/drive/client.go against what Drive holds.
use mathlib.Core.List.Memᴰ
use dist_task_queue.Prelude.{
  ◌≡◌, ◌≢◌, ◌⊎◌, inl, inr, refl, sym, ap, subst, ◌∙◌, List, [], ◌∷◌, Memᴰ,
}
use dist_task_queue.Prelude.Tests.{Bytes}
use dist_task_queue.Prelude.Lists.{All}
use dist_task_queue.Services.{Env}
use dist_task_queue.World.{World, M, Result, ok, err, and_then}
use dist_task_queue.Store.Types.{Uuid}
use dist_task_queue.Drive.{
  Drive, first_or, ensure_folder, upload, folder_query, file_query, folder_mime,
}

-- A name that `escape` makes a right query of.
abbrev pub Plain : Bytes → Type 0
Plain = All λ c. c ≢ 92

-- What a kind of entry, listed by parent and name, is in Drive. `ids` are the entries outside the
-- trash; there may be any number with one name, since a creation never looks for another one. A
-- listing gives, in any order, the entries with the name in the parent, and changes none. A creation,
-- failed or not, adds one entry at most, and with an answer it has added the entry of the answer.
-- Both leave Redis alone.
pub record Shelf {e : Env} (A : Type 0) (list : Bytes → Bytes → M e (List Bytes))
    (create : A → Bytes → Bytes → M e Bytes) : Type 0 where
  pub ids : e.Outside → Bytes → Bytes → List Bytes
  pub listed :
      (p f : Bytes) (w v : World e) (is : List Bytes)
      → Plain f
      → list p f w ≡ (ok is, v)
      → (x : Bytes)
      → (Memᴰ x is → Memᴰ x (ids w.outside p f)) × (Memᴰ x (ids w.outside p f) → Memᴰ x is)
  pub list_keeps :
      (p f q g : Bytes) (w : World e) → ids (list p f w).1.outside q g ≡ ids w.outside q g
  pub list_redis : (p f : Bytes) (w : World e) → (list p f w).1.redis ≡ w.redis
  pub create_adds :
      (a : A) (p f q g : Bytes) (w : World e)
      → (ids (create a p f w).1.outside q g ≡ ids w.outside q g)
        ⊎ ((q ≡ p)
            × (g ≡ f)
            × ((id : Bytes) × (ids (create a p f w).1.outside q g ≡ id ∷ ids w.outside q g)))
  pub created :
      (a : A) (p f id : Bytes) (w v : World e)
      → create a p f w ≡ (ok id, v)
      → Memᴰ id (ids v.outside p f)
  pub create_redis : (a : A) (p f : Bytes) (w : World e) → (create a p f w).1.redis ≡ w.redis

-- The same entries, or a first one where there was none.
abbrev pub OneMade : List Bytes → List Bytes → Type 0
OneMade is js = (js ≡ is) ⊎ ((is ≡ []) × ((id : Bytes) × (js ≡ id ∷ [])))

pub OneMade-then : (is js ks : List Bytes) → OneMade is js → OneMade js ks → OneMade is ks
OneMade-then is js ks (inl same) (inl same2) = inl (same2 ∙ same)
OneMade-then is js ks (inl same) (inr (none_there, (id, one))) =
    inr (sym same ∙ none_there, (id, one))
OneMade-then is js ks (inr (none_there, (id, one))) (inl same) = inr (none_there, (id, same ∙ one))
OneMade-then is js ks (inr (none_there, (id, one))) (inr (empty, (x, other))) =
    absurd (full (sym one ∙ empty))
  where
    full : id ∷ [] ≢ []
    full h = cc

one_id : (i id : Bytes) → ok i ≡ ok id → i ≡ id
one_id i id r = cc

no_entry : (is : List Bytes) → ((x : Bytes) → Memᴰ x is → Memᴰ x []) → is ≡ []
no_entry [] h = refl
no_entry (i ∷ is) h = absurd (Memᴰ.not-nil (h i (Memᴰ.head refl)))

module _ {e : Env} (d : Drive e) {A : Type 0} {list : Bytes → Bytes → M e (List Bytes)}
    {create : A → Bytes → Bytes → M e Bytes} (s : Shelf A list create) where
  -- The first listed entry, or a new one where none is listed.
  abbrev pub obtain : A → Bytes → Bytes → M e Bytes
  obtain a p f w = and_then (first_or d (create a p f)) (list p f w)

  -- Nothing is doubled, and an answer is an entry with the name.
  abbrev pub Obtained : Bytes → Bytes → World e → Result Bytes × World e → Type 0
  Obtained p f w (r, v) =
      ((q g : Bytes) → OneMade (s.ids w.outside q g) (s.ids v.outside q g))
      × ((id : Bytes) → r ≡ ok id → Memᴰ id (s.ids v.outside p f))
      × (v.redis ≡ w.redis)

  new_entry :
      (a : A) (p f : Bytes) (w u : World e)
      → ((q g : Bytes) → s.ids u.outside q g ≡ s.ids w.outside q g)
      → u.redis ≡ w.redis
      → s.ids w.outside p f ≡ []
      → Obtained p f w (create a p f u)
  new_entry a p f w u kept same empty = (
    λ q g. elim (s.create_adds a p f q g u) [
      | inl old ↦ inl (old ∙ kept q g)
      | inr (eq, eg, (id, more)) ↦
          let there : s.ids w.outside q g ≡ [] =
            ap (λ x. s.ids w.outside x g) eq ∙ ap (s.ids w.outside p) eg ∙ empty in
          inr (there, (id, more ∙ ap (◌∷◌ id) (kept q g ∙ there)))
    ],
    λ id r. s.created a p f id u (create a p f u).1 (ap (λ x. (x, (create a p f u).1)) r),
    s.create_redis a p f u ∙ same,
  )

  pub obtain-Obtained :
      (a : A) (p f : Bytes) (w : World e) → Plain f → Obtained p f w (obtain a p f w)
  obtain-Obtained a p f w plain = by_list (list p f w).0 (list p f w).1 refl
    where
      kept :
          (r : Result (List Bytes)) (u : World e)
          → list p f w ≡ (r, u)
          → (q g : Bytes) → s.ids u.outside q g ≡ s.ids w.outside q g
      kept r u h q g =
          ap (λ (x : Result (List Bytes) × World e). s.ids x.1.outside q g) (sym h)
          ∙ s.list_keeps p f q g w

      same : (r : Result (List Bytes)) (u : World e) → list p f w ≡ (r, u) → u.redis ≡ w.redis
      same r u h =
          ap (λ (x : Result (List Bytes) × World e). x.1.redis) (sym h) ∙ s.list_redis p f w

      by_list :
          (r : Result (List Bytes)) (u : World e)
          → list p f w ≡ (r, u)
          → Obtained p f w (obtain a p f w)
      by_list (err x) u h = rw h (λ q g. inl (kept (err x) u h q g), λ id r. cc, same (err x) u h)
      by_list (ok []) u h = rw h (
          new_entry a p f w u (kept (ok []) u h) (same (ok []) u h)
            (no_entry (s.ids w.outside p f) (λ x. (s.listed p f w u [] plain h x).1)))
      by_list (ok (i ∷ is)) u h = rw h (
        λ q g. inl (kept (ok (i ∷ is)) u h q g),
        λ id r.
            subst (λ (x : Bytes). Memᴰ x (s.ids u.outside p f)) (one_id i id r)
              (subst (λ (k : List Bytes). Memᴰ i k) (sym (kept (ok (i ∷ is)) u h p f))
                ((s.listed p f w u (i ∷ is) plain h i).0 (Memᴰ.head refl))),
        same (ok (i ∷ is)) u h,
      )

-- The folders of a user, and the entries that Upload looks for.
abbrev pub Folders : {e : Env} → Drive e → Uuid → Type 0
Folders d user =
    Shelf (Unit {0}) (λ p f. d.list_files user (folder_query p f))
      (λ u p f. d.create_folder user f p folder_mime)

abbrev pub Files : {e : Env} → Drive e → Uuid → Type 0
Files d user =
    Shelf (Bytes × Bytes) (λ p f. d.list_files user (file_query p f))
      (λ a p f. d.create_file user f p a.0 a.1)

module _ {e : Env} (d : Drive e) (user : Uuid) where
  pub ensure_folder-Obtained :
      (s : Folders d user) (p f : Bytes) (w : World e)
      → Plain f
      → Obtained d s p f w (ensure_folder d user p f w)
  unfolding ensure_folder
  ensure_folder-Obtained s p f w plain = obtain-Obtained d s tt p f w plain

  -- Upload, tried again and again with contents of one name, whatever it answers.
  unfoldable pub upload_tries : Bytes → Bytes → List (Bytes × Bytes) → World e → World e
  upload_tries p f [] w = w
  upload_tries p f ((media, content) ∷ more) w =
      upload_tries p f more (upload d user p f media content w).1

  module _ (s : Files d user) where
    tries-OneMade :
        (p f : Bytes) (tries : List (Bytes × Bytes)) (w : World e)
        → Plain f
        → (q g : Bytes)
        → OneMade (s.ids w.outside q g) (s.ids (upload_tries p f tries w).outside q g)
    unfolding upload_tries upload
    tries-OneMade p f [] w plain q g = inl refl
    tries-OneMade p f ((media, content) ∷ more) w plain q g =
        OneMade-then _ _ _ ((obtain-Obtained d s (media, content) p f w plain).0 q g)
          (tries-OneMade p f more (upload d user p f media content w).1 plain q g)

    -- Where a listing gives what Drive holds, and the name has no backslash: behind any number of tries
    -- of Upload with one parent and name, failed or not and with any contents, every parent and name has
    -- the files it had before, or its first one where it had none; and where one more Upload answers an
    -- id, a file with that name and parent has it.
    pub upload_again :
        (p f media content : Bytes) (tries : List (Bytes × Bytes)) (w : World e)
        → Plain f
        → let (r, v) = upload d user p f media content (upload_tries p f tries w) in
          ((q g : Bytes) → OneMade (s.ids w.outside q g) (s.ids v.outside q g))
          × ((id : Bytes) → r ≡ ok id → Memᴰ id (s.ids v.outside p f))
    unfolding upload
    upload_again p f media content tries w plain =
        let v = upload_tries p f tries w in
        let (made, found, same) = obtain-Obtained d s (media, content) p f v plain in
        (λ q g. OneMade-then _ _ _ (tries-OneMade p f tries w plain q g) (made q g), found)
