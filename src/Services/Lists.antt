-- ===== src/Services/Lists.antt =====
-- What LMOVE from the right end of a list does to the two lists.
use mathlib.Core.List.{Perm, perm_append_comm}
use mathlib.Core.List.Perm
use dist_task_queue.Prelude.{◌≡◌, ◌≢◌, List, [], ◌∷◌, ◌++◌, append_assoc, inl, inr}
use dist_task_queue.Prelude.Tests.{Bytes, bytes_eq_refl, ne→bytes_eq}
use dist_task_queue.Prelude.Lists.{List-snoc}
use dist_task_queue.Services.{Redis, Side, left, right, put}

module _ (r : Redis) (d : Side) (src dst : Bytes) (ne : src ≢ dst) where
  module _ (x : Bytes) (xs : List Bytes) (s : r.State) (h : r.lrange src s ≡ xs ++ x ∷ []) where
    pub lmove_source : r.lrange src (r.lmove d src dst s).1 ≡ xs
    lmove_source = rw (r.lrange-lmove d src dst x xs src s h ne, bytes_eq_refl src)

    pub lmove_target : r.lrange dst (r.lmove d src dst s).1 ≡ put d x (r.lrange dst s)
    lmove_target =
        rw (r.lrange-lmove d src dst x xs dst s h ne, ne→bytes_eq src dst ne, bytes_eq_refl dst)

  put_perm : (x : Bytes) (xs ys : List Bytes) → Perm (xs ++ put d x ys) ((xs ++ x ∷ []) ++ ys)
  put_perm x xs ys = rw append_assoc (Perm.append_left xs (put_perm_cons d))
    where
      put_perm_cons : (d' : Side) → Perm (put d' x ys) (x ∷ ys)
      put_perm_cons left = Perm.refl _
      put_perm_cons right = perm_append_comm ys (x ∷ [])

  -- Nothing is lost or made up, whether or not there was an element to move.
  pub lmove_perm :
      (s : r.State)
      → Perm
          (r.lrange src (r.lmove d src dst s).1 ++ r.lrange dst (r.lmove d src dst s).1)
          (r.lrange src s ++ r.lrange dst s)
  lmove_perm s = elim (List-snoc (r.lrange src s)) [
    | inl h ↦ rw (r.lmove_empty d src dst s h) (Perm.refl _)
    | inr (xs, x, h) ↦
        rw (lmove_source x xs s h, lmove_target x xs s h, h) (put_perm x xs (r.lrange dst s))
  ]
