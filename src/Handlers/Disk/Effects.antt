-- ===== src/Handlers/Disk/Effects.antt =====
-- What os.MkdirAll and os.WriteFile leave in the files of the data directory, as the handlers of
-- internal/handler use them.
use dist_task_queue.Prelude.{
  ℕ, ◌≤◌, ◌≡◌, ◌≢◌, refl, ap, ◌∙◌, Bool, true, false, ◌&&◌, ◌||◌, not, Option, some, List, [], ◌∷◌,
  ◌++◌, arith,
}
use dist_task_queue.Prelude.Tests.{Bytes, ◌==◌, if◌then◌else◌}
use dist_task_queue.Prelude.Lists.{length, All, All-append, length-append}
use dist_task_queue.Services.{Env, IsName, path_eq}
use dist_task_queue.World.{World, ok, and_then_ok, ◌>>◌}
use dist_task_queue.Handlers.Disk.{write_file, make_dirs, done_or_error}

abbrev pub PlainByte : ℕ → Type 0
PlainByte c = (c ≢ 0) × (c ≢ b'/')

abbrev pub all_plain : Bytes → Bool
all_plain [] = true
all_plain (c ∷ s) = not (c == 0 || c == b'/') && all_plain s

all_plain_lem : (s : Bytes) → all_plain s ≡ true → All PlainByte s
all_plain_lem [] h = tt
all_plain_lem (c ∷ s) h = (ground (arith, h), all_plain_lem s (ground (arith, h)))

-- A text of plain bytes that is longer than "..".
pub long-IsName : (s : Bytes) → All PlainByte s → 3 ≤ length s → IsName s
long-IsName s h l = (
  λ x. omega (arith, ap length x),
  λ x. omega (arith, ap length x),
  λ x. omega (arith, ap length x),
  h,
)

pub word-IsName : (s : Bytes) → all_plain s ≡ true → 3 ≤ length s → IsName s
word-IsName s h = long-IsName s (all_plain_lem s h)

pub suffixed-IsName : (s t : Bytes) → IsName s → all_plain t ≡ true → 3 ≤ length t → IsName (s ++ t)
suffixed-IsName s t (_, _, _, h) ht l =
    long-IsName (s ++ t) (All-append PlainByte s t h (all_plain_lem t ht))
      (omega (arith, length-append s t, l))

-- A path that is looked up where a file was put.
abbrev pub put : List Bytes → Bytes → Option Bytes → List Bytes → Option Bytes
put p content old q = if path_eq p q then some content else old

written : (b : Bool) → done_or_error b ≡ ok tt → b ≡ true
written true h = refl
written false h = cc

module _ {e : Env} (root : Bytes) where
  -- The files under the root, by their paths.
  abbrev pub look : World e → List Bytes → Option Bytes
  look w q = e.disk.read root q w.disk

  pub look-make_dirs : (d q : List Bytes) (w : World e) → look (make_dirs root d w).1 q ≡ look w q
  unfolding make_dirs
  look-make_dirs d q w = e.disk.read-mkdir_all root d q w.disk

  pub look-write_file :
      (p q : List Bytes) (content : Bytes) (w : World e)
      → All IsName p
      → All IsName q
      → (write_file root p content w).0 ≡ ok tt
      → look (write_file root p content w).1 q ≡ put p content (look w q) q
  unfolding write_file
  look-write_file p q content w hp hq h =
      e.disk.read-write root p q content w.disk hp hq (written _ h)

  -- A directory made and a file written in it.
  pub look_saved :
      (d p q : List Bytes) (content : Bytes) (w : World e)
      → All IsName p
      → All IsName q
      → ((make_dirs root d >> write_file root p content) w).0 ≡ ok tt
      → look ((make_dirs root d >> write_file root p content) w).1 q ≡ put p content (look w q) q
  look_saved d p q content w hp hq h =
      let (u, made, behind) =
        and_then_ok (λ u. write_file root p content) (make_dirs root d w) tt h in
      rw behind (
        look-write_file p q content (make_dirs root d w).1 hp hq (rw behind at h)
        ∙ ap (λ old. put p content old q) (look-make_dirs d q w))
