-- ===== src/Drive.antt =====
-- internal/drive/client.go and internal/drive/cache.go.
pub mod Words
pub mod Shelf
use dist_task_queue.Prelude.{ℕ, Bool, true, false, Option, none, some, List, [], ◌∷◌, ◌++◌}
use dist_task_queue.Prelude.Tests.{Bytes, ◌==◌, if◌then◌else◌}
use dist_task_queue.Services.{Env}
use dist_task_queue.World.{World, M, Result, ok, err, and_then}
use dist_task_queue.Store.Types.{Uuid, Time}
use dist_task_queue.Queue.{redis_call}
use dist_task_queue.Oauth.{Aead, Token, load_token, google}
pub use dist_task_queue.Drive.Words.{folder_mime, cache_prefix}
use dist_task_queue.Drive.Words.{
  name_is, and_parent, in_parents, mime_is, and_not_trashed, not_trashed,
}

-- The requests of google.golang.org/api/drive/v3, over the HTTP client of oauth2 that refreshes and
-- saves the user's token, so a request takes the world along. `new_service` is TokenSource and
-- NewService; a listing gives the ids of its files, and a creation the id of the new one.
pub record Drive (e : Env) : Type 0 where
  pub new_service : Uuid → Token → M e (Unit {0})
  pub list_files : Uuid → Bytes → M e (List Bytes)
  -- Name, Parents, MimeType
  pub create_folder : Uuid → Bytes → Bytes → Bytes → M e Bytes
  -- Name, Parents, the content type and the content
  pub create_file : Uuid → Bytes → Bytes → Bytes → Bytes → M e Bytes

unfoldable pub escape : Bytes → Bytes
escape [] = []
escape (c ∷ s) = let rest = escape s in if c == 39 then 92 ∷ 39 ∷ rest else c ∷ rest

unfoldable pub folder_query : Bytes → Bytes → Bytes
folder_query parent name =
    name_is
    ++ (escape name
        ++ (and_parent
            ++ (parent ++ (in_parents ++ (mime_is ++ (folder_mime ++ and_not_trashed))))))

unfoldable pub file_query : Bytes → Bytes → Bytes
file_query parent name =
    name_is ++ (escape name ++ (and_parent ++ (parent ++ (in_parents ++ not_trashed))))

module _ {e : Env} (d : Drive e) where
  unfoldable pub new_client : Aead → Uuid → Bytes → M e (Unit {0})
  new_client aead user key w =
      and_then (λ t v. d.new_service user t v) (load_token aead e user key google w)

  -- `if len(resp.Files) > 0 { return resp.Files[0].Id, nil }`, or what comes behind it.
  abbrev pub first_or : M e Bytes → List Bytes → M e Bytes
  first_or create [] w = create w
  first_or create (id ∷ ids) w = (ok id, w)

  unfoldable pub ensure_folder : Uuid → Bytes → Bytes → M e Bytes
  ensure_folder user parent name w =
      and_then (first_or (d.create_folder user name parent folder_mime))
        (d.list_files user (folder_query parent name) w)

  unfoldable pub upload : Uuid → Bytes → Bytes → Bytes → Bytes → M e Bytes
  upload user parent name content_type content w =
      and_then (first_or (d.create_file user name parent content_type content))
        (d.list_files user (file_query parent name) w)

module _ (e : Env) where
  unfoldable pub cache_key : Uuid → Bytes → Bytes
  cache_key user path = cache_prefix ++ (e.format_uuid user ++ b':' ∷ path)

  -- FolderCache.Get; a missing key is no error.
  unfoldable pub cache_get : Uuid → Bytes → M e (Option Bytes)
  cache_get user path = redis_call e λ now s. (e.redis.get (cache_key user path) now s, s)

  -- FolderCache.Set
  unfoldable pub cache_set : Uuid → Bytes → Bytes → Time → M e (Unit {0})
  cache_set user path id ttl =
      redis_call e λ now s. (tt, e.redis.set (cache_key user path) id ttl now s)
