-- ===== src/Handlers/Fetch.antt =====
-- internal/handler/fetch.go.
use dist_task_queue.Prelude.{[], ◌∷◌}
use dist_task_queue.Prelude.Tests.{Bytes}
use dist_task_queue.Services.{Env}
use dist_task_queue.World.{M, Error, ◌>>=◌, ◌>>◌, pure}
use dist_task_queue.Store.Types.{Uuid}
use dist_task_queue.Gmail.{Gmail, fetch_message}
use dist_task_queue.Worker.Process.{Handler}
use dist_task_queue.Handlers.Words.{mime_dir, render_stage}
use dist_task_queue.Handlers.Disk.{write_file, make_dirs, answer, required, mime_path}

-- FetchConfig; its store, key, OAuth2 and endpoint are in the client.
pub record FetchConfig (e : Env) : Type 0 where
  pub gmail : Gmail e
  pub data_dir : Bytes
  -- err.Error()
  pub words : Error → Bytes

module _ {e : Env} (c : FetchConfig e) where
  unfoldable pub fetch_raw : Uuid → Bytes → M e Bytes
  fetch_raw user message = c.gmail.open_client user >> fetch_message c.gmail user message

  unfoldable pub save_raw : Uuid → Bytes → M e Bytes
  save_raw id raw =
      make_dirs c.data_dir (mime_dir ∷ [])
      >> write_file c.data_dir (mime_path e id) raw
      >> pure render_stage

  unfoldable pub fetch : Handler e
  fetch job w = answer c.words (
      required job.user_id
        (λ user.
          required job.gmail_message_id (λ message. fetch_raw user message >>= save_raw job.id))
        w)
