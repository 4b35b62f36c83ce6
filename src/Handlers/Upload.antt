-- ===== src/Handlers/Upload.antt =====
-- internal/handler/upload.go.
pub mod Chain
use dist_task_queue.Prelude.{ℕ, Option, none, some, List, [], ◌∷◌, ◌++◌, map}
use dist_task_queue.Prelude.Tests.{Bytes, ◌==◌, if◌then◌else◌}
use dist_task_queue.Services.{Env}
use dist_task_queue.World.{World, M, Result, ok, err, Error, text, attempt, ◌>>=◌, ◌>>◌, pure}
use dist_task_queue.Store.Types.{Uuid, Time, Job}
use dist_task_queue.Worker.Process.{Handler}
use dist_task_queue.Oauth.{Aead}
use dist_task_queue.Drive.{Drive, new_client, ensure_folder, upload, cache_get, cache_set}
use dist_task_queue.Handlers.Paths.{Unicode, is_empty, or_text}
use dist_task_queue.Handlers.Folders.{Calendar, date_tree_folders, email_folder_name}
use dist_task_queue.Handlers.Render.{RenderMeta, MetaJson}
use dist_task_queue.Handlers.Words.{email_pdf, application_pdf, octet_stream, my_drive}
use dist_task_queue.Handlers.Disk.{
  or_text_error, read_file, answer, required, pdf_path, meta_path, attachment_path,
}

-- UploadConfig; its store, OAuth2 and endpoint are in the client. `join` is path.Join of two paths.
pub record UploadConfig (e : Env) : Type 0 where
  pub drive : Drive e
  pub aead : Aead
  pub encryption_key : Bytes
  pub data_dir : Bytes
  pub root_folder_id : Bytes
  pub root_path : Bytes
  pub unicode : Unicode
  pub calendar : Calendar
  pub json : MetaJson
  pub join : Bytes → Bytes → Bytes
  -- err.Error()
  pub words : Error → Bytes

-- A byte in front of the first of some texts.
abbrev pub cons_first : ℕ → List Bytes → List Bytes
cons_first c [] = (c ∷ []) ∷ []
cons_first c (p ∷ ps) = (c ∷ p) ∷ ps

-- strings.Split at "/".
unfoldable pub split_path : Bytes → List Bytes
split_path [] = [] ∷ []
split_path (c ∷ s) = let rest = split_path s in if c == b'/' then [] ∷ rest else cons_first c rest

-- `if p = strings.TrimSpace(p); p != "" { folders = append(folders, p) }`, for trimmed texts.
unfoldable pub name_parts : List Bytes → List Bytes
name_parts [] = []
name_parts ([] ∷ ps) = name_parts ps
name_parts ((c ∷ p) ∷ ps) = (c ∷ p) ∷ name_parts ps

-- 24 * time.Hour
abbrev pub cache_ttl : Time
cache_ttl = 86400000000000

abbrev pub next_path : (Bytes → Bytes → Bytes) → Bytes → Bytes → Bytes
next_path join [] f = f
next_path join (c ∷ p) f = join (c ∷ p) f

module _ {e : Env} (c : UploadConfig e) where
  unfoldable pub root_folders : List Bytes
  root_folders =
      if is_empty c.root_path
      then []
      else name_parts (map c.unicode.trim_space (split_path c.root_path))

  unfoldable pub folders_of : RenderMeta → List Bytes
  folders_of meta =
      root_folders
      ++ (date_tree_folders c.calendar meta.received_at
          ++ email_folder_name c.unicode c.calendar meta.received_at meta.subject meta.from_email
            ∷ [])

  -- A cached id is taken; an error of the cache is a miss.
  abbrev pub or_ensure : M e Bytes → Result (Option Bytes) → M e Bytes
  or_ensure ensure (ok (some id)) w = (ok id, w)
  or_ensure ensure (ok none) w = ensure w
  or_ensure ensure (err x) w = ensure w

  -- One folder of the chain. An error of the cache is dropped.
  unfoldable pub enter_folder : Uuid → Bytes → Bytes → Bytes → M e Bytes
  enter_folder user parent path f =
      attempt (cache_get e user path)
      >>= or_ensure (
          ensure_folder c.drive user parent f >>= λ id.
          attempt (cache_set e user path id cache_ttl) >>= λ ignored. pure id)

  -- The loop over the folders; `path` is pathSoFar.
  unfoldable pub walk_folders : Uuid → Bytes → Bytes → List Bytes → M e Bytes
  walk_folders user parent path [] = pure parent
  walk_folders user parent path (f ∷ fs) =
      enter_folder user parent (next_path c.join path f) f >>= λ id.
      walk_folders user id (next_path c.join path f) fs

  unfoldable pub upload_pdf : Uuid → Job → Bytes → M e Bytes
  upload_pdf user job parent =
      read_file c.data_dir (pdf_path e job.id)
      >>= upload c.drive user parent email_pdf application_pdf

  unfoldable pub upload_attachments : Uuid → Job → Bytes → List Bytes → M e (Unit {0})
  upload_attachments user job parent [] = pure tt
  upload_attachments user job parent (name ∷ names) =
      (read_file c.data_dir (attachment_path e job.id name)
        >>= upload c.drive user parent name octet_stream)
      >>= λ id. upload_attachments user job parent names

  -- The time of a meta without one is the job's.
  abbrev pub dated : Job → RenderMeta → RenderMeta
  dated job meta = record meta {
    received_at = if meta.received_at == 0 then job.created_at else meta.received_at;
  }

  abbrev pub or_parse_error : Job → Option RenderMeta → M e RenderMeta
  or_parse_error job none w = (err (text []), w)
  or_parse_error job (some meta) w = (ok (dated job meta), w)

  unfoldable pub load_meta : Job → M e RenderMeta
  load_meta job =
      read_file c.data_dir (meta_path e job.id) >>= λ b. or_parse_error job (c.json.unmarshal b)

  unfoldable pub upload_meta : Uuid → Job → RenderMeta → M e Bytes
  upload_meta user job meta =
      new_client c.drive c.aead user c.encryption_key
      >> walk_folders user (or_text my_drive c.root_folder_id) [] (folders_of meta)
      >>= λ parent. upload_pdf user job parent >>= λ id.
          upload_attachments user job parent meta.attachment_names >> pure []

  unfoldable pub process_upload : Handler e
  process_upload job w =
      answer c.words (required job.user_id (λ user. load_meta job >>= upload_meta user job) w)
