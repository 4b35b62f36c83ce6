-- ===== src/Handlers/Invariant.antt =====
-- The invariant of the job table under the handlers of internal/handler, and under the workers of
-- cmd/worker that run them.
use dist_task_queue.Prelude.{ℕ, ◌/◌, inl, inr, Bool, Option, none, some, List, [], ◌∷◌, ◌++◌}
use dist_task_queue.Prelude.Tests.{Bytes, ◌==◌, Bool-cases}
use dist_task_queue.Services.{Env}
use dist_task_queue.World.{
  World, M, Result, ok, err, Error, and_then_keeps, attempt, ◌>>=◌, ◌>>◌, pure,
}
use dist_task_queue.Store.Types.{Uuid, Job}
use dist_task_queue.Store.Accounts.{get_oauth_token}
use dist_task_queue.Store.Invariant.{InvW, run-Inv}
use dist_task_queue.Worker.Process.{Config}
use dist_task_queue.Worker.Process
use dist_task_queue.Worker.Invariant.{redis_call-InvW, run-InvW}
use dist_task_queue.Oauth.{Token, load_token, google}
use dist_task_queue.Gmail.{fetch_message}
use dist_task_queue.Gmail.Keeps.{Keeps}
use dist_task_queue.Drive.{
  Drive, new_client, ensure_folder, upload, first_or, cache_get, cache_set, folder_mime,
}
use dist_task_queue.Handlers.Mime.{Attachment, ParsedMessage}
use dist_task_queue.Handlers.Disk.{
  or_text_error, read_file, write_file, make_dirs, answer, required, mime_path, pdf_path, meta_path,
  attachment_path,
}
use dist_task_queue.Handlers.Words.{
  convert_path, octet_stream, email_pdf, application_pdf, my_drive,
}
use dist_task_queue.Handlers.Paths.{or_text}
use dist_task_queue.Handlers.Fetch.{FetchConfig, fetch, fetch_raw, save_raw}
use dist_task_queue.Handlers.Render.{
  RenderConfig, RenderMeta, parsed, render, render_parsed, render_html, read_pdf,
  build_html_wrapper, write_attachments, save_attachments, save_pdf, save_meta, meta_of,
}
use dist_task_queue.Handlers.Upload.{
  UploadConfig, process_upload, load_meta, or_parse_error, upload_meta, walk_folders, enter_folder,
  or_ensure, upload_pdf, upload_attachments, cache_ttl, folders_of,
}

module _ {e : Env} where
  -- A program that keeps the invariant of the tables.
  abbrev pub Safe : {A : Type 0} → M e A → Type 0
  Safe m = (w : World e) → InvW e w → InvW e (m w).1

module _ {e : Env} where
  seq-Safe :
      {A B : Type 0} (m : M e A) (f : A → M e B) → Safe m → ((a : A) → Safe (f a)) → Safe (m >>= f)
  seq-Safe m f hm hf w v = and_then_keeps (InvW e) f (m w) (hm w v) hf

  then-Safe : {B : Type 0} (m : M e (Unit {0})) (k : M e B) → Safe m → Safe k → Safe (m >> k)
  then-Safe m k hm hk w v = and_then_keeps (InvW e) (λ u. k) (m w) (hm w v) (λ u. hk)

  or_text_error-Safe : (o : Option Bytes) → Safe {e = e} (or_text_error o)
  or_text_error-Safe none w v = v
  or_text_error-Safe (some s) w v = v

  read_file-Safe : (root : Bytes) (p : List Bytes) → Safe {e = e} (read_file root p)
  unfolding read_file
  read_file-Safe root p w v = or_text_error-Safe (e.disk.read root p w.disk) w v

  save-Safe :
      (root : Bytes) (d p : List Bytes) (b : Bytes)
      → Safe {e = e} (make_dirs root d >> write_file root p b)
  unfolding make_dirs write_file
  save-Safe root d p b = then-Safe (make_dirs root d) (write_file root p b) (λ w v. v) (λ w v. v)

  answer-Safe :
      (words : Error → Bytes) (r : Result Bytes × World e) → InvW e r.1 → InvW e (answer words r).1
  answer-Safe words (ok s, w) v = v
  answer-Safe words (err x, w) v = v

  required-Safe :
      {A : Type 0} (o : Option A) (f : A → M e Bytes) → ((a : A) → Safe (f a)) → Safe (required o f)
  required-Safe none f h w v = v
  required-Safe (some a) f h w v = h a w v

module _ {e : Env} (c : FetchConfig e) (k : Keeps c.gmail (InvW e))
    (raw-Safe : (u : Uuid) (id : Bytes) → Safe (c.gmail.get_raw u id)) where
  pub fetch-InvW : (j : Job) (w : World e) → InvW e w → InvW e (fetch c j w).1
  unfolding fetch fetch_raw fetch_message save_raw
  fetch-InvW j w v = answer-Safe c.words _ (
      required-Safe j.user_id _
        (λ user. required-Safe j.gmail_message_id _ (λ message.
          seq-Safe (fetch_raw c user message) (save_raw c j.id)
            (then-Safe (c.gmail.open_client user) (fetch_message c.gmail user message)
              (k.open_client user)
              (λ w v.
                and_then_keeps (InvW e) _ (c.gmail.get_raw user message w)
                  (raw-Safe user message w v) (λ raw v h. h)))
            (λ raw. then-Safe _ (pure _) (save-Safe c.data_dir _ _ raw) (λ w v. v))))
        w v)

module _ {e : Env} (c : RenderConfig e)
    (post-Safe : (url html : Bytes) → Safe (c.post url html)) where
  read_pdf-Safe : (r : ℕ × Option Bytes) → Safe (read_pdf c r)
  read_pdf-Safe (status, b) w v = elim (Bool-cases (status / 100 == 2)) [
    | inl fine ↦ rw fine (or_text_error-Safe b w v)
    | inr wrong ↦ rw wrong v
  ]

  render_html-Safe : (html : Bytes) → Safe (render_html c html)
  unfolding render_html
  render_html-Safe html =
      seq-Safe (c.post (c.pdf_endpoint ++ convert_path) html) (read_pdf c) (post-Safe _ html)
        read_pdf-Safe

  write_attachments-Safe :
      (id : Uuid) (files : List Attachment) (names : List Bytes)
      → Safe (write_attachments c id files names)
  unfolding write_attachments write_file
  write_attachments-Safe id [] names = λ w v. v
  write_attachments-Safe id (a ∷ more) names =
      then-Safe (write_file c.data_dir _ a.content) (write_attachments c id more _) (λ w v. v)
        (write_attachments-Safe id more _)

  save_attachments-Safe : (id : Uuid) (files : List Attachment) → Safe (save_attachments c id files)
  unfolding save_attachments make_dirs
  save_attachments-Safe id [] = write_attachments-Safe id [] []
  save_attachments-Safe id (a ∷ more) =
      then-Safe (make_dirs c.data_dir _) (write_attachments c id (a ∷ more) []) (λ w v. v)
        (write_attachments-Safe id (a ∷ more) [])

  render_parsed-Safe : (j : Job) (p : ParsedMessage) → Safe (render_parsed c j p)
  unfolding render_parsed save_pdf save_meta
  render_parsed-Safe j p =
      seq-Safe (save_attachments c j.id p.attachments) _ (save_attachments-Safe j.id p.attachments)
        (λ names.
          then-Safe _ (pure _)
            (then-Safe _ (save_meta c j.id (meta_of c j p names))
              (seq-Safe (render_html c _) (save_pdf c j.id)
                (render_html-Safe (build_html_wrapper c p)) (save-Safe c.data_dir _ _))
              (seq-Safe _ _ (or_text_error-Safe (c.json.marshal _)) (save-Safe c.data_dir _ _)))
            (λ w v. v))

  pub render-InvW : (j : Job) (w : World e) → InvW e w → InvW e (render c j w).1
  unfolding render
  render-InvW j w v =
      let source = read_file c.data_dir (mime_path e j.id) in
      answer-Safe c.words ((source >>= parsed c >>= render_parsed c j) w) (
        seq-Safe (source >>= parsed c) (render_parsed c j)
          (seq-Safe source (parsed c) (read_file-Safe c.data_dir _) (λ raw w v. v))
          (render_parsed-Safe j) w v)

-- Requests that keep the invariant of the tables.
pub record DriveSafe {e : Env} (d : Drive e) : Type 0 where
  pub new_service : (u : Uuid) (t : Token) → Safe (d.new_service u t)
  pub list_files : (u : Uuid) (q : Bytes) → Safe (d.list_files u q)
  pub create_folder : (u : Uuid) (f p m : Bytes) → Safe (d.create_folder u f p m)
  pub create_file : (u : Uuid) (f p m s : Bytes) → Safe (d.create_file u f p m s)

module _ {e : Env} (c : UploadConfig e) (d : DriveSafe c.drive) where
  first_or-Safe : (m : M e Bytes) → Safe m → (ids : List Bytes) → Safe (first_or c.drive m ids)
  first_or-Safe m h [] = h
  first_or-Safe m h (id ∷ ids) = λ w v. v

  ensure_folder-Safe : (u : Uuid) (p f : Bytes) → Safe (ensure_folder c.drive u p f)
  unfolding ensure_folder
  ensure_folder-Safe u p f =
      seq-Safe (c.drive.list_files u _) _ (d.list_files u _)
        (first_or-Safe _ (d.create_folder u f p folder_mime))

  upload-Safe : (u : Uuid) (p f m s : Bytes) → Safe (upload c.drive u p f m s)
  unfolding upload
  upload-Safe u p f m s =
      seq-Safe (c.drive.list_files u _) _ (d.list_files u _)
        (first_or-Safe _ (d.create_file u f p m s))

  new_client-Safe : (u : Uuid) → Safe (new_client c.drive c.aead u c.encryption_key)
  unfolding new_client load_token get_oauth_token
  new_client-Safe u =
      seq-Safe (load_token c.aead e u c.encryption_key google) _
        (seq-Safe (get_oauth_token e u google) _ (run-Inv e _ (λ t db v. v)) (λ r w v. v))
        (d.new_service u)

  or_ensure-Safe : (m : M e Bytes) → Safe m → (r : Result (Option Bytes)) → Safe (or_ensure c m r)
  or_ensure-Safe m h (ok (some id)) = λ w v. v
  or_ensure-Safe m h (ok none) = h
  or_ensure-Safe m h (err x) = h

  enter_folder-Safe : (u : Uuid) (p path f : Bytes) → Safe (enter_folder c u p path f)
  unfolding enter_folder cache_get cache_set
  enter_folder-Safe u p path f =
      let store : Bytes → M e Bytes =
        λ id. attempt (cache_set e u path id cache_ttl) >>= λ ignored. pure id in
      seq-Safe (attempt (cache_get e u path)) (or_ensure c (ensure_folder c.drive u p f >>= store))
        (redis_call-InvW _)
        (or_ensure-Safe _ (
          seq-Safe (ensure_folder c.drive u p f) store (ensure_folder-Safe u p f) (λ id.
            seq-Safe (attempt (cache_set e u path id cache_ttl)) (λ ignored. pure id)
              (redis_call-InvW _) (λ r w v. v))))

  walk_folders-Safe :
      (u : Uuid) (p path : Bytes) (fs : List Bytes) → Safe (walk_folders c u p path fs)
  unfolding walk_folders
  walk_folders-Safe u p path [] = λ w v. v
  walk_folders-Safe u p path (f ∷ fs) =
      seq-Safe (enter_folder c u p _ f) _ (enter_folder-Safe u p _ f)
        (λ id. walk_folders-Safe u id _ fs)

  upload_attachments-Safe :
      (u : Uuid) (j : Job) (p : Bytes) (names : List Bytes)
      → Safe (upload_attachments c u j p names)
  unfolding upload_attachments
  upload_attachments-Safe u j p [] = λ w v. v
  upload_attachments-Safe u j p (name ∷ names) =
      seq-Safe
        (read_file c.data_dir (attachment_path e j.id name)
          >>= upload c.drive u p name octet_stream)
        (λ id. upload_attachments c u j p names)
        (seq-Safe (read_file c.data_dir (attachment_path e j.id name))
          (upload c.drive u p name octet_stream) (read_file-Safe c.data_dir _)
          (upload-Safe u p name octet_stream))
        (λ id. upload_attachments-Safe u j p names)

  upload_meta-Safe : (u : Uuid) (j : Job) (m : RenderMeta) → Safe (upload_meta c u j m)
  unfolding upload_meta upload_pdf
  upload_meta-Safe u j m =
      let pdf : Bytes → M e Bytes = λ parent.
        read_file c.data_dir (pdf_path e j.id)
        >>= upload c.drive u parent email_pdf application_pdf in
      let rest : Bytes → M e Bytes =
        λ parent. upload_attachments c u j parent m.attachment_names >> pure [] in
      seq-Safe
        (new_client c.drive c.aead u c.encryption_key
          >> walk_folders c u (or_text my_drive c.root_folder_id) [] (folders_of c m))
        (λ parent. pdf parent >>= λ id. rest parent)
        (then-Safe (new_client c.drive c.aead u c.encryption_key)
          (walk_folders c u (or_text my_drive c.root_folder_id) [] (folders_of c m))
          (new_client-Safe u) (walk_folders-Safe u _ [] (folders_of c m)))
        (λ parent.
          seq-Safe (pdf parent) (λ id. rest parent)
            (seq-Safe (read_file c.data_dir (pdf_path e j.id))
              (upload c.drive u parent email_pdf application_pdf) (read_file-Safe c.data_dir _)
              (upload-Safe u parent email_pdf application_pdf))
            (λ id.
              then-Safe (upload_attachments c u j parent m.attachment_names) (pure [])
                (upload_attachments-Safe u j parent m.attachment_names) (λ w v. v)))

  or_parse_error-Safe : (j : Job) (o : Option RenderMeta) → Safe (or_parse_error c j o)
  or_parse_error-Safe j none w v = v
  or_parse_error-Safe j (some m) w v = v

  pub process_upload-InvW : (j : Job) (w : World e) → InvW e w → InvW e (process_upload c j w).1
  unfolding process_upload load_meta
  process_upload-InvW j w v =
      let source = read_file c.data_dir (meta_path e j.id) in
      let parse : Bytes → M e RenderMeta = λ b. or_parse_error c j (c.json.unmarshal b) in
      let whole : Uuid → M e Bytes = λ user. load_meta c j >>= upload_meta c user j in
      answer-Safe c.words (required j.user_id whole w) (
        required-Safe j.user_id whole
          (λ user.
            seq-Safe (load_meta c j) (upload_meta c user j)
              (seq-Safe source parse (read_file-Safe c.data_dir _)
                (λ b. or_parse_error-Safe j (c.json.unmarshal b)))
              (upload_meta-Safe user j))
          w v)

-- Whichever calls fail and however the disk, Gmail, Drive and the service for PDFs answer, as long as
-- their clients keep the invariant of the job table, a worker's run of any number of rounds keeps it,
-- with the handler Fetch, with Render, and with Upload.
pub stage_runs-InvW :
    {e : Env} (c : Config e) (f : FetchConfig e) (r : RenderConfig e) (u : UploadConfig e)
    (rounds : ℕ) (cancelled : ℕ → Bool) (w : World e)
    → Keeps f.gmail (InvW e)
    → ((user : Uuid) (id : Bytes) → Safe (f.gmail.get_raw user id))
    → ((url html : Bytes) → Safe (r.post url html))
    → DriveSafe u.drive
    → InvW e w
    → InvW e (Process.run (record c { handler = fetch f }) rounds cancelled w).1
      × InvW e (Process.run (record c { handler = render r }) rounds cancelled w).1
      × InvW e (Process.run (record c { handler = process_upload u }) rounds cancelled w).1
stage_runs-InvW c f r u rounds cancelled w k raw post d v = (
  run-InvW _ (fetch-InvW f k raw) rounds cancelled w v,
  run-InvW _ (render-InvW r post) rounds cancelled w v,
  run-InvW _ (process_upload-InvW u d) rounds cancelled w v,
)
