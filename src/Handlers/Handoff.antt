-- ===== src/Handlers/Handoff.antt =====
-- What Process of internal/handler/upload.go reads behind Process of internal/handler/render.go, and
-- what that reads behind internal/handler/fetch.go.
use dist_task_queue.Prelude.{
  ℕ, ◌≡◌, refl, sym, ap, ◌∙◌, true, Option, none, some, List, [], ◌∷◌, map, arith,
}
use dist_task_queue.Prelude.Tests.{Bytes, bytes_eq, bytes_eq_refl, if◌then◌else◌}
use dist_task_queue.Prelude.Lists.{All}
use dist_task_queue.Services.{Env, IsName, path_eq}
use dist_task_queue.World.{World, Result, ok, err, Error, and_then, and_then_ok, ◌>>◌, pure}
use dist_task_queue.Store.Types.{Uuid, Job}
use dist_task_queue.Handlers.Mime.{Attachment, ParsedMessage, parse_message}
use dist_task_queue.Handlers.Words.{mime_dir, upload_stage, render_stage}
use dist_task_queue.Handlers.Disk.{
  read_file, write_file, make_dirs, answer, mime_path, pdf_path, meta_path, attachment_path,
}
use dist_task_queue.Handlers.Disk.Effects.{look, put, look_saved}
use dist_task_queue.Handlers.Render.{
  RenderConfig, RenderMeta, map_texts, render_html, build_html_wrapper, meta_of, render_parsed,
  render,
}
use dist_task_queue.Handlers.Render.Files.{
  name_of, put_all, look-render_parsed, pdf_path-IsName, mime_path-IsName, meta_path-IsName,
  attachment_path-IsName,
}
use dist_task_queue.Handlers.Fetch.{FetchConfig, fetch, fetch_raw, save_raw}
use dist_task_queue.Handlers.Upload.{UploadConfig, load_meta, dated}

-- A handler that answers with a stage went through.
pub answer_ok :
    {e : Env} (words : Error → Bytes) (r : Result Bytes × World e) (b : ℕ) (next : Bytes)
    → (answer words r).0 ≡ (b ∷ next, none)
    → (r.0 ≡ ok (b ∷ next)) × ((answer words r).1 ≡ r.1)
answer_ok words (ok s, w) b next h = (cc, refl)
answer_ok words (err x, w) b next h = cc

module _ {e : Env} (c : RenderConfig e) where
  -- The contents of the last attachment whose file has the name, or what was there.
  unfoldable pub last_content : Bytes → List Attachment → Option Bytes → Option Bytes
  last_content name [] old = old
  last_content name (a ∷ more) old =
      last_content name more (if bytes_eq (name_of c a) name then some a.content else old)

  path_eq-attachment_path :
      (id : Uuid) (a b : Bytes)
      → path_eq (attachment_path e id a) (attachment_path e id b) ≡ bytes_eq a b
  unfolding path_eq bytes_eq
  path_eq-attachment_path id a b = rw (bytes_eq_refl (e.format_uuid id)) (ground arith)

  put_all-attachment :
      (id : Uuid) (name : Bytes) (files : List Attachment) (old : Option Bytes)
      → put_all c id files old (attachment_path e id name) ≡ last_content name files old
  unfolding put_all last_content
  put_all-attachment id name [] old = refl
  put_all-attachment id name (a ∷ more) old =
      rw (path_eq-attachment_path id (name_of c a) name) (put_all-attachment id name more _)

  put_all_pdf :
      (id : Uuid) (files : List Attachment) (old : Option Bytes)
      → put_all c id files old (pdf_path e id) ≡ old
  unfolding put_all path_eq bytes_eq
  put_all_pdf id [] old = refl
  put_all_pdf id (a ∷ more) old = put_all_pdf id more old

  path_eq_refl : (q : List Bytes) → path_eq q q ≡ true
  unfolding path_eq
  path_eq_refl [] = refl
  path_eq_refl (a ∷ q) = rw (bytes_eq_refl a, path_eq_refl q) refl

  put_same : (q : List Bytes) (b : Bytes) (old : Option Bytes) → put q b old q ≡ some b
  put_same q b old = rw (path_eq_refl q) refl

  put_meta-pdf :
      (id : Uuid) (b : Bytes) (old : Option Bytes)
      → put (meta_path e id) b old (pdf_path e id) ≡ old
  unfolding path_eq bytes_eq
  put_meta-pdf id b old = refl

  put_both-attachment :
      (id : Uuid) (b pdf name : Bytes) (old : Option Bytes)
      → put
          (meta_path e id)
          b
          (put (pdf_path e id) pdf old (attachment_path e id name))
          (attachment_path e id name)
        ≡ old
  unfolding path_eq bytes_eq
  put_both-attachment id b pdf name old = refl

  render_read :
      (job : Job) (w : World e) (raw : Bytes)
      → look c.data_dir w (mime_path e job.id) ≡ some raw
      → render c job w
        ≡ answer c.words (and_then (render_parsed c job) (parse_message c.mail c.unicode raw, w))
  unfolding render read_file
  render_read job w raw there = rw there refl

  read_parsed :
      (job : Job) (w : World e) (raw : Bytes) (p : ParsedMessage)
      → look c.data_dir w (mime_path e job.id) ≡ some raw
      → parse_message c.mail c.unicode raw ≡ ok p
      → render c job w ≡ answer c.words (render_parsed c job p w)
  read_parsed job w raw p there h = render_read job w raw there ∙ rw h refl

module _ {e : Env} (c : RenderConfig e) (up : UploadConfig e) (job : Job)
    (named : IsName (e.format_uuid job.id))
    (post_disk : (url html : Bytes) (v : World e) → (c.post url html v).1.disk ≡ v.disk)
    (same_dir : up.data_dir ≡ c.data_dir) (same_json : up.json ≡ c.json) where
  load_meta_read :
      (b : Bytes) (m : RenderMeta) (v : World e)
      → look c.data_dir v (meta_path e job.id) ≡ some b
      → c.json.unmarshal b ≡ some m
      → load_meta up job v ≡ (ok (dated up job m), v)
  unfolding load_meta read_file
  load_meta_read b m v there h = rw (same_dir, there, same_json, h) refl

  -- Where the id of the job is a file name, the service that makes PDFs leaves the disk alone, both
  -- handlers have the same directory and the same JSON, the job's message is on the disk and is
  -- parsed, and Render answers with the stage "upload": Upload then reads the meta of that message,
  -- with its texts made valid UTF-8 and its time set; the PDF on the disk is one that the service
  -- made for the message's HTML; and the file of every name among the attachments holds the last
  -- attachment that has the name once sanitized, or what it held before.
  pub render-load_meta :
      (w : World e) (raw : Bytes) (p : ParsedMessage) (name : Bytes)
      → look c.data_dir w (mime_path e job.id) ≡ some raw
      → parse_message c.mail c.unicode raw ≡ ok p
      → (render c job w).0 ≡ (upload_stage, none)
      → IsName name
      → let v = (render c job w).1 in
        (load_meta up job v ≡ (
          ok (
              dated up job
                (map_texts c.json.to_valid (meta_of c job p (map (name_of c) p.attachments)))),
          v,
        ))
        × ((pdf : Bytes) × (before : World e) × ((render_html c (build_html_wrapper c p) before).0
              ≡ ok pdf)
            × (look c.data_dir v (pdf_path e job.id) ≡ some pdf))
        × (look c.data_dir v (attachment_path e job.id name)
            ≡ last_content c name p.attachments (look c.data_dir w (attachment_path e job.id name)))
  render-load_meta w raw p name there h done hn =
      let whole = read_parsed c job w raw p there h in
      let (went, behind) = answer_ok c.words (render_parsed c job p w) _ _ (rw whole at done) in
      let (pdf, before, made, b, marshalled, looks) =
        look-render_parsed c job named post_disk p w went in
      let ends = ap (λ r. r.1) whole ∙ behind in
      let found : (q : List Bytes) → All IsName q → look c.data_dir (render c job w).1 q ≡ _ =
        λ q hq. ap (λ v. look c.data_dir v q) ends ∙ looks q hq in
      (
        load_meta_read b _ _
            (found _ (meta_path-IsName e job.id named) ∙ put_same c (meta_path e job.id) b _)
            (c.json.unmarshal-marshal _ b marshalled),
        (
          pdf,
          before,
          made,
          found _ (pdf_path-IsName e job.id named)
              ∙ put_meta-pdf c job.id b _
              ∙ put_same c (pdf_path e job.id) pdf _,
        ),
        found _ (attachment_path-IsName e job.id named name hn)
            ∙ put_both-attachment c job.id b pdf name _
            ∙ put_all-attachment c job.id name p.attachments _,
      )

module _ {e : Env} (f : FetchConfig e) (c : RenderConfig e) (job : Job)
    (named : IsName (e.format_uuid job.id)) (same_dir : f.data_dir ≡ c.data_dir) where
  -- Where the id of the job is a file name, both handlers have the same directory, the job has a user
  -- and a message, and Fetch answers with the stage "render": Gmail gave a text for the message, and
  -- Render, behind it, is what it does with exactly that text: it parses it, and fails where it cannot
  -- be parsed.
  pub fetch-render :
      (user : Uuid) (message : Bytes) (w : World e)
      → job.user_id ≡ some user
      → job.gmail_message_id ≡ some message
      → (fetch f job w).0 ≡ (render_stage, none)
      → (raw : Bytes) × ((fetch_raw f user message w).0 ≡ ok raw)
        × (render c job (fetch f job w).1
            ≡ answer c.words (
                and_then
                  (render_parsed c job)
                  (parse_message c.mail c.unicode raw, (fetch f job w).1)))
  unfolding fetch save_raw
  fetch-render user message w hu hm done =
      let fetched = fetch_raw f user message w in
      let run : fetch f job w ≡ answer f.words (and_then (save_raw f job.id) fetched) =
        rw (fetch, hu, hm) refl in
      let (went, behind) =
        answer_ok f.words (and_then (save_raw f job.id) fetched) _ _ (rw run at done) in
      let (raw, got, saved) = and_then_ok (save_raw f job.id) fetched _ went in
      let whole =
        make_dirs f.data_dir (mime_dir ∷ []) >> write_file f.data_dir (mime_path e job.id) raw in
      let (u, wrote, ended) =
        and_then_ok (λ u. pure render_stage) (whole fetched.1) render_stage (rw saved at went) in
      let ends : (fetch f job w).1 ≡ (whole fetched.1).1 =
        ap (λ r. r.1) run ∙ behind ∙ ap (λ r. r.1) saved ∙ ap (λ r. r.1) ended in
      let mime = mime_path-IsName e job.id named in
      let there : look f.data_dir (fetch f job w).1 (mime_path e job.id) ≡ some raw =
        ap (λ v. look f.data_dir v (mime_path e job.id)) ends
        ∙ look_saved f.data_dir (mime_dir ∷ []) (mime_path e job.id) (mime_path e job.id) raw
            fetched.1 mime mime wrote
        ∙ put_same c (mime_path e job.id) raw _ in
      (raw, got, render_read c job (fetch f job w).1 raw (rw (sym same_dir) there))
