-- ===== src/Handlers/Render.antt =====
-- internal/handler/render.go and internal/pdf/client.go.
pub mod Files
use dist_task_queue.Prelude.{ℕ, ◌/◌, ◌≡◌, ◌<◌, Option, none, some, List, [], ◌∷◌, ◌++◌, map}
use dist_task_queue.Prelude.Tests.{Bytes, ◌==◌, if◌then◌else◌}
use dist_task_queue.Prelude.Lists.{All}
use dist_task_queue.Services.{Env}
use dist_task_queue.World.{World, M, Result, ok, err, Error, text, ◌>>=◌, ◌>>◌, pure}
use dist_task_queue.Store.Types.{Uuid, Time, Job}
use dist_task_queue.Worker.Process.{Handler}
use dist_task_queue.Handlers.Escape.{html_escape}
use dist_task_queue.Handlers.Paths.{Unicode, is_empty, sanitize_filename}
use dist_task_queue.Handlers.Mime.{Mail, Attachment, ParsedMessage, parse_message}
use dist_task_queue.Handlers.Words.{
  pdf_dir, meta_dir, upload_stage, convert_path, pre_open, pre_close, html_head, head_end, box_open,
  from_open, date_open, subject_open, div_close, html_end,
}
use dist_task_queue.Handlers.Disk.{
  or_text_error, read_file, write_file, make_dirs, answer, mime_path, pdf_path, meta_path,
  attachments_path, attachment_path,
}

pub record RenderMeta : Type 0 where
  pub subject : Bytes
  pub from_email : Bytes
  pub received_at : Time
  pub attachment_names : List Bytes

abbrev pub map_texts : (Bytes → Bytes) → RenderMeta → RenderMeta
map_texts f m = record {
  subject = f m.subject;
  from_email = f m.from_email;
  received_at = m.received_at;
  attachment_names = map f m.attachment_names;
}

-- encoding/json on RenderMeta. A text is written with its invalid UTF-8 replaced, which `to_valid`
-- does; a year over 9999 is an error.
pub record MetaJson : Type 0 where
  pub marshal : RenderMeta → Option Bytes
  pub unmarshal : Bytes → Option RenderMeta
  pub to_valid : Bytes → Bytes
  pub to_valid_ascii : (s : Bytes) → All (λ b. b < 128) s → to_valid s ≡ s
  pub unmarshal-marshal :
      (m : RenderMeta) (b : Bytes) → marshal m ≡ some b → unmarshal b ≡ some (map_texts to_valid m)

-- `post` sends index.html to a URL as a form, and gives the status and the body, `none` for a body
-- that breaks off. `rfc1123` is Time.Format.
pub record RenderConfig (e : Env) : Type 1 where
  pub data_dir : Bytes
  pub pdf_endpoint : Bytes
  pub post : Bytes → Bytes → M e (ℕ × Option Bytes)
  pub mail : Mail
  pub unicode : Unicode
  pub json : MetaJson
  pub rfc1123 : Time → Bytes
  -- err.Error()
  pub words : Error → Bytes

-- `body := p.HTML`, or the plain text.
unfoldable pub body_of : ParsedMessage → Bytes
body_of p = if is_empty p.html then pre_open ++ (html_escape p.plain ++ pre_close) else p.html

module _ {e : Env} (c : RenderConfig e) where
  abbrev pub date_line : Time → Bytes
  date_line t = if t == 0 then [] else date_open ++ (html_escape (c.rfc1123 t) ++ div_close)

  -- buildHTMLWrapper
  unfoldable pub build_html_wrapper : ParsedMessage → Bytes
  build_html_wrapper p =
      html_head
      ++ (html_escape p.subject
          ++ (head_end
              ++ (box_open
                  ++ (from_open
                      ++ (html_escape p.from
                          ++ (div_close
                              ++ (date_line p.received_at
                                  ++ (subject_open
                                      ++ (html_escape p.subject
                                          ++ (div_close
                                              ++ (div_close ++ (body_of p ++ html_end))))))))))))

  abbrev pub read_pdf : ℕ × Option Bytes → M e Bytes
  read_pdf (status, body) w = if status / 100 == 2 then or_text_error body w else (err (text []), w)

  -- pdf.Client.RenderHTML
  unfoldable pub render_html : Bytes → M e Bytes
  render_html html = c.post (c.pdf_endpoint ++ convert_path) html >>= read_pdf

  -- `names` are the names of the attachments written so far.
  unfoldable pub write_attachments : Uuid → List Attachment → List Bytes → M e (List Bytes)
  write_attachments id [] names = pure names
  write_attachments id (a ∷ more) names =
      write_file c.data_dir (attachment_path e id (sanitize_filename c.unicode a.filename))
        a.content
      >> write_attachments id more (names ++ sanitize_filename c.unicode a.filename ∷ [])

  unfoldable pub save_attachments : Uuid → List Attachment → M e (List Bytes)
  save_attachments id [] = write_attachments id [] []
  save_attachments id (a ∷ more) =
      make_dirs c.data_dir (attachments_path e id) >> write_attachments id (a ∷ more) []

  unfoldable pub save_pdf : Uuid → Bytes → M e (Unit {0})
  save_pdf id pdf = make_dirs c.data_dir (pdf_dir ∷ []) >> write_file c.data_dir (pdf_path e id) pdf

  unfoldable pub meta_of : Job → ParsedMessage → List Bytes → RenderMeta
  meta_of job p names = record {
    subject = p.subject;
    from_email = p.from_email;
    received_at = if p.received_at == 0 then job.created_at else p.received_at;
    attachment_names = names;
  }

  unfoldable pub save_meta : Uuid → RenderMeta → M e (Unit {0})
  save_meta id meta = or_text_error (c.json.marshal meta) >>= λ b.
      make_dirs c.data_dir (meta_dir ∷ []) >> write_file c.data_dir (meta_path e id) b

  -- Behind parseMessage.
  unfoldable pub render_parsed : Job → ParsedMessage → M e Bytes
  render_parsed job p = save_attachments job.id p.attachments >>= λ names.
      (render_html (build_html_wrapper p) >>= save_pdf job.id)
      >> save_meta job.id (meta_of job p names)
      >> pure upload_stage

  abbrev pub parsed : Bytes → M e ParsedMessage
  parsed raw w = (parse_message c.mail c.unicode raw, w)

  unfoldable pub render : Handler e
  render job w =
      answer c.words
        ((read_file c.data_dir (mime_path e job.id) >>= parsed >>= render_parsed job) w)
