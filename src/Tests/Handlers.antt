-- ===== src/Tests/Handlers.antt =====
-- The theorems on the handlers, on MIME and on Drive at concrete inputs.
use dist_task_queue.Prelude.{ℕ, ◌≡◌, refl, sym, Option, none, some, List, [], ◌∷◌, ◌++◌, map, arith}
use dist_task_queue.Prelude.Tests.{Bytes, bytes_eq, bytes_eq→ne, if◌then◌else◌}
use dist_task_queue.Services.{IsName, path_eq, starts_with}
use dist_task_queue.Services.Memory.{calm_env, format_uuid, read}
use dist_task_queue.World.{World, ok, and_then}
use dist_task_queue.Gmail.{fetch_message}
use dist_task_queue.Drive.{Drive}
use dist_task_queue.Handlers.Paths.{
  sanitize_filename, dashed, is_separator, trim_left, trim_right, has_dots,
}
use dist_task_queue.Handlers.Words.{render_stage, upload_stage}
use dist_task_queue.Handlers.Mime.{
  reader, Parts, no_more, part, Mail, ParsedMessage, parse_message, from_headers, walk_part, kind,
  disposition, named_by_type, decode_part, decode_as,
}
use dist_task_queue.Handlers.Mime.Words.{
  content_disposition, filename_word, attachment_word, multipart_prefix, boundary_word,
  content_type,
}
use dist_task_queue.Handlers.Mime.Flat.{parsed_by_leaves, parse_message-leaves}
use dist_task_queue.Handlers.Disk.{
  read_file, make_dirs, write_file, answer, mime_path, pdf_path, attachment_path,
}
use dist_task_queue.Handlers.Disk.Effects.{look}
use dist_task_queue.Handlers.Fetch.{FetchConfig, fetch, fetch_raw, save_raw}
use dist_task_queue.Handlers.Render.{
  RenderConfig, RenderMeta, MetaJson, map_texts, render, render_parsed, render_html,
  save_attachments, write_attachments, save_pdf, save_meta, meta_of, build_html_wrapper,
}
use dist_task_queue.Handlers.Render.Files.{name_of}
use dist_task_queue.Handlers.Upload.{UploadConfig, dated, load_meta}
use dist_task_queue.Handlers.Handoff.{last_content, fetch-render, render-load_meta}
use dist_task_queue.Tests.{start, job_7}
use dist_task_queue.Tests.Mail.{plain_aead, key_32, mailbox, latin}

-- A message is its disposition: "" is composed of a text and of a file "a".
abbrev two_parts : Parts Bytes
two_parts =
    part (b't' ∷ []) (reader (some (b'h' ∷ b'i' ∷ [])) (λ b. no_more))
      (part (b'a' ∷ []) (reader (some (b'%' ∷ [])) (λ b. no_more)) no_more)

abbrev mail : Mail
mail = record {
  Header = Bytes;
  get = λ h k.
      if bytes_eq k content_disposition then h else if bytes_eq k content_type then h else [];
  read_message = λ raw. some (raw, reader (some (b'%' ∷ [])) (λ b. two_parts));
  parse_address = λ s. none;
  parse_date = λ s. some 5;
  parse_media_type = λ s.
      if bytes_eq s (b'a' ∷ [])
      then some (attachment_word, λ k. if bytes_eq k filename_word then s else [])
      else if bytes_eq s (b'm' ∷ [])
      then some (multipart_prefix, λ k. if bytes_eq k boundary_word then s else [])
      else none;
  decode_base64 = λ s. some s;
  decode_quoted = λ s. some s;
}

parse_message-leaves_example :
    parse_message mail latin (b'm' ∷ [])
    ≡ parsed_by_leaves mail latin (some (b'm' ∷ [], reader (some (b'%' ∷ [])) (λ b. two_parts)))
parse_message-leaves_example = parse_message-leaves mail latin (b'm' ∷ [])

-- A Drive where each name in a folder has one id, and that lists nothing.
abbrev child : Bytes → Bytes → Bytes
child p f = p ++ b'/' ∷ f

abbrev drive : Drive calm_env
drive = record {
  new_service = λ u t w. (ok tt, w);
  list_files = λ u q w. (ok [], w);
  create_folder = λ u f p m w. (ok (child p f), w);
  create_file = λ u f p m s w. (ok (child p f), w);
}

-- The JSON of a meta with at most one name: its time and the name.
abbrev marshal_fields : Bytes → Bytes → ℕ → List Bytes → Option Bytes
marshal_fields [] [] t [] = some (t ∷ [])
marshal_fields [] [] t ((c ∷ n) ∷ []) = some (t ∷ c ∷ n)
marshal_fields _ _ t _ = none

abbrev meta_at : ℕ → List Bytes → RenderMeta
meta_at t names = record {
  subject = [];
  from_email = [];
  received_at = t;
  attachment_names = names;
}

abbrev unmarshal : Bytes → Option RenderMeta
unmarshal [] = none
unmarshal (t ∷ []) = some (meta_at t [])
unmarshal (t ∷ c ∷ n) = some (meta_at t ((c ∷ n) ∷ []))

pub unmarshal_fields :
    (s f : Bytes) (t : ℕ) (names : List Bytes) (b : Bytes)
    → marshal_fields s f t names ≡ some b
    → unmarshal b
      ≡ some (
          map_texts
            (λ x. x)
            (record { subject = s; from_email = f; received_at = t; attachment_names = names }))
unmarshal_fields (c ∷ s) f t names b h = cc
unmarshal_fields [] (c ∷ f) t names b h = cc
unmarshal_fields [] [] t [] b h = let e : t ∷ [] ≡ b = cc in rw (sym e) refl
unmarshal_fields [] [] t ([] ∷ ns) b h = cc
unmarshal_fields [] [] t ((c ∷ n) ∷ []) b h = let e : t ∷ c ∷ n ≡ b = cc in rw (sym e) refl
unmarshal_fields [] [] t ((c ∷ n) ∷ x ∷ ns) b h = cc

abbrev json : MetaJson
json = record {
  marshal = λ m. marshal_fields m.subject m.from_email m.received_at m.attachment_names;
  unmarshal = unmarshal;
  to_valid = λ s. s;
  to_valid_ascii = λ s h. refl;
  unmarshal-marshal =
      λ m b h. unmarshal_fields m.subject m.from_email m.received_at m.attachment_names b h;
}

abbrev fetching : FetchConfig calm_env
fetching = record { gmail = mailbox; data_dir = b'd' ∷ []; words = λ x. [] }

-- A service that makes the same PDF of everything.
abbrev rendering : RenderConfig calm_env
rendering = record {
  data_dir = b'd' ∷ [];
  pdf_endpoint = [];
  post = λ url html w. (ok (200, some (b'%' ∷ [])), w);
  mail = mail;
  unicode = latin;
  json = json;
  rfc1123 = λ t. [];
  words = λ x. [];
}

abbrev pub uploading : UploadConfig calm_env
uploading = record {
  drive = drive;
  aead = plain_aead;
  encryption_key = key_32;
  data_dir = b'd' ∷ [];
  root_folder_id = [];
  root_path = [];
  unicode = latin;
  calendar = record {
    year = λ t. 2026;
    month = λ t. b'A' ∷ [];
    day = λ t. 18;
    weekday = λ t. b'S' ∷ [];
    hour = λ t. 10;
    minute = λ t. 30;
  };
  json = json;
  join = λ p f. p ++ b'/' ∷ f;
  words = λ x. [];
}

named_7 : IsName (format_uuid 7)
unfolding format_uuid bytes_eq
named_7 = (
  bytes_eq→ne _ _ refl,
  bytes_eq→ne _ _ refl,
  bytes_eq→ne _ _ refl,
  ((λ h. omega (arith, h), λ h. omega (arith, h)), tt),
)

fetched : (fetch fetching job_7 start).0 ≡ (render_stage, none)
unfolding fetch fetch_raw fetch_message save_raw make_dirs write_file
fetched = refl

fetch-render_example :
    (raw : Bytes) × ((fetch_raw fetching 1 (b'm' ∷ []) start).0 ≡ ok raw)
    × (render rendering job_7 (fetch fetching job_7 start).1
        ≡ answer rendering.words (
            and_then
              (render_parsed rendering job_7)
              (parse_message mail latin raw, (fetch fetching job_7 start).1)))
fetch-render_example =
    fetch-render fetching rendering job_7 named_7 refl 1 (b'm' ∷ []) start refl refl fetched

-- The message that is the file "a" is on the disk.
abbrev with_mail : World calm_env
with_mail = record start { disk = (mime_path calm_env 7, b'a' ∷ []) ∷ [] }

abbrev with_file : ParsedMessage
with_file = record {
  html = [];
  plain = [];
  attachments =
      record { filename = b'a' ∷ []; media_type = attachment_word; content = b'%' ∷ [] } ∷ [];
  subject = [];
  from = [];
  from_email = [];
  received_at = 0;
}

on_disk : look (b'd' ∷ []) with_mail (mime_path calm_env 7) ≡ some (b'a' ∷ [])
unfolding read path_eq bytes_eq format_uuid
on_disk = refl

file_parsed : parse_message mail latin (b'a' ∷ []) ≡ ok with_file
unfolding parse_message walk_part from_headers kind disposition named_by_type starts_with
    decode_part decode_as bytes_eq
file_parsed = refl

rendered : (render rendering job_7 with_mail).0 ≡ (upload_stage, none)
unfolding render read_file read path_eq bytes_eq format_uuid parse_message walk_part from_headers
    kind disposition named_by_type starts_with decode_part decode_as render_parsed save_attachments
    write_attachments make_dirs write_file sanitize_filename dashed is_separator trim_left
    trim_right has_dots render_html save_pdf save_meta meta_of
rendered = refl

named_a : IsName (b'a' ∷ [])
unfolding bytes_eq
named_a = (
  bytes_eq→ne _ _ refl,
  bytes_eq→ne _ _ refl,
  bytes_eq→ne _ _ refl,
  ((λ h. omega (arith, h), λ h. omega (arith, h)), tt),
)

abbrev behind_render : World calm_env
behind_render = (render rendering job_7 with_mail).1

render-load_meta_example :
    (load_meta uploading job_7 behind_render ≡ (
      ok (
          dated uploading job_7 (
            map_texts json.to_valid
              (meta_of rendering job_7 with_file (map (name_of rendering) with_file.attachments)))),
      behind_render,
    ))
    × ((pdf : Bytes) × (before : World calm_env) × ((render_html rendering
            (build_html_wrapper rendering with_file)
            before).0
          ≡ ok pdf)
        × (look (b'd' ∷ []) behind_render (pdf_path calm_env 7) ≡ some pdf))
    × (look (b'd' ∷ []) behind_render (attachment_path calm_env 7 (b'a' ∷ []))
        ≡ last_content rendering
            (b'a' ∷ [])
            with_file.attachments
            (look (b'd' ∷ []) with_mail (attachment_path calm_env 7 (b'a' ∷ []))))
render-load_meta_example =
    render-load_meta rendering uploading job_7 named_7 (λ url html v. refl) refl refl with_mail
      (b'a' ∷ []) with_file (b'a' ∷ []) on_disk file_parsed rendered named_a
