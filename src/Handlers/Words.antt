-- ===== src/Handlers/Words.antt =====
-- The words of internal/handler and internal/pdf: folders, stages and pieces of HTML.
use dist_task_queue.Prelude.{[], ◌∷◌}
use dist_task_queue.Prelude.Tests.{Bytes}

-- "mime"
abbrev pub mime_dir : Bytes
mime_dir = b'm' ∷ b'i' ∷ b'm' ∷ b'e' ∷ []

-- "attachments"
abbrev pub attachments_dir : Bytes
attachments_dir = b'a' ∷ b't' ∷ b't' ∷ b'a' ∷ b'c' ∷ b'h' ∷ b'm' ∷ b'e' ∷ b'n' ∷ b't' ∷ b's' ∷ []

-- "pdf"
abbrev pub pdf_dir : Bytes
pdf_dir = b'p' ∷ b'd' ∷ b'f' ∷ []

-- "meta"
abbrev pub meta_dir : Bytes
meta_dir = b'm' ∷ b'e' ∷ b't' ∷ b'a' ∷ []

-- ".eml"
abbrev pub eml_suffix : Bytes
eml_suffix = b'.' ∷ b'e' ∷ b'm' ∷ b'l' ∷ []

-- ".pdf"
abbrev pub pdf_suffix : Bytes
pdf_suffix = b'.' ∷ b'p' ∷ b'd' ∷ b'f' ∷ []

-- ".json"
abbrev pub json_suffix : Bytes
json_suffix = b'.' ∷ b'j' ∷ b's' ∷ b'o' ∷ b'n' ∷ []

-- "render"
abbrev pub render_stage : Bytes
render_stage = b'r' ∷ b'e' ∷ b'n' ∷ b'd' ∷ b'e' ∷ b'r' ∷ []

-- "upload"
abbrev pub upload_stage : Bytes
upload_stage = b'u' ∷ b'p' ∷ b'l' ∷ b'o' ∷ b'a' ∷ b'd' ∷ []

-- "email.pdf"
abbrev pub email_pdf : Bytes
email_pdf = b'e' ∷ b'm' ∷ b'a' ∷ b'i' ∷ b'l' ∷ b'.' ∷ b'p' ∷ b'd' ∷ b'f' ∷ []

-- "application/pdf"
abbrev pub application_pdf : Bytes
application_pdf =
    b'a' ∷ b'p' ∷ b'p' ∷ b'l' ∷ b'i' ∷ b'c' ∷ b'a' ∷ b't' ∷ b'i' ∷ b'o' ∷ b'n' ∷ b'/' ∷ b'p' ∷ b'd'
    ∷ b'f' ∷ []

-- "application/octet-stream"
abbrev pub octet_stream : Bytes
octet_stream =
    b'a' ∷ b'p' ∷ b'p' ∷ b'l' ∷ b'i' ∷ b'c' ∷ b'a' ∷ b't' ∷ b'i' ∷ b'o' ∷ b'n' ∷ b'/' ∷ b'o' ∷ b'c'
    ∷ b't' ∷ b'e' ∷ b't' ∷ b'-' ∷ b's' ∷ b't' ∷ b'r' ∷ b'e' ∷ b'a' ∷ b'm' ∷ []

-- "root"
abbrev pub my_drive : Bytes
my_drive = b'r' ∷ b'o' ∷ b'o' ∷ b't' ∷ []

-- "/forms/chromium/convert/html"
abbrev pub convert_path : Bytes
convert_path =
    b'/' ∷ b'f' ∷ b'o' ∷ b'r' ∷ b'm' ∷ b's' ∷ b'/' ∷ b'c' ∷ b'h' ∷ b'r' ∷ b'o' ∷ b'm' ∷ b'i' ∷ b'u'
    ∷ b'm' ∷ b'/' ∷ b'c' ∷ b'o' ∷ b'n' ∷ b'v' ∷ b'e' ∷ b'r' ∷ b't' ∷ b'/' ∷ b'h' ∷ b't' ∷ b'm'
    ∷ b'l' ∷ []

-- "<pre>"
abbrev pub pre_open : Bytes
pre_open = b'<' ∷ b'p' ∷ b'r' ∷ b'e' ∷ b'>' ∷ []

-- "</pre>"
abbrev pub pre_close : Bytes
pre_close = b'<' ∷ b'/' ∷ b'p' ∷ b'r' ∷ b'e' ∷ b'>' ∷ []

-- "<!doctype html><html><head><meta charset="utf-8"><title>"
abbrev pub html_head : Bytes
html_head =
    b'<' ∷ b'!' ∷ b'd' ∷ b'o' ∷ b'c' ∷ b't' ∷ b'y' ∷ b'p' ∷ b'e' ∷ b' ' ∷ b'h' ∷ b't' ∷ b'm' ∷ b'l'
    ∷ b'>' ∷ b'<' ∷ b'h' ∷ b't' ∷ b'm' ∷ b'l' ∷ b'>' ∷ b'<' ∷ b'h' ∷ b'e' ∷ b'a' ∷ b'd' ∷ b'>'
    ∷ b'<' ∷ b'm' ∷ b'e' ∷ b't' ∷ b'a' ∷ b' ' ∷ b'c' ∷ b'h' ∷ b'a' ∷ b'r' ∷ b's' ∷ b'e' ∷ b't'
    ∷ b'=' ∷ b'"' ∷ b'u' ∷ b't' ∷ b'f' ∷ b'-' ∷ b'8' ∷ b'"' ∷ b'>' ∷ b'<' ∷ b't' ∷ b'i' ∷ b't'
    ∷ b'l' ∷ b'e' ∷ b'>' ∷ []

-- "</title></head><body>"
abbrev pub head_end : Bytes
head_end =
    b'<' ∷ b'/' ∷ b't' ∷ b'i' ∷ b't' ∷ b'l' ∷ b'e' ∷ b'>' ∷ b'<' ∷ b'/' ∷ b'h' ∷ b'e' ∷ b'a' ∷ b'd'
    ∷ b'>' ∷ b'<' ∷ b'b' ∷ b'o' ∷ b'd' ∷ b'y' ∷ b'>' ∷ []

-- "<div style="font-family:sans-serif;border-bottom:1px solid #ccc;padding-bottom:8px;margin-bottom:12px">"
abbrev pub box_open : Bytes
box_open =
    b'<' ∷ b'd' ∷ b'i' ∷ b'v' ∷ b' ' ∷ b's' ∷ b't' ∷ b'y' ∷ b'l' ∷ b'e' ∷ b'=' ∷ b'"' ∷ b'f' ∷ b'o'
    ∷ b'n' ∷ b't' ∷ b'-' ∷ b'f' ∷ b'a' ∷ b'm' ∷ b'i' ∷ b'l' ∷ b'y' ∷ b':' ∷ b's' ∷ b'a' ∷ b'n'
    ∷ b's' ∷ b'-' ∷ b's' ∷ b'e' ∷ b'r' ∷ b'i' ∷ b'f' ∷ b';' ∷ b'b' ∷ b'o' ∷ b'r' ∷ b'd' ∷ b'e'
    ∷ b'r' ∷ b'-' ∷ b'b' ∷ b'o' ∷ b't' ∷ b't' ∷ b'o' ∷ b'm' ∷ b':' ∷ b'1' ∷ b'p' ∷ b'x' ∷ b' '
    ∷ b's' ∷ b'o' ∷ b'l' ∷ b'i' ∷ b'd' ∷ b' ' ∷ b'#' ∷ b'c' ∷ b'c' ∷ b'c' ∷ b';' ∷ b'p' ∷ b'a'
    ∷ b'd' ∷ b'd' ∷ b'i' ∷ b'n' ∷ b'g' ∷ b'-' ∷ b'b' ∷ b'o' ∷ b't' ∷ b't' ∷ b'o' ∷ b'm' ∷ b':'
    ∷ b'8' ∷ b'p' ∷ b'x' ∷ b';' ∷ b'm' ∷ b'a' ∷ b'r' ∷ b'g' ∷ b'i' ∷ b'n' ∷ b'-' ∷ b'b' ∷ b'o'
    ∷ b't' ∷ b't' ∷ b'o' ∷ b'm' ∷ b':' ∷ b'1' ∷ b'2' ∷ b'p' ∷ b'x' ∷ b'"' ∷ b'>' ∷ []

-- "<div><strong>From:</strong> "
abbrev pub from_open : Bytes
from_open =
    b'<' ∷ b'd' ∷ b'i' ∷ b'v' ∷ b'>' ∷ b'<' ∷ b's' ∷ b't' ∷ b'r' ∷ b'o' ∷ b'n' ∷ b'g' ∷ b'>' ∷ b'F'
    ∷ b'r' ∷ b'o' ∷ b'm' ∷ b':' ∷ b'<' ∷ b'/' ∷ b's' ∷ b't' ∷ b'r' ∷ b'o' ∷ b'n' ∷ b'g' ∷ b'>'
    ∷ b' ' ∷ []

-- "<div><strong>Date:</strong> "
abbrev pub date_open : Bytes
date_open =
    b'<' ∷ b'd' ∷ b'i' ∷ b'v' ∷ b'>' ∷ b'<' ∷ b's' ∷ b't' ∷ b'r' ∷ b'o' ∷ b'n' ∷ b'g' ∷ b'>' ∷ b'D'
    ∷ b'a' ∷ b't' ∷ b'e' ∷ b':' ∷ b'<' ∷ b'/' ∷ b's' ∷ b't' ∷ b'r' ∷ b'o' ∷ b'n' ∷ b'g' ∷ b'>'
    ∷ b' ' ∷ []

-- "<div><strong>Subject:</strong> "
abbrev pub subject_open : Bytes
subject_open =
    b'<' ∷ b'd' ∷ b'i' ∷ b'v' ∷ b'>' ∷ b'<' ∷ b's' ∷ b't' ∷ b'r' ∷ b'o' ∷ b'n' ∷ b'g' ∷ b'>' ∷ b'S'
    ∷ b'u' ∷ b'b' ∷ b'j' ∷ b'e' ∷ b'c' ∷ b't' ∷ b':' ∷ b'<' ∷ b'/' ∷ b's' ∷ b't' ∷ b'r' ∷ b'o'
    ∷ b'n' ∷ b'g' ∷ b'>' ∷ b' ' ∷ []

-- "</div>"
abbrev pub div_close : Bytes
div_close = b'<' ∷ b'/' ∷ b'd' ∷ b'i' ∷ b'v' ∷ b'>' ∷ []

-- "</body></html>"
abbrev pub html_end : Bytes
html_end =
    b'<' ∷ b'/' ∷ b'b' ∷ b'o' ∷ b'd' ∷ b'y' ∷ b'>' ∷ b'<' ∷ b'/' ∷ b'h' ∷ b't' ∷ b'm' ∷ b'l' ∷ b'>'
    ∷ []

-- "unknown sender"
abbrev pub unknown_sender : Bytes
unknown_sender =
    b'u' ∷ b'n' ∷ b'k' ∷ b'n' ∷ b'o' ∷ b'w' ∷ b'n' ∷ b' ' ∷ b's' ∷ b'e' ∷ b'n' ∷ b'd' ∷ b'e' ∷ b'r'
    ∷ []

-- " - "
abbrev pub dash_between : Bytes
dash_between = b' ' ∷ b'-' ∷ b' ' ∷ []

-- "untitled"
abbrev pub untitled : Bytes
untitled = b'u' ∷ b'n' ∷ b't' ∷ b'i' ∷ b't' ∷ b'l' ∷ b'e' ∷ b'd' ∷ []

-- "unknown"
abbrev pub unknown_word : Bytes
unknown_word = b'u' ∷ b'n' ∷ b'k' ∷ b'n' ∷ b'o' ∷ b'w' ∷ b'n' ∷ []
