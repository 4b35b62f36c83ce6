-- ===== src/Handlers/Mime/Words.antt =====
-- The words of internal/handler/mime.go.
use dist_task_queue.Prelude.{[], ◌∷◌}
use dist_task_queue.Prelude.Tests.{Bytes}

-- "text/plain"
abbrev pub text_plain : Bytes
text_plain = b't' ∷ b'e' ∷ b'x' ∷ b't' ∷ b'/' ∷ b'p' ∷ b'l' ∷ b'a' ∷ b'i' ∷ b'n' ∷ []

-- "text/html"
abbrev pub text_html : Bytes
text_html = b't' ∷ b'e' ∷ b'x' ∷ b't' ∷ b'/' ∷ b'h' ∷ b't' ∷ b'm' ∷ b'l' ∷ []

-- "text/"
abbrev pub text_prefix : Bytes
text_prefix = b't' ∷ b'e' ∷ b'x' ∷ b't' ∷ b'/' ∷ []

-- "multipart/"
abbrev pub multipart_prefix : Bytes
multipart_prefix = b'm' ∷ b'u' ∷ b'l' ∷ b't' ∷ b'i' ∷ b'p' ∷ b'a' ∷ b'r' ∷ b't' ∷ b'/' ∷ []

-- "attachment"
abbrev pub attachment_word : Bytes
attachment_word = b'a' ∷ b't' ∷ b't' ∷ b'a' ∷ b'c' ∷ b'h' ∷ b'm' ∷ b'e' ∷ b'n' ∷ b't' ∷ []

-- "inline"
abbrev pub inline_word : Bytes
inline_word = b'i' ∷ b'n' ∷ b'l' ∷ b'i' ∷ b'n' ∷ b'e' ∷ []

-- "filename"
abbrev pub filename_word : Bytes
filename_word = b'f' ∷ b'i' ∷ b'l' ∷ b'e' ∷ b'n' ∷ b'a' ∷ b'm' ∷ b'e' ∷ []

-- "name"
abbrev pub name_word : Bytes
name_word = b'n' ∷ b'a' ∷ b'm' ∷ b'e' ∷ []

-- "boundary"
abbrev pub boundary_word : Bytes
boundary_word = b'b' ∷ b'o' ∷ b'u' ∷ b'n' ∷ b'd' ∷ b'a' ∷ b'r' ∷ b'y' ∷ []

-- "base64"
abbrev pub base64_word : Bytes
base64_word = b'b' ∷ b'a' ∷ b's' ∷ b'e' ∷ b'6' ∷ b'4' ∷ []

-- "quoted-printable"
abbrev pub quoted_printable : Bytes
quoted_printable =
    b'q' ∷ b'u' ∷ b'o' ∷ b't' ∷ b'e' ∷ b'd' ∷ b'-' ∷ b'p' ∷ b'r' ∷ b'i' ∷ b'n' ∷ b't' ∷ b'a' ∷ b'b'
    ∷ b'l' ∷ b'e' ∷ []

-- "Content-Type"
abbrev pub content_type : Bytes
content_type =
    b'C' ∷ b'o' ∷ b'n' ∷ b't' ∷ b'e' ∷ b'n' ∷ b't' ∷ b'-' ∷ b'T' ∷ b'y' ∷ b'p' ∷ b'e' ∷ []

-- "Content-Disposition"
abbrev pub content_disposition : Bytes
content_disposition =
    b'C' ∷ b'o' ∷ b'n' ∷ b't' ∷ b'e' ∷ b'n' ∷ b't' ∷ b'-' ∷ b'D' ∷ b'i' ∷ b's' ∷ b'p' ∷ b'o' ∷ b's'
    ∷ b'i' ∷ b't' ∷ b'i' ∷ b'o' ∷ b'n' ∷ []

-- "Content-Transfer-Encoding"
abbrev pub transfer_encoding : Bytes
transfer_encoding =
    b'C' ∷ b'o' ∷ b'n' ∷ b't' ∷ b'e' ∷ b'n' ∷ b't' ∷ b'-' ∷ b'T' ∷ b'r' ∷ b'a' ∷ b'n' ∷ b's' ∷ b'f'
    ∷ b'e' ∷ b'r' ∷ b'-' ∷ b'E' ∷ b'n' ∷ b'c' ∷ b'o' ∷ b'd' ∷ b'i' ∷ b'n' ∷ b'g' ∷ []

-- "Subject"
abbrev pub subject_header : Bytes
subject_header = b'S' ∷ b'u' ∷ b'b' ∷ b'j' ∷ b'e' ∷ b'c' ∷ b't' ∷ []

-- "From"
abbrev pub from_header : Bytes
from_header = b'F' ∷ b'r' ∷ b'o' ∷ b'm' ∷ []

-- "Date"
abbrev pub date_header : Bytes
date_header = b'D' ∷ b'a' ∷ b't' ∷ b'e' ∷ []
