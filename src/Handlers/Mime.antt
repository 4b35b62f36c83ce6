-- ===== src/Handlers/Mime.antt =====
-- internal/handler/mime.go.
pub mod Words
pub mod Flat
use dist_task_queue.Prelude.{
  ℕ, ◌≡◌, Bool, true, false, ◌&&◌, ◌||◌, not, Option, none, some, List, [], ◌∷◌, ◌++◌,
}
use dist_task_queue.Prelude.Tests.{Bytes, bytes_eq, ◌==◌, if◌then◌else◌}
use dist_task_queue.Prelude.Lists.{select}
use dist_task_queue.Services.{starts_with}
use dist_task_queue.World.{Result, ok, err, text}
use dist_task_queue.Store.Types.{Time}
use dist_task_queue.Handlers.Paths.{Unicode, is_empty, or_text}
use dist_task_queue.Handlers.Mime.Words.{
  text_plain, text_html, text_prefix, multipart_prefix, attachment_word, inline_word, filename_word,
  name_word, boundary_word, base64_word, quoted_printable, content_type, content_disposition,
  transfer_encoding, subject_header, from_header, date_header,
}

-- What io.ReadAll reads from a body (`none` is an error), and what NextPart of a multipart.Reader
-- on it gives, call by call, for a boundary. A body is a finite text, so it is a finite tree.
mutual
  pub data Reader (H : Type 0) : Type 0 where
    reader : Option Bytes → (Bytes → Parts H) → Reader H

  -- io.EOF, another error, or a part with its header, and the calls behind it.
  pub data Parts (H : Type 0) : Type 0 where
    no_more bad_part : Parts H
    part : H → Reader H → Parts H → Parts H

-- net/mail, mime, encoding/base64 and mime/quotedprintable. `get` is Header.Get, which gives "" for
-- a missing key.
pub record Mail : Type 1 where
  pub Header : Type 0
  pub get : Header → Bytes → Bytes
  pub read_message : Bytes → Option (Header × Reader Header)
  pub parse_address : Bytes → Option Bytes
  pub parse_date : Bytes → Option Time
  -- the media type, and its parameters by name, "" for a missing one
  pub parse_media_type : Bytes → Option (Bytes × (Bytes → Bytes))
  pub decode_base64 : Bytes → Option Bytes
  pub decode_quoted : Bytes → Option Bytes

pub record Attachment : Type 0 where
  pub filename : Bytes
  pub media_type : Bytes
  pub content : Bytes

pub record ParsedMessage : Type 0 where
  pub html : Bytes
  pub plain : Bytes
  pub attachments : List Attachment
  pub subject : Bytes
  pub from : Bytes
  pub from_email : Bytes
  pub received_at : Time

-- `x, err := …; if err != nil { return err }`, and what comes behind it.
abbrev pub then_result {ℓ κ} : {A : Type ℓ} {B : Type κ} → (A → Result B) → Result A → Result B
then_result f (ok a) = f a
then_result f (err x) = err x

abbrev pub or_fail : Option Bytes → Result Bytes
or_fail none = err (text [])
or_fail (some s) = ok s

-- What walkPart takes a part for: an attachment of a name and a type, the parts between a
-- boundary, or a text of a type.
pub data Kind : Type 0 where
  attached : Bytes → Bytes → Kind
  composed : Bytes → Kind
  single : Bytes → Kind

abbrev pub is_newline : ℕ → Bool
is_newline c = c == 13 || c == 10

-- A text of a message, kept where no text of its type was kept.
unfoldable pub put_text : Bytes → Bytes → ParsedMessage → ParsedMessage
put_text media decoded out =
    if bytes_eq media text_html
    then record out { html = or_text decoded out.html }
    else if bytes_eq media text_plain
    then record out { plain = or_text decoded out.plain }
    else out

abbrev pub add_attachment : Bytes → Bytes → Bytes → ParsedMessage → ParsedMessage
add_attachment name media decoded out = record out {
  attachments =
      out.attachments ++ record { filename = name; media_type = media; content = decoded } ∷ [];
}

module _ (m : Mail) (u : Unicode) where
  unfoldable pub decode_as : Bytes → Bytes → Result Bytes
  decode_as enc raw =
      if bytes_eq enc base64_word
      then or_fail (m.decode_base64 (select (λ c. not (is_newline c)) raw))
      else if bytes_eq enc quoted_printable
      then or_fail (m.decode_quoted raw)
      else ok raw

  unfoldable pub decode_part : m.Header → Option Bytes → Result Bytes
  decode_part h raw =
      then_result (decode_as (u.to_lower (u.trim_space (m.get h transfer_encoding)))) (or_fail raw)

  abbrev pub or_plain : Option (Bytes × (Bytes → Bytes)) → Bytes × (Bytes → Bytes)
  or_plain none = (text_plain, λ k. [])
  or_plain (some r) = r

  -- The name and the verdict of Content-Disposition. A name that is "" leaves attachName "".
  abbrev pub named : Option (Bytes × (Bytes → Bytes)) → Bytes × Bool
  named none = ([], false)
  named (some (d, params)) = (
    params filename_word,
    bytes_eq d attachment_word
        || (not (is_empty (params filename_word)) && not (bytes_eq d inline_word)),
  )

  unfoldable pub disposition : Bytes → Bytes × Bool
  disposition disp = if is_empty disp then ([], false) else named (m.parse_media_type disp)

  -- The name in Content-Type makes an attachment of what is no text and not composed.
  unfoldable pub named_by_type : Bytes → Bytes → Bytes × Bool → Bytes × Bool
  named_by_type media name (attach_name, is_attachment) =
      if is_empty attach_name
        && not (is_empty name)
        && not (starts_with multipart_prefix media)
        && not (starts_with text_prefix media)
      then (name, true)
      else (attach_name, is_attachment)

  abbrev pub kind_from : Bytes → Bytes → Bytes × Bool → Kind
  kind_from media boundary (name, true) = attached name media
  kind_from media boundary (name, false) =
      if starts_with multipart_prefix media then composed boundary else single media

  abbrev pub kind_of : m.Header → Bytes × (Bytes → Bytes) → Kind
  kind_of h (media, params) =
      kind_from media (params boundary_word)
        (named_by_type media (params name_word) (disposition (m.get h content_disposition)))

  -- The tests of walkPart.
  unfoldable pub kind : Bytes → m.Header → Kind
  kind ct h = kind_of h (or_plain (m.parse_media_type ct))

  -- `ct := headers.Get("Content-Type"); if ct == "" { ct = "text/plain" }`
  abbrev pub type_of : m.Header → Bytes
  type_of h = or_text text_plain (m.get h content_type)

  -- What is done with a part of each kind; `parts` walks the parts for a boundary.
  abbrev pub walk_kind :
      ParsedMessage
      → m.Header
      → Option Bytes
      → (Bytes → Result ParsedMessage)
      → Kind
      → Result ParsedMessage
  walk_kind out h raw parts (attached name media) =
      then_result (λ decoded. ok (add_attachment name media decoded out)) (decode_part h raw)
  walk_kind out h raw parts (composed []) = err (text [])
  walk_kind out h raw parts (composed (c ∷ b)) = parts (c ∷ b)
  walk_kind out h raw parts (single media) =
      then_result (λ decoded. ok (put_text media decoded out)) (decode_part h raw)

  unfoldable mutual
    pub walk_part : ParsedMessage → Bytes → m.Header → Reader m.Header → Result ParsedMessage
    walk_part out ct h (reader raw parts) =
        walk_kind out h raw (λ b. walk_parts out (parts b)) (kind ct h)

    pub walk_parts : ParsedMessage → Parts m.Header → Result ParsedMessage
    walk_parts out no_more = ok out
    walk_parts out bad_part = err (text [])
    walk_parts out (part h r ps) =
        then_result (λ o. walk_parts o ps) (walk_part out (type_of h) h r)

  abbrev pub or_zero : Option Time → Time
  or_zero none = 0
  or_zero (some t) = t

  -- The fields that parseMessage reads from the header.
  unfoldable pub from_headers : m.Header → ParsedMessage
  from_headers h = record {
    html = [];
    plain = [];
    attachments = [];
    subject = m.get h subject_header;
    from = m.get h from_header;
    from_email = elim (m.parse_address (m.get h from_header)) [ none ↦ [] | some a ↦ a ];
    received_at =
        if is_empty (m.get h date_header) then 0 else or_zero (m.parse_date (m.get h date_header));
  }

  abbrev pub parse_read : Option (m.Header × Reader m.Header) → Result ParsedMessage
  parse_read none = err (text [])
  parse_read (some (h, r)) = walk_part (from_headers h) (type_of h) h r

  unfoldable pub parse_message : Bytes → Result ParsedMessage
  parse_message raw = parse_read (m.read_message raw)
