-- ===== src/Handlers/Mime/Flat.antt =====
-- parseMessage of internal/handler/mime.go against the flat list of a message's leaves.
use dist_task_queue.Prelude.{
  ◌≡◌, refl, sym, ap, ◌∙◌, true, false, Option, none, some, List, [], ◌∷◌, ◌++◌, append_assoc,
  append-nil, inl, inr,
}
use dist_task_queue.Prelude.Tests.{Bytes, bytes_eq, if◌then◌else◌, Bool-cases, bytes_eq_iff}
use dist_task_queue.World.{Result, ok, err, text}
use dist_task_queue.Handlers.Paths.{Unicode, or_text}
use dist_task_queue.Handlers.Mime.{
  Reader, reader, Parts, no_more, bad_part, part, Mail, Attachment, ParsedMessage, then_result,
  Kind, attached, composed, single, put_text, add_attachment, decode_part, kind, type_of, walk_kind,
  walk_part, walk_parts, from_headers, parse_read, parse_message,
}
use dist_task_queue.Handlers.Mime.Words.{text_plain, text_html}

-- A leaf of a message, decoded: a file, or a text with its media type.
pub data Leaf : Type 0 where
  file : Attachment → Leaf
  words : Bytes → Bytes → Leaf

-- The files, in the order of the leaves.
unfoldable pub files : List Leaf → List Attachment
files [] = []
files (file a ∷ ls) = a ∷ files ls
files (words media s ∷ ls) = files ls

-- The first text of a media type that is not empty.
unfoldable pub first_text : Bytes → List Leaf → Bytes
first_text want [] = []
first_text want (file a ∷ ls) = first_text want ls
first_text want (words media s ∷ ls) =
    let rest = first_text want ls in if bytes_eq media want then or_text rest s else rest

abbrev pub with_leaves : ParsedMessage → List Leaf → ParsedMessage
with_leaves out ls = record out {
  html = or_text (first_text text_html ls) out.html;
  plain = or_text (first_text text_plain ls) out.plain;
  attachments = out.attachments ++ files ls;
}

or_text_assoc : (s t r : Bytes) → or_text (or_text r t) s ≡ or_text r (or_text t s)
or_text_assoc [] t r = refl
or_text_assoc (c ∷ s) t r = refl

or_text_nil : (s : Bytes) → or_text [] s ≡ s
or_text_nil [] = refl
or_text_nil (c ∷ s) = refl

files-append : (ls ms : List Leaf) → files (ls ++ ms) ≡ files ls ++ files ms
unfolding files
files-append [] ms = refl
files-append (file a ∷ ls) ms = ap (λ x. a ∷ x) (files-append ls ms)
files-append (words media s ∷ ls) ms = files-append ls ms

first_text-append :
    (want : Bytes) (ls ms : List Leaf)
    → first_text want (ls ++ ms) ≡ or_text (first_text want ms) (first_text want ls)
unfolding first_text
first_text-append want [] ms = refl
first_text-append want (file a ∷ ls) ms = first_text-append want ls ms
first_text-append want (words media s ∷ ls) ms = elim (Bool-cases (bytes_eq media want)) [
  | inl e ↦ rw e (
      ap (λ x. or_text x s) (first_text-append want ls ms)
      ∙ or_text_assoc s (first_text want ls) (first_text want ms))
  | inr e ↦ rw e (first_text-append want ls ms)
]

with_leaves-append :
    (out : ParsedMessage) (ls ms : List Leaf)
    → with_leaves (with_leaves out ls) ms ≡ with_leaves out (ls ++ ms)
with_leaves-append out ls ms =
    rw
      (
        files-append ls ms,
        first_text-append text_html ls ms,
        first_text-append text_plain ls ms,
        or_text_assoc out.html (first_text text_html ls) (first_text text_html ms),
        or_text_assoc out.plain (first_text text_plain ls) (first_text text_plain ms),
        append_assoc out.attachments (files ls) (files ms),
      )
      refl

with_leaves_nil : (out : ParsedMessage) → with_leaves out [] ≡ out
unfolding files first_text
with_leaves_nil out =
    rw (or_text_nil out.html, or_text_nil out.plain, append-nil out.attachments) refl

html_apart : (media : Bytes) → bytes_eq media text_html ≡ true → bytes_eq media text_plain ≡ false
unfolding bytes_eq
html_apart media e = rw ((bytes_eq_iff media text_html).0 e) refl

with_leaves_words :
    (out : ParsedMessage) (media s : Bytes)
    → with_leaves out (words media s ∷ []) ≡ put_text media s out
unfolding files first_text put_text
with_leaves_words out media s = elim (Bool-cases (bytes_eq media text_html)) [
  | inl html ↦
      rw
        (
          html,
          html_apart media html,
          or_text_nil s,
          or_text_nil out.plain,
          append-nil out.attachments,
        )
        refl
  | inr other ↦ elim (Bool-cases (bytes_eq media text_plain)) [
    | inl plain ↦
        rw (other, plain, or_text_nil s, or_text_nil out.html, append-nil out.attachments) refl
    | inr neither ↦
        rw (other, neither, or_text_nil out.html, or_text_nil out.plain, append-nil out.attachments)
          refl
  ]
]

with_leaves_file :
    (out : ParsedMessage) (a : Attachment)
    → with_leaves out (file a ∷ []) ≡ record out { attachments = out.attachments ++ a ∷ [] }
unfolding files first_text
with_leaves_file out a = rw (or_text_nil out.html, or_text_nil out.plain) refl

abbrev pub filled : ParsedMessage → Result (List Leaf) → Result ParsedMessage
filled out ls = then_result (λ ls. ok (with_leaves out ls)) ls

-- The leaves of a part, and those of the parts behind it.
abbrev joined : Result (List Leaf) → List Leaf → Result (List Leaf)
joined more ls = then_result (λ ms. ok (ls ++ ms)) more

filled-joined :
    (out : ParsedMessage) (walked : ParsedMessage → Result ParsedMessage)
    (first more : Result (List Leaf))
    → ((o : ParsedMessage) → walked o ≡ filled o more)
    → then_result walked (filled out first) ≡ filled out (then_result (joined more) first)
filled-joined out walked (err x) more same = refl
filled-joined out walked (ok ls) (err x) same = same (with_leaves out ls)
filled-joined out walked (ok ls) (ok ms) same =
    same (with_leaves out ls) ∙ ap ok (with_leaves-append out ls ms)

module _ (m : Mail) (u : Unicode) where
  abbrev leaves_kind :
      m.Header → Option Bytes → (Bytes → Result (List Leaf)) → Kind → Result (List Leaf)
  leaves_kind h raw parts (attached name media) =
      then_result
        (λ s. ok (file (record { filename = name; media_type = media; content = s }) ∷ []))
        (decode_part m u h raw)
  leaves_kind h raw parts (composed []) = err (text [])
  leaves_kind h raw parts (composed (c ∷ b)) = parts (c ∷ b)
  leaves_kind h raw parts (single media) =
      then_result (λ s. ok (words media s ∷ [])) (decode_part m u h raw)

  -- The leaves of a part, without a message to fill.
  unfoldable mutual
    pub leaves : Bytes → m.Header → Reader m.Header → Result (List Leaf)
    leaves ct h (reader raw parts) = leaves_kind h raw (λ b. leaves_of (parts b)) (kind m u ct h)

    leaves_of : Parts m.Header → Result (List Leaf)
    leaves_of no_more = ok []
    leaves_of bad_part = err (text [])
    leaves_of (part h r ps) = then_result (joined (leaves_of ps)) (leaves (type_of m u h) h r)

  walk_kind_lem :
      (out : ParsedMessage) (h : m.Header) (raw : Option Bytes)
      (walked : Bytes → Result ParsedMessage) (parts : Bytes → Result (List Leaf))
      → ((b : Bytes) → walked b ≡ filled out (parts b))
      → (k : Kind) → walk_kind m u out h raw walked k ≡ filled out (leaves_kind h raw parts k)
  walk_kind_lem out h raw walked parts same (attached name media) =
      by_content (decode_part m u h raw)
    where
      by_content :
          (r : Result Bytes)
          → then_result (λ s. ok (add_attachment name media s out)) r
            ≡ filled out (
                then_result
                  (λ s.
                    ok (file (record { filename = name; media_type = media; content = s }) ∷ []))
                  r)
      by_content (err x) = refl
      by_content (ok s) = ap ok (sym (with_leaves_file out _))
  walk_kind_lem out h raw walked parts same (composed []) = refl
  walk_kind_lem out h raw walked parts same (composed (c ∷ b)) = same (c ∷ b)
  walk_kind_lem out h raw walked parts same (single media) = by_content (decode_part m u h raw)
    where
      by_content :
          (r : Result Bytes)
          → then_result (λ s. ok (put_text media s out)) r
            ≡ filled out (then_result (λ s. ok (words media s ∷ [])) r)
      by_content (err x) = refl
      by_content (ok s) = ap ok (sym (with_leaves_words out media s))

  mutual
    unfolding walk_part leaves

    walk_part_lem :
        (out : ParsedMessage) (ct : Bytes) (h : m.Header) (r : Reader m.Header)
        → walk_part m u out ct h r ≡ filled out (leaves ct h r)
    walk_part_lem out ct h (reader raw parts) =
        walk_kind_lem out h raw _ _ (λ b. walk_parts_lem out (parts b)) (kind m u ct h)

    walk_parts_lem :
        (out : ParsedMessage) (ps : Parts m.Header)
        → walk_parts m u out ps ≡ filled out (leaves_of ps)
    walk_parts_lem out no_more = ap ok (sym (with_leaves_nil out))
    walk_parts_lem out bad_part = refl
    walk_parts_lem out (part h r ps) =
        ap (then_result (λ o. walk_parts m u o ps)) (walk_part_lem out (type_of m u h) h r)
        ∙ filled-joined out _ (leaves (type_of m u h) h r) (leaves_of ps) (λ o. walk_parts_lem o ps)

  -- parseMessage by the leaves of the message, in their order.
  abbrev pub parsed_by_leaves : Option (m.Header × Reader m.Header) → Result ParsedMessage
  parsed_by_leaves none = err (text [])
  parsed_by_leaves (some (h, r)) = filled (from_headers m u h) (leaves (type_of m u h) h r)

  -- parseMessage, which fills one message while it walks the tree of parts, gives what the flat list
  -- of leaves gives: every attachment in the order of the leaves, and for HTML and plain text the
  -- first that is not empty; it fails exactly where the listing of the leaves fails, with its error.
  pub parse_message-leaves :
      (raw : Bytes) → parse_message m u raw ≡ parsed_by_leaves (m.read_message raw)
  unfolding parse_message
  parse_message-leaves raw = by_read (m.read_message raw)
    where
      by_read : (o : Option (m.Header × Reader m.Header)) → parse_read m u o ≡ parsed_by_leaves o
      by_read none = refl
      by_read (some (h, r)) = walk_part_lem (from_headers m u h) (type_of m u h) h r
