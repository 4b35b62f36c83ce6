-- ===== src/Gmail.antt =====
-- internal/gmail/client.go.
pub mod Latest
pub mod Keeps
use dist_task_queue.Prelude.{
  ℕ, zero, suc, ◌≡◌, Bool, true, false, ◌&&◌, ◌||◌, not, Option, none, some, List, [], ◌∷◌, ◌++◌,
}
use dist_task_queue.Prelude.Tests.{Bytes, bytes_eq, ◌==◌, if◌then◌else◌}
use dist_task_queue.Prelude.Lists.{exists}
use dist_task_queue.Prelude.Decimal.{parse_uint, format_uint}
use dist_task_queue.Services.{Env}
use dist_task_queue.World.{World, M, Result, ok, err, Error, io, text, and_then, ◌>>=◌, ◌>>◌}
use dist_task_queue.Store.Types.{Uuid, Time, unix_seconds}

-- The answers of the Gmail API, as far as the client reads them; `none` is a nil pointer.
pub record Message : Type 0 where
  pub id : Bytes
  pub label_ids : List Bytes

-- `labels_added` has the labels of each event beside its message.
pub record History : Type 0 where
  pub messages_added : List (Option Message)
  pub labels_added : List (List Bytes × Option Message)

pub record HistoryResponse : Type 0 where
  pub history : List History
  pub history_id : ℕ

pub record MessagesPage : Type 0 where
  pub messages : List (Option Message)
  pub next_page_token : Bytes

-- "INBOX"
abbrev pub inbox : Bytes
inbox = b'I' ∷ b'N' ∷ b'B' ∷ b'O' ∷ b'X' ∷ []

-- "CATEGORY_PERSONAL"
abbrev pub category_personal : Bytes
category_personal =
    b'C' ∷ b'A' ∷ b'T' ∷ b'E' ∷ b'G' ∷ b'O' ∷ b'R' ∷ b'Y' ∷ b'_' ∷ b'P' ∷ b'E' ∷ b'R' ∷ b'S' ∷ b'O'
    ∷ b'N' ∷ b'A' ∷ b'L' ∷ []

-- "after:" and "before:"
abbrev pub after_text : Bytes
after_text = b'a' ∷ b'f' ∷ b't' ∷ b'e' ∷ b'r' ∷ b':' ∷ []

abbrev pub before_text : Bytes
before_text = b'b' ∷ b'e' ∷ b'f' ∷ b'o' ∷ b'r' ∷ b'e' ∷ b':' ∷ []

-- The requests that a user's client makes: google.golang.org/api over the HTTP client of oauth2, which
-- refreshes tokens through savingSource. A request takes the world along for that. `open_client` is
-- what New does: it loads the token and makes the service.
pub record Gmail (e : Env) : Type 0 where
  pub open_client : Uuid → M e (Unit {0})
  -- StartHistoryId, HistoryTypes, LabelId
  pub history_list : Uuid → ℕ → Bytes → M e HistoryResponse
  -- LabelIds, Q, PageToken
  pub messages_list : Uuid → List Bytes → Bytes → Bytes → M e MessagesPage
  pub get_raw : Uuid → Bytes → M e Bytes
  pub get_profile : Uuid → M e ℕ
  -- encoding/base64's URLEncoding without and with padding
  pub decode_unpadded : Bytes → Option Bytes
  pub decode_padded : Bytes → Option Bytes

unfoldable pub has_label : List Bytes → Bytes → Bool
has_label labels want = exists (λ l. bytes_eq l want) labels

-- `seen` holds the ids of `newIDs`, so the list stands for both.
unfoldable pub add_message : List Bytes → Option Message → List Bytes
add_message ids none = ids
add_message ids (some m) =
    if bytes_eq m.id []
    then ids
    else if not (has_label m.label_ids category_personal)
    then ids
    else if exists (λ i. bytes_eq i m.id) ids
    then ids
    else ids ++ m.id ∷ []

unfoldable pub add_messages : List (Option Message) → List Bytes → List Bytes
add_messages [] ids = ids
add_messages (m ∷ ms) ids = add_messages ms (add_message ids m)

unfoldable pub add_labelled : List (List Bytes × Option Message) → List Bytes → List Bytes
add_labelled [] ids = ids
add_labelled ((labels, m) ∷ ms) ids =
    add_labelled ms (if has_label labels inbox then add_message ids m else ids)

unfoldable pub add_history : List History → List Bytes → List Bytes
add_history [] ids = ids
add_history (h ∷ hs) ids =
    add_history hs (add_labelled h.labels_added (add_messages h.messages_added ids))

abbrev pub next_cursor : Bytes → ℕ → Bytes
next_cursor last hid = if hid == 0 then last else format_uint hid

-- The ids of one page of messages.list.
unfoldable pub page_ids : List (Option Message) → List Bytes
page_ids [] = []
page_ids (none ∷ ms) = page_ids ms
page_ids (some m ∷ ms) = let rest = page_ids ms in if bytes_eq m.id [] then rest else m.id ∷ rest

-- The two halves of ListAllPages's query, joined by a space.
unfoldable pub range_query : Time → Time → Bytes
range_query zero zero = []
range_query zero (suc before) = before_text ++ format_uint (unix_seconds (suc before))
range_query (suc since) zero = after_text ++ format_uint (unix_seconds (suc since))
range_query (suc since) (suc before) =
    after_text
    ++ format_uint (unix_seconds (suc since))
    ++ b' ' ∷ before_text
    ++ format_uint (unix_seconds (suc before))

module _ {e : Env} (g : Gmail e) (user : Uuid) where
  abbrev pub read_history : Bytes → HistoryResponse → List Bytes × Bytes
  read_history last resp = (add_history resp.history [], next_cursor last resp.history_id)

  abbrev pub list_from : Bytes → Option ℕ → M e (List Bytes × Bytes)
  list_from last none w = (err (text []), w)
  list_from last (some start) w =
      and_then (λ resp v. (ok (read_history last resp), v)) (g.history_list user start inbox w)

  unfoldable pub latest_message_ids : Bytes → M e (List Bytes × Bytes)
  latest_message_ids last w = list_from last (parse_uint last) w

  -- `pages` rounds of the loop; a listing that is longer ends in `io`.
  unfoldable pub list_recent_pages : ℕ → Bytes → List Bytes → Bytes → M e (List Bytes)
  list_recent_pages zero query ids token w = (err io, w)
  list_recent_pages (suc pages) query ids token w =
      and_then
        (λ resp v.
          let ids' = ids ++ page_ids resp.messages in
          let rest = list_recent_pages pages query ids' resp.next_page_token v in
          if bytes_eq resp.next_page_token [] then (ok ids', v) else rest)
        (g.messages_list user (inbox ∷ category_personal ∷ []) query token w)

  unfoldable pub list_recent : ℕ → Time → M e (List Bytes)
  list_recent pages since =
      list_recent_pages pages (after_text ++ format_uint (unix_seconds since)) [] []

  -- `page` is the callback, on the variables `s` that it shares with the caller.
  module _ {S : Type 0} (page : S → List Bytes → World e → (Option Error × S) × World e) where
    abbrev pub after_page :
        Bytes
        → (Bytes → S → World e → (Option Error × S) × World e)
        → (Option Error × S) × World e
        → (Option Error × S) × World e
    after_page next again ((some x, s), w) = ((some x, s), w)
    after_page [] again ((none, s), w) = ((none, s), w)
    after_page (b ∷ next) again ((none, s), w) = again (b ∷ next) s w

    abbrev pub on_page :
        S
        → (Bytes → S → World e → (Option Error × S) × World e)
        → Result MessagesPage × World e
        → (Option Error × S) × World e
    on_page s again (err x, w) = ((some x, s), w)
    on_page s again (ok resp, w) =
        after_page resp.next_page_token again (page s (page_ids resp.messages) w)

    unfoldable pub list_all_loop : ℕ → Bytes → Bytes → S → World e → (Option Error × S) × World e
    list_all_loop zero query token s w = ((some io, s), w)
    list_all_loop (suc pages) query token s w =
        on_page s (list_all_loop pages query)
          (g.messages_list user (category_personal ∷ []) query token w)

    unfoldable pub list_all_pages : ℕ → Time → Time → S → World e → (Option Error × S) × World e
    list_all_pages pages since before = list_all_loop pages (range_query since before) []

  abbrev pub or_padded : Bytes → Option Bytes → Result Bytes
  or_padded raw (some plain) = ok plain
  or_padded raw none = elim (g.decode_padded raw) [ none ↦ err (text []) | some plain ↦ ok plain ]

  unfoldable pub fetch_message : Bytes → M e Bytes
  fetch_message id w =
      and_then (λ raw v. (or_padded raw (g.decode_unpadded raw), v)) (g.get_raw user id w)
