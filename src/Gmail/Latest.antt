-- ===== src/Gmail/Latest.antt =====
-- Which ids LatestMessageIDs returns.
use dist_task_queue.Prelude.{
  ℕ, ◌≤◌, ◌≡◌, refl, Bool, true, false, ◌&&◌, ◌||◌, not, Option, none, some, List, [], ◌∷◌, ◌++◌,
  arith, inl, inr,
}
use dist_task_queue.Prelude.Tests.{Bytes, bytes_eq, bytes_eq_iff, Bool-cases, ◌==◌, if◌then◌else◌}
use dist_task_queue.Prelude.Lists.{exists}
use dist_task_queue.Prelude.Decimal.{max_uint64, parse_uint, parse_uint-format_uint}
use dist_task_queue.Services.{Env}
use dist_task_queue.World.{World, ok}
use dist_task_queue.Store.Types.{Uuid}
use dist_task_queue.Gmail.{
  Message, History, HistoryResponse, has_label, add_message, add_messages, add_labelled,
  add_history, inbox, category_personal, latest_message_ids, next_cursor, Gmail,
}

-- Whether a list holds an id, and whether it holds none twice.
abbrev pub has : Bytes → List Bytes → Bool
has id ids = exists (λ i. bytes_eq i id) ids

abbrev pub distinct : List Bytes → Bool
distinct [] = true
distinct (i ∷ ids) = not (has i ids) && distinct ids

-- Whether the message has the id, which is not empty, and the label of the Primary tab.
abbrev pub is_personal : Bytes → Option Message → Bool
is_personal id none = false
is_personal id (some m) =
    bytes_eq m.id id && not (bytes_eq id []) && has_label m.label_ids category_personal

-- Whether an event of the response has such a message: an added message, or one that has got the
-- label INBOX.
abbrev pub reported : Bytes → List History → Bool
reported id hs =
    exists
      (λ h.
        exists (is_personal id) h.messages_added
        || exists (λ a. has_label a.0 inbox && is_personal id a.1) h.labels_added)
      hs

has-snoc :
    (id x : Bytes) (ids : List Bytes) → has id (ids ++ x ∷ []) ≡ (has id ids || bytes_eq x id)
has-snoc id x [] = ground arith
has-snoc id x (i ∷ ids) = ground (arith, has-snoc id x ids)

distinct-snoc :
    (x : Bytes) (ids : List Bytes)
    → distinct ids ≡ true
    → has x ids ≡ false
    → distinct (ids ++ x ∷ []) ≡ true
distinct-snoc x [] h n = refl
distinct-snoc x (i ∷ ids) h n =
    ground (arith, distinct-snoc x ids, has-snoc i x ids, bytes_eq_iff x i, bytes_eq_iff i x)

add_message-distinct :
    (ids : List Bytes) (m : Option Message)
    → distinct ids ≡ true
    → distinct (add_message ids m) ≡ true
unfolding add_message
add_message-distinct ids none h = h
add_message-distinct ids (some m) h = ground (arith, distinct-snoc m.id ids)

add_message-has :
    (id : Bytes) (ids : List Bytes) (m : Option Message)
    → has id (add_message ids m) ≡ (has id ids || is_personal id m)
unfolding add_message
add_message-has id ids none = ground arith
add_message-has id ids (some m) =
    ground
      (arith, has-snoc id m.id ids, bytes_eq_iff m.id id, bytes_eq_iff m.id [], bytes_eq_iff id [])

-- Two loops in a row add what one or the other adds.
add_messages-distinct :
    (ms : List (Option Message)) (ids : List Bytes)
    → distinct ids ≡ true
    → distinct (add_messages ms ids) ≡ true
unfolding add_messages
add_messages-distinct [] ids h = h
add_messages-distinct (m ∷ ms) ids h =
    add_messages-distinct ms (add_message ids m) (add_message-distinct ids m h)

add_messages-has :
    (id : Bytes) (ms : List (Option Message)) (ids : List Bytes)
    → has id (add_messages ms ids) ≡ (has id ids || exists (is_personal id) ms)
unfolding add_messages
add_messages-has id [] ids = ground arith
add_messages-has id (m ∷ ms) ids =
    ground (arith, add_messages-has id ms (add_message ids m), add_message-has id ids m)

add_labelled-distinct :
    (ms : List (List Bytes × Option Message)) (ids : List Bytes)
    → distinct ids ≡ true
    → distinct (add_labelled ms ids) ≡ true
unfolding add_labelled
add_labelled-distinct [] ids h = h
add_labelled-distinct ((labels, m) ∷ ms) ids h =
    add_labelled-distinct ms _ (ground (arith, add_message-distinct ids m h))

add_labelled-has :
    (id : Bytes) (ms : List (List Bytes × Option Message)) (ids : List Bytes)
    → has id (add_labelled ms ids)
      ≡ (has id ids || exists (λ a. has_label a.0 inbox && is_personal id a.1) ms)
unfolding add_labelled
add_labelled-has id [] ids = ground arith
add_labelled-has id ((labels, m) ∷ ms) ids = elim (Bool-cases (has_label labels inbox)) [
  | inl h ↦
      rw (h, add_labelled-has id ms (add_message ids m), add_message-has id ids m) (ground arith)
  | inr h ↦ rw (h, add_labelled-has id ms ids) (ground arith)
]

add_history-distinct :
    (hs : List History) (ids : List Bytes)
    → distinct ids ≡ true
    → distinct (add_history hs ids) ≡ true
unfolding add_history
add_history-distinct [] ids h = h
add_history-distinct (x ∷ hs) ids h =
    add_history-distinct hs _
      (add_labelled-distinct x.labels_added _ (add_messages-distinct x.messages_added ids h))

add_history-has :
    (id : Bytes) (hs : List History) (ids : List Bytes)
    → has id (add_history hs ids) ≡ (has id ids || reported id hs)
unfolding add_history
add_history-has id [] ids = ground arith
add_history-has id (x ∷ hs) ids =
    rw
      (
        add_history-has id hs (add_labelled x.labels_added (add_messages x.messages_added ids)),
        add_labelled-has id x.labels_added (add_messages x.messages_added ids),
        add_messages-has id x.messages_added ids,
      )
      (ground arith)

-- If the cursor is a number and the request is answered with a history id of 64 bits,
-- LatestMessageIDs succeeds. Its ids hold no id twice, and hold an id exactly if an event of the
-- response has a message of that id, which is not empty, in the Primary tab: an added message, or one
-- that has got the label INBOX. Its new cursor is a number again: that of the response, or the old one
-- if the response has 0.
pub latest_message_ids_lem :
    {e : Env} (g : Gmail e) (user : Uuid) (last : Bytes) (start : ℕ) (w v : World e)
    (resp : HistoryResponse)
    → parse_uint last ≡ some start
    → g.history_list user start inbox w ≡ (ok resp, v)
    → resp.history_id ≤ max_uint64
    → (ids : List Bytes) × (cursor : Bytes) × (latest_message_ids g user last w
        ≡ (ok (ids, cursor), v))
      × (distinct ids ≡ true)
      × ((id : Bytes) → has id ids ≡ reported id resp.history)
      × (parse_uint cursor ≡ some (if resp.history_id == 0 then start else resp.history_id))
unfolding latest_message_ids
latest_message_ids_lem g user last start w v resp hp hr fits = (
  add_history resp.history [],
  next_cursor last resp.history_id,
  rw (hp, hr) refl,
  add_history-distinct resp.history [] refl,
  λ id. add_history-has id resp.history [],
  ground (arith, parse_uint-format_uint resp.history_id fits),
)
