-- ===== src/Tests/Mail.antt =====
-- The theorems on mail, tokens, names and the API at concrete inputs.
use dist_task_queue.Prelude.{
  ◌+◌, ◌-◌, ◌*◌, ◌≤◌, ◌≡◌, refl, true, false, not, none, some, List, [], ◌∷◌, arith,
}
use dist_task_queue.Prelude.Tests.{Bytes, bytes_eq, ◌==◌, if◌then◌else◌}
use dist_task_queue.Prelude.Lists.{length, All}
use dist_task_queue.Prelude.Decimal.{parse_uint}
use dist_task_queue.Services.Memory.{calm_env, lrange, list_at}
use dist_task_queue.World.{ok, tick, call}
use dist_task_queue.Store.Jobs.{
  user_known, has_job_for_message, enqueue_job, insert_stmt, insert_row, clash, indexed,
}
use dist_task_queue.Store.Invariant.{InvW}
use dist_task_queue.Queue.{push, depth}
use dist_task_queue.Queue.Moves.{waiting}
use dist_task_queue.Oauth.{
  Aead, Token, encrypt_token, decrypt_token, bearer, google, load_token, save_token,
}
use dist_task_queue.Oauth.Stored.{load_token-save_token}
use dist_task_queue.Oauth.RoundTrip.{decrypt_token-encrypt_token}
use dist_task_queue.Gmail.{
  Gmail, Message, HistoryResponse, latest_message_ids, inbox, category_personal,
}
use dist_task_queue.Gmail.Latest.{distinct, has, reported, latest_message_ids_lem}
use dist_task_queue.Gmail.Keeps.{Keeps}
use dist_task_queue.Scheduler.{fetch_stage}
use dist_task_queue.Backfill.{
  FullConfig, enqueue_one, enqueue_all, nothing_done, wait_for_queue_depth,
}
use dist_task_queue.Backfill.Wait.{wait_for_queue_depth_lem}
use dist_task_queue.Backfill.Once.{enqueue_one_again}
use dist_task_queue.Api.RateLimit.{new_token_bucket}
use dist_task_queue.Api.Bound.{allowed, served, allowed_bound}
use dist_task_queue.Store.Types.{Time, to_micros}
use dist_task_queue.Api.Batch.{enqueue_synthetic_lem}
use dist_task_queue.Api.Demo.{enqueue_synthetic, test_stage}
use dist_task_queue.Handlers.Escape.{html_escape, Inert, html_escape_lem}
use dist_task_queue.Handlers.Paths.{Unicode, sanitize_filename}
use dist_task_queue.Handlers.Filename.{Component, sanitize_filename-Component}
use dist_task_queue.Tests.{tables, calm, alice, bob, start}

-- A cipher that leaves the text as it is.
abbrev pub plain_aead : Aead
plain_aead = record {
  nonce_size = 1;
  seal = λ key nonce s. s;
  open_sealed = λ key nonce s. some s;
  open-seal = λ key nonce s. refl;
}

abbrev pub key_32 : Bytes
key_32 =
    1 ∷ 2 ∷ 3 ∷ 4 ∷ 5 ∷ 6 ∷ 7 ∷ 8 ∷ 1 ∷ 2 ∷ 3 ∷ 4 ∷ 5 ∷ 6 ∷ 7 ∷ 8 ∷ 1 ∷ 2 ∷ 3 ∷ 4 ∷ 5 ∷ 6 ∷ 7 ∷ 8
    ∷ 1 ∷ 2 ∷ 3 ∷ 4 ∷ 5 ∷ 6 ∷ 7 ∷ 8 ∷ []

abbrev pub access : Token
access = record { access_token = alice; refresh_token = bob; token_type = []; expiry = 1234567 }

decrypt_token-encrypt_token_example :
    (a : Bytes) × (r : Bytes) × (encrypt_token plain_aead
        (some (0 ∷ []), some (1 ∷ []))
        access
        key_32
      ≡ ok (a, r))
    × (decrypt_token plain_aead a r 1234567 key_32 ≡ ok (record access { token_type = bearer }))
decrypt_token-encrypt_token_example =
    decrypt_token-encrypt_token plain_aead key_32 refl (0 ∷ []) (1 ∷ []) access refl refl

-- A mailbox with one message, reported twice.
abbrev message : Message
message = record { id = bob; label_ids = category_personal ∷ [] }

abbrev response : HistoryResponse
response = record {
  history =
      record {
        messages_added = some message ∷ none ∷ [];
        labels_added = (inbox ∷ [], some message) ∷ [];
      }
      ∷ [];
  history_id = 51;
}

abbrev pub mailbox : Gmail calm_env
mailbox = record {
  open_client = λ u w. (ok tt, w);
  history_list = λ u start l w. (ok response, w);
  messages_list =
      λ u ls q t w. (ok (record { messages = some message ∷ []; next_page_token = [] }), w);
  get_raw = λ u id w. (ok [], w);
  get_profile = λ u w. (ok 50, w);
  decode_unpadded = λ s. some s;
  decode_padded = λ s. some s;
}

pub mailbox-Keeps : Keeps mailbox (InvW calm_env)
mailbox-Keeps = record {
  open_client = λ u w v. v;
  history_list = λ u start l w v. v;
  messages_list = λ u ls q t w v. v;
  get_profile = λ u w v. v;
}

parsed_50 : parse_uint (b'5' ∷ b'0' ∷ []) ≡ some 50
unfolding parse_uint
parsed_50 = refl

latest_message_ids_lem_example :
    (ids : List Bytes) × (cursor : Bytes) × (latest_message_ids mailbox 1 (b'5' ∷ b'0' ∷ []) start
      ≡ (ok (ids, cursor), start))
    × (distinct ids ≡ true)
    × ((id : Bytes) → has id ids ≡ reported id response.history)
    × (parse_uint cursor ≡ some (if 51 == 0 then 50 else 51))
latest_message_ids_lem_example =
    latest_message_ids_lem mailbox 1 (b'5' ∷ b'0' ∷ []) 50 start start response parsed_50 refl
      (omega arith)

abbrev archive : FullConfig
archive = record { email = b'u' ∷ []; since = 0; before = 0; max_queue_depth = 0 }

enqueued_new : (enqueue_one mailbox 1 bob start).0 ≡ ok true
unfolding enqueue_one has_job_for_message enqueue_job insert_stmt insert_row clash indexed bytes_eq
    call push
enqueued_new = refl

enqueue_one_again_example :
    enqueue_one mailbox 1 bob (enqueue_one mailbox 1 bob start).1
    ≡ (ok false, tick calm_env (enqueue_one mailbox 1 bob start).1)
enqueue_one_again_example = enqueue_one_again mailbox 1 bob start enqueued_new refl

counted_all : (enqueue_all mailbox 1 (bob ∷ alice ∷ []) (nothing_done mailbox) start).0.0 ≡ none
unfolding enqueue_all enqueue_one has_job_for_message enqueue_job insert_stmt insert_row clash
    indexed bytes_eq call push
counted_all = refl

-- Alice spends her burst before.
abbrev earlier : List (Bytes × Time)
earlier = (alice, 1) ∷ (alice, 1) ∷ []

allowed_bound_example :
    allowed alice
        ((alice, 21) ∷ (bob, 22) ∷ (alice, 25) ∷ [])
        (served earlier (new_token_bucket 10 2))
      * 10
    ≤ 2 * 10 + (30 - 20)
allowed_bound_example =
    allowed_bound alice earlier ((alice, 21) ∷ (bob, 22) ∷ (alice, 25) ∷ []) 10 2 0 20 30
      (omega arith) (omega arith, (omega arith, omega arith))
      (omega arith, (omega arith, (omega arith, omega arith)))

enqueue_synthetic_lem_example :
    let (reported, v) = enqueue_synthetic calm_env test_stage 3 alice start in
    (reported ≤ 3)
    × (2 + reported ≤ length v.db.jobs)
    × (length v.db.jobs ≤ 2 + 3)
    × (length (waiting test_stage start) + reported ≤ length (waiting test_stage v))
    × (length (waiting test_stage v) ≤ length (waiting test_stage start) + 3)
enqueue_synthetic_lem_example = enqueue_synthetic_lem calm_env test_stage 3 alice start

html_escape_lem_example :
    All Inert (html_escape (b'<' ∷ []))
    × ((t : Bytes) → html_escape (b'<' ∷ []) ≡ html_escape t → b'<' ∷ [] ≡ t)
html_escape_lem_example = html_escape_lem (b'<' ∷ [])

-- Texts of single bytes, with nothing to trim.
abbrev pub latin : Unicode
latin = record {
  runes = λ s. s;
  encode = λ r. r ∷ [];
  trim_space = λ s. s;
  to_lower = λ s. s;
  is_space = λ r. r == b' ';
  is_letter = λ r. not (r == b' ');
  is_digit = λ r. false;
  encode_ascii = λ r h. refl;
  encode_wide = λ r h. (h, tt);
}

sanitize_filename-Component_example :
    Component (sanitize_filename latin (b'.' ∷ b'.' ∷ b'/' ∷ b'a' ∷ []))
sanitize_filename-Component_example =
    sanitize_filename-Component latin (b'.' ∷ b'.' ∷ b'/' ∷ b'a' ∷ [])

empty_queue : (wait_for_queue_depth mailbox 1 (λ n. false) 500 start).0 ≡ none
unfolding wait_for_queue_depth depth call lrange list_at
empty_queue = refl

wait_for_queue_depth_lem_example :
    length (waiting fetch_stage (wait_for_queue_depth mailbox 1 (λ n. false) 500 start).1) ≤ 500
wait_for_queue_depth_lem_example =
    wait_for_queue_depth_lem mailbox 500 1 (λ n. false) start empty_queue

pub user_1 : user_known (some 1) tables.users ≡ true
user_1 = refl

load_token-save_token_example :
    ((save_token plain_aead calm_env (some (0 ∷ []), some (1 ∷ [])) 1 key_32 google access start).0
      ≡ ok tt)
    × ((load_token plain_aead calm_env 1 key_32 google
          (save_token plain_aead calm_env
            (some (0 ∷ []), some (1 ∷ []))
            1
            key_32
            google
            access
            start).1).0
        ≡ ok (record access { token_type = bearer; expiry = 1234000 }))
unfolding to_micros
load_token-save_token_example =
    load_token-save_token plain_aead calm 1 key_32 google (0 ∷ []) (1 ∷ []) access start refl refl
      refl user_1
