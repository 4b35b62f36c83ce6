-- ===== src/Store/Accounts.antt =====
-- internal/store/users.go, oauth.go and gmail_sync.go: users, their tokens and their Gmail cursors.
use dist_task_queue.Prelude.{Bool, ◌&&◌, ◌||◌, Option, none, some, List, [], ◌∷◌, ◌++◌}
use dist_task_queue.Prelude.Tests.{Bytes, bytes_eq, leb, ◌==◌, if◌then◌else◌}
use dist_task_queue.Prelude.Lists.{exists}
use dist_task_queue.Services.{Env}
use dist_task_queue.World.{M, Result, ok, err, user_not_found, oauth_token_not_found, constraint}
use dist_task_queue.Store.Types.{Uuid, Time, User, OAuthToken, SyncState, Db, to_micros}
use dist_task_queue.Store.Jobs.{run, query, user_known}

-- ORDER BY created_at, by insertion.
unfoldable pub insert_by_age : User → List User → List User
insert_by_age u [] = u ∷ []
insert_by_age u (v ∷ vs) =
    if leb u.created_at v.created_at then u ∷ v ∷ vs else v ∷ insert_by_age u vs

unfoldable pub by_age : List User → List User
by_age [] = []
by_age (u ∷ us) = insert_by_age u (by_age us)

unfoldable pub find_user : Bytes → List User → Option User
find_user email [] = none
find_user email (u ∷ us) = if bytes_eq u.email email then some u else find_user email us

-- users.email is UNIQUE.
unfoldable pub insert_user : Uuid → Bytes → Time → Db → Result User × Db
insert_user id email now db =
    let u : User = record { id = id; email = email; created_at = now } in
    if exists (λ (v : User). v.id == id || bytes_eq v.email email) db.users
    then (err constraint, db)
    else (ok u, record db { users = db.users ++ u ∷ [] })

abbrev pub is_token_of : Uuid → Bytes → OAuthToken → Bool
is_token_of u provider t = t.user_id == u && bytes_eq t.provider provider

unfoldable pub find_token : Uuid → Bytes → List OAuthToken → Option OAuthToken
find_token u p [] = none
find_token u p (t ∷ ts) = if is_token_of u p t then some t else find_token u p ts

-- INSERT … ON CONFLICT (user_id, provider) DO UPDATE
unfoldable pub upsert_token : OAuthToken → List OAuthToken → List OAuthToken
upsert_token t [] = t ∷ []
upsert_token t (u ∷ us) =
    if is_token_of t.user_id t.provider u then t ∷ us else u ∷ upsert_token t us

unfoldable pub find_cursor : Uuid → List SyncState → Option Bytes
find_cursor u [] = none
find_cursor u (s ∷ ss) = if s.user_id == u then some s.history_id else find_cursor u ss

-- INSERT … ON CONFLICT (user_id) DO UPDATE
unfoldable pub upsert_cursor : SyncState → List SyncState → List SyncState
upsert_cursor s [] = s ∷ []
upsert_cursor s (r ∷ rs) = if r.user_id == s.user_id then s ∷ rs else r ∷ upsert_cursor s rs

unfoldable pub save_token_stmt : OAuthToken → Time → Db → Result (Unit {0}) × Db
save_token_stmt t now db =
    if user_known (some t.user_id) db.users
    then (
      ok tt,
      record db {
        oauth_tokens =
            upsert_token (record t { expires_at = to_micros t.expires_at; updated_at = now })
              db.oauth_tokens;
      },
    )
    else (err constraint, db)

unfoldable pub set_cursor_stmt : Uuid → Bytes → Time → Db → Result (Unit {0}) × Db
set_cursor_stmt u hid now db =
    let row : SyncState = record { user_id = u; history_id = hid; updated_at = now } in
    if user_known (some u) db.users
    then (ok tt, record db { gmail_sync_state = upsert_cursor row db.gmail_sync_state })
    else (err constraint, db)

abbrev pub or_no_user : Option User → Result User
or_no_user none = err user_not_found
or_no_user (some u) = ok u

abbrev or_no_token : Option OAuthToken → Result OAuthToken
or_no_token none = err oauth_token_not_found
or_no_token (some t) = ok t

-- No row reads as "".
abbrev cursor_text : Option Bytes → Bytes
cursor_text none = []
cursor_text (some hid) = hid

module _ (e : Env) where
  unfoldable pub create_user : Bytes → M e User
  create_user email w = run e (λ now. insert_user (e.new_uuid w.calls) email now) w

  unfoldable pub get_user_by_email : Bytes → M e User
  get_user_by_email email = run e λ now db. (or_no_user (find_user email db.users), db)

  unfoldable pub list_users : M e (List User)
  list_users = query e λ now db. by_age db.users

  unfoldable pub save_oauth_token : OAuthToken → M e (Unit {0})
  save_oauth_token t = run e (save_token_stmt t)

  unfoldable pub get_oauth_token : Uuid → Bytes → M e OAuthToken
  get_oauth_token u p = run e λ now db. (or_no_token (find_token u p db.oauth_tokens), db)

  unfoldable pub get_gmail_sync_state : Uuid → M e Bytes
  get_gmail_sync_state u = query e λ now db. cursor_text (find_cursor u db.gmail_sync_state)

  unfoldable pub set_gmail_sync_state : Uuid → Bytes → M e (Unit {0})
  set_gmail_sync_state u hid = run e (set_cursor_stmt u hid)
