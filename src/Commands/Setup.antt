-- ===== src/Commands/Setup.antt =====
-- cmd/oauth-setup/main.go.
use dist_task_queue.Prelude.{
  ◌≡◌, ◌≢◌, refl, sym, ap, subst, ◌∙◌, inl, inr, true, ◌||◌, Option, some, List, [], ◌∷◌, ◌++◌,
  arith,
}
use dist_task_queue.Prelude.Tests.{Bytes, bytes_eq, ◌==◌, Bool-cases, Option-cases, if◌then◌else◌}
use dist_task_queue.Prelude.Lists.{length, exists}
use dist_task_queue.Services.{Env}
use dist_task_queue.World.{
  World, M, Result, ok, err, Error, text, io, user_not_found, and_then, and_then_ok, Calm,
  call_fine, ◌>>=◌,
}
use dist_task_queue.Store.Types.{Uuid, Time, User, Db, to_micros}
use dist_task_queue.Store.Jobs.{user_known}
use dist_task_queue.Store.Accounts.{
  or_no_user, find_user, insert_user, create_user, get_user_by_email,
}
use dist_task_queue.Oauth.{Aead, Token, key_size, bearer, google, load_token, save_token}
use dist_task_queue.Commands.{Host, Start, starts, starting, exit_unless, must_env, load_google_key}
use dist_task_queue.Commands.Daemons.{email_flag}
use dist_task_queue.Commands.Words.{database_url}
use dist_task_queue.Oauth.Stored.{load_token-save_token}

-- The parameters `state` and `code` of a request for /callback.
pub record Callback : Type 0 where
  pub state : Bytes
  pub code : Bytes

-- What the select ends with: the first callback, a server that does not listen, or five minutes.
pub data Waited : Type 0 where
  called : Callback → Waited
  not_listening timed_out : Waited

-- The handler of /callback: the code, or an error.
unfoldable pub on_callback : Bytes → Callback → Result Bytes
on_callback state c =
    if bytes_eq c.state state
    then (if bytes_eq c.code [] then err (text []) else ok c.code)
    else err (text [])

abbrev pub await_code : Bytes → Waited → Result Bytes
await_code state (called c) = on_callback state c
await_code state not_listening = err io
await_code state timed_out = err (text [])

module _ {e : Env} where
  -- A user that is not found is made.
  abbrev pub or_create : Bytes → Result User × World e → Result User × World e
  or_create email (ok u, w) = (ok u, w)
  or_create email (err user_not_found, w) = create_user e email w
  or_create email (err x, w) = (err x, w)

  unfoldable pub ensure_user : Bytes → M e User
  ensure_user email w = or_create email (get_user_by_email e email w)

module _ (a : Aead) (e : Env) (nonces : Option Bytes × Option Bytes) where
  -- Behind the exchange: the user of the token.
  unfoldable pub store_token : Bytes → Bytes → Token → M e Uuid
  store_token email key t = ensure_user email >>= λ u w.
      and_then (λ done v. (ok u.id, v)) (save_token a e nonces u.id key google t w)

  -- main behind the waiting; `exchange` is oauth2.Config.Exchange.
  unfoldable pub finish_setup : (Bytes → M e Token) → Bytes → Bytes → Bytes → Waited → M e Uuid
  finish_setup exchange email key state waited w =
      and_then (λ code. exchange code >>= store_token email key) (await_code state waited, w)

-- main up to the printing of the URL: the key.
unfoldable pub setup_start : Host → Bytes → Start Bytes
setup_start h email = starting (email_flag email) λ address.
    starting (must_env h database_url) λ dsn. starting (load_google_key h) λ key.
      starting (exit_unless (h.migrates dsn) 1)
        λ m. starting (exit_unless (h.connects dsn) 1) λ p. starts key

one_user : {u v : User} → some u ≡ some v → u ≡ v
one_user h = cc

one_ok : {u v : User} → ok u ≡ ok v → u ≡ v
one_ok h = cc

one_id : {u v : Uuid} → ok u ≡ ok v → u ≡ v
one_id h = cc

failed : {x : Error} (u : User) → err x ≢ ok u
failed u h = cc

find_user-known :
    (email : Bytes) (us : List User) (u : User)
    → find_user email us ≡ some u
    → user_known (some u.id) us ≡ true
unfolding find_user
find_user-known email [] u h = cc
find_user-known email (v ∷ us) u h = elim (Bool-cases (bytes_eq v.email email)) [
  | inl found ↦
      let same : v ≡ u = one_user (rw found at h) in
      let ids : v.id ≡ u.id = ap (λ (x : User). x.id) same in ground (arith, ids)
  | inr other ↦ let later = find_user-known email us u (rw other at h) in ground (arith, later)
]

last_known : (us : List User) (u : User) → user_known (some u.id) (us ++ u ∷ []) ≡ true
last_known [] u = ground arith
last_known (v ∷ us) u = let later = last_known us u in ground (arith, later)

insert_user-known :
    (id : Uuid) (email : Bytes) (now : Time) (db : Db) (u : User)
    → (insert_user id email now db).0 ≡ ok u
    → user_known (some u.id) (insert_user id email now db).1.users ≡ true
unfolding insert_user
insert_user-known id email now db u h =
    elim (Bool-cases (exists (λ (v : User). v.id == id || bytes_eq v.email email) db.users)) [
      | inl clash ↦ absurd (failed u (rw clash at h))
      | inr free ↦ let same = one_ok (rw free at h) in rw (free, sym same) (last_known db.users _)
    ]

module _ {e : Env} (calm : Calm e) (email : Bytes) where
  create_user-known :
      (w : World e) (u : User)
      → (create_user e email w).0 ≡ ok u
      → user_known (some u.id) (create_user e email w).1.db.users ≡ true
  unfolding create_user
  create_user-known w u h =
      let run =
        call_fine e
          (λ now v. (
            (insert_user (e.new_uuid w.calls) email now v.db).0,
            record v { db = (insert_user (e.new_uuid w.calls) email now v.db).1 },
          ))
          w (calm _) in
      rw run (insert_user-known (e.new_uuid w.calls) email (e.now w.calls) w.db u (rw run at h))

  ensure_user-known :
      (w : World e) (u : User)
      → (ensure_user email w).0 ≡ ok u
      → user_known (some u.id) (ensure_user email w).1.db.users ≡ true
  unfolding ensure_user get_user_by_email
  ensure_user-known w u h =
      let run = call_fine e (λ now v. (or_no_user (find_user email v.db.users), v)) w (calm _) in
      elim (Option-cases (find_user email w.db.users)) [
        | inl none_there ↦ rw (run, none_there) (create_user-known _ u (rw (run, none_there) at h))
        | inr (v, found) ↦
            let same : v ≡ u = one_ok (rw (run, found) at h) in
            rw (run, found)
              (subst (λ (x : User). user_known (some x.id) w.db.users ≡ true) same
                (find_user-known email w.db.users v found))
      ]

  module _ (a : Aead) (n m : Bytes) (key : Bytes) (size : length key ≡ key_size)
      (hn : length n ≡ a.nonce_size) (hm : length m ≡ a.nonce_size) where
    -- Where no call fails, the key has 32 bytes and both nonces the cipher's size: if the setup stores
    -- a token and gives a user, then LoadToken for that user gives the token, as one of type
    -- "Bearer" and with its expiry in whole microseconds.
    pub load_token-store_token :
        (t : Token) (w : World e) (user : Uuid)
        → (store_token a e (some n, some m) email key t w).0 ≡ ok user
        → (load_token a e user key google (store_token a e (some n, some m) email key t w).1).0
          ≡ ok (record t { token_type = bearer; expiry = to_micros t.expiry })
    unfolding store_token
    load_token-store_token t w user h =
        let store : User → M e Uuid = λ u w.
          and_then (λ done v. (ok u.id, v)) (save_token a e (some n, some m) u.id key google t w) in
        let (u, found, behind) = and_then_ok store (ensure_user email w) user h in
        let v = (ensure_user email w).1 in
        let (saved, loaded) =
          load_token-save_token a calm u.id key google n m t v size hn hm
            (ensure_user-known w u found) in
        let stored : store u v
            ≡ (ok u.id, (save_token a e (some n, some m) u.id key google t v).1) =
          rw saved refl in
        let same : u.id ≡ user = one_id (ap (λ r. r.0) (sym (behind ∙ stored)) ∙ h) in
        rw (behind, stored, sym same) loaded
