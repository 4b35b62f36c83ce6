-- ===== src/Oauth/Stored.antt =====
-- SaveToken and LoadToken of internal/oauth/token.go.
use dist_task_queue.Prelude.{◌≡◌, refl, ◌∙◌, true, some, List, [], ◌∷◌, arith, inl, inr}
use dist_task_queue.Prelude.Tests.{Bytes, Bool-cases, ==_iff, bytes_eq_refl}
use dist_task_queue.Prelude.Lists.{length}
use dist_task_queue.Services.{Env}
use dist_task_queue.World.{World, Calm, Result, ok, err, and_then, call_fine}
use dist_task_queue.Store.Types.{Uuid, OAuthToken, to_micros}
use dist_task_queue.Store.Jobs.{user_known}
use dist_task_queue.Store.Accounts.{
  is_token_of, find_token, upsert_token, save_token_stmt, save_oauth_token, get_oauth_token,
}
use dist_task_queue.Oauth.{
  Aead, Token, encrypt_token, decrypt_token, load_token, save_token, save_encrypted, bearer,
  key_size,
}
use dist_task_queue.Oauth.RoundTrip.{decrypt_token-encrypt_token}

is_token_of_self : (t : OAuthToken) → is_token_of t.user_id t.provider t ≡ true
is_token_of_self t = ground (arith, bytes_eq_refl t.provider, ==_iff t.user_id t.user_id)

find_token-upsert_token :
    (t : OAuthToken) (ts : List OAuthToken)
    → find_token t.user_id t.provider (upsert_token t ts) ≡ some t
unfolding find_token upsert_token
find_token-upsert_token t [] = rw (is_token_of_self t) refl
find_token-upsert_token t (u ∷ us) = elim (Bool-cases (is_token_of t.user_id t.provider u)) [
  | inl same ↦ rw (same, find_token, is_token_of_self t) refl
  | inr other ↦ rw (other, find_token, other) (find_token-upsert_token t us)
]

module _ {e : Env} (calm : Calm e) (t : OAuthToken) (w : World e)
    (known : user_known (some t.user_id) w.db.users ≡ true) where
  saved_ok : (save_oauth_token e t w).0 ≡ ok tt
  unfolding save_oauth_token save_token_stmt
  saved_ok = rw (call_fine e _ w (calm _), known) refl

  saved_found :
      (get_oauth_token e t.user_id t.provider (save_oauth_token e t w).1).0
      ≡ ok (record t { expires_at = to_micros t.expires_at; updated_at = e.now w.calls })
  unfolding save_oauth_token get_oauth_token save_token_stmt
  saved_found =
      rw
        (
          call_fine e _ (save_oauth_token e t w).1 (calm _),
          call_fine e _ w (calm _),
          known,
          find_token-upsert_token
              (record t { expires_at = to_micros t.expires_at; updated_at = e.now w.calls })
              w.db.oauth_tokens,
        )
        refl

module _ (a : Aead) {e : Env} (calm : Calm e) (user : Uuid) (key provider : Bytes) where
  loaded :
      (rec : OAuthToken) (w : World e)
      → (get_oauth_token e user provider w).0 ≡ ok rec
      → (load_token a e user key provider w).0
        ≡ decrypt_token a rec.access_ct rec.refresh_ct rec.expires_at key
  unfolding load_token
  loaded rec w = by_row (get_oauth_token e user provider w)
    where
      by_row :
          (r : Result OAuthToken × World e)
          → r.0 ≡ ok rec
          → (and_then
              (λ row v. (decrypt_token a row.access_ct row.refresh_ct row.expires_at key, v))
              r).0
            ≡ decrypt_token a rec.access_ct rec.refresh_ct rec.expires_at key
      by_row (ok row, v) h = cc
      by_row (err x, v) h = cc

  -- Where no call fails, the user exists, the key has 32 bytes and both nonces the cipher's size,
  -- SaveToken succeeds, and LoadToken behind it gives the token back, as one of type "Bearer" and with
  -- its expiry in whole microseconds.
  pub load_token-save_token :
      (n m : Bytes) (t : Token) (w : World e)
      → length key ≡ key_size
      → length n ≡ a.nonce_size
      → length m ≡ a.nonce_size
      → user_known (some user) w.db.users ≡ true
      → ((save_token a e (some n, some m) user key provider t w).0 ≡ ok tt)
        × ((load_token a e user key provider
              (save_token a e (some n, some m) user key provider t w).1).0
            ≡ ok (record t { token_type = bearer; expiry = to_micros t.expiry }))
  unfolding save_token save_encrypted encrypt_token
  load_token-save_token n m t w size hn hm known =
      let (access, refresh, sealed, opened) =
        decrypt_token-encrypt_token a key size n m (record t { expiry = to_micros t.expiry }) hn
          hm in
      let row : OAuthToken = record {
        user_id = user;
        provider = provider;
        access_ct = access;
        refresh_ct = refresh;
        expires_at = t.expiry;
        updated_at = 0;
      } in
      rw sealed (
        saved_ok calm row w known,
        loaded (record row { expires_at = to_micros t.expiry; updated_at = e.now w.calls })
              (save_oauth_token e row w).1 (saved_found calm row w known)
            ∙ opened,
      )
