-- ===== src/Oauth.antt =====
-- internal/oauth/crypto.go and internal/oauth/token.go.
pub mod RoundTrip
pub mod Stored
use dist_task_queue.Prelude.{ℕ, ◌+◌, ◌≡◌, Option, none, some, List, [], ◌∷◌, ◌++◌}
use dist_task_queue.Prelude.Tests.{Bytes, bytes_eq, ltb, ◌==◌, if◌then◌else◌}
use dist_task_queue.Prelude.Lists.{length, take, drop}
use dist_task_queue.Services.{Env}
use dist_task_queue.World.{
  World, M, Result, ok, err, io, invalid_key, short_ciphertext, open_failed, and_then, ◌>>=◌,
}
use dist_task_queue.Store.Types.{Uuid, Time, OAuthToken}
use dist_task_queue.Store.Accounts.{get_oauth_token, save_oauth_token}

-- AES-GCM of crypto/cipher without additional data: key, nonce, text. A key of 32 bytes is a key of
-- AES, so aes.NewCipher and cipher.NewGCM do not fail behind the test of the key's length.
pub record Aead : Type 0 where
  pub nonce_size : ℕ
  pub seal : Bytes → Bytes → Bytes → Bytes
  pub open_sealed : Bytes → Bytes → Bytes → Option Bytes
  pub open-seal : (key nonce text : Bytes) → open_sealed key nonce (seal key nonce text) ≡ some text

-- oauth2.Token.
pub record Token : Type 0 where
  pub access_token : Bytes
  pub refresh_token : Bytes
  pub token_type : Bytes
  pub expiry : Time

abbrev pub key_size : ℕ
key_size = 32

-- "Bearer"
abbrev pub bearer : Bytes
bearer = b'B' ∷ b'e' ∷ b'a' ∷ b'r' ∷ b'e' ∷ b'r' ∷ []

-- "google"
abbrev pub google : Bytes
google = b'g' ∷ b'o' ∷ b'o' ∷ b'g' ∷ b'l' ∷ b'e' ∷ []

abbrev pub or_open_failed : Option Bytes → Result Bytes
or_open_failed none = err open_failed
or_open_failed (some text) = ok text

module _ (a : Aead) where
  -- `none` is a failure of io.ReadFull on rand.Reader.
  abbrev pub sealed : Bytes → Bytes → Option Bytes → Result Bytes
  sealed text key none = err io
  sealed text key (some nonce) = ok (nonce ++ a.seal key nonce text)

  unfoldable pub encrypt : Option Bytes → Bytes → Bytes → Result Bytes
  encrypt nonce text key = if length key == key_size then sealed text key nonce else err invalid_key

  unfoldable pub decrypt : Bytes → Bytes → Result Bytes
  decrypt ct key =
      if length key == key_size
      then (if ltb (length ct) a.nonce_size
          then err short_ciphertext
          else or_open_failed (a.open_sealed key (take a.nonce_size ct) (drop a.nonce_size ct)))
      else err invalid_key

  abbrev pub with_refresh : Bytes → Result Bytes → Result (Bytes × Bytes)
  with_refresh access (err x) = err x
  with_refresh access (ok refresh) = ok (access, refresh)

  abbrev pub with_access : Result Bytes → Result Bytes → Result (Bytes × Bytes)
  with_access refresh (err x) = err x
  with_access refresh (ok access) = with_refresh access refresh

  -- The nonces of the two calls of Encrypt, as rand.Reader gives them.
  unfoldable pub encrypt_token :
      Option Bytes × Option Bytes → Token → Bytes → Result (Bytes × Bytes)
  encrypt_token nonces t key =
      with_access (encrypt nonces.1 t.refresh_token key) (encrypt nonces.0 t.access_token key)

  abbrev pub token_of : Time → Result (Bytes × Bytes) → Result Token
  token_of expiry (err x) = err x
  token_of expiry (ok (access, refresh)) = ok (record {
    access_token = access;
    refresh_token = refresh;
    token_type = bearer;
    expiry = expiry;
  })

  unfoldable pub decrypt_token : Bytes → Bytes → Time → Bytes → Result Token
  decrypt_token access refresh expiry key =
      token_of expiry (with_access (decrypt refresh key) (decrypt access key))

  module _ (e : Env) where
    unfoldable pub load_token : Uuid → Bytes → Bytes → M e Token
    load_token user key provider = do
      rec ← get_oauth_token e user provider
      λ w. (decrypt_token rec.access_ct rec.refresh_ct rec.expires_at key, w)

    unfoldable pub save_encrypted : Uuid → Bytes → Time → Result (Bytes × Bytes) → M e (Unit {0})
    save_encrypted user provider expiry (err x) w = (err x, w)
    save_encrypted user provider expiry (ok (access, refresh)) w =
        save_oauth_token e
          (record {
            user_id = user;
            provider = provider;
            access_ct = access;
            refresh_ct = refresh;
            expires_at = expiry;
            updated_at = 0;
          })
          w

    unfoldable pub save_token :
        Option Bytes × Option Bytes → Uuid → Bytes → Bytes → Token → M e (Unit {0})
    save_token nonces user key provider t =
        save_encrypted user provider t.expiry (encrypt_token nonces t key)

-- savingSource: it holds the last token seen.
module _ (e : Env) (save : Token → M e (Unit {0})) where
  abbrev pub on_saved :
      Token → Option Token → Result (Unit {0}) × World e → (Result Token × Option Token) × World e
  on_saved t last (err x, w) = ((err x, last), w)
  on_saved t last (ok u, w) = ((ok t, some t), w)

  abbrev pub on_token :
      Option Token → Result Token × World e → (Result Token × Option Token) × World e
  on_token last (err x, w) = ((err x, last), w)
  on_token none (ok t, w) = on_saved t none (save t w)
  on_token (some l) (ok t, w) =
      if bytes_eq t.access_token l.access_token
      then ((ok t, some l), w)
      else on_saved t (some l) (save t w)

  unfoldable pub saving_token :
      M e Token → Option Token → World e → (Result Token × Option Token) × World e
  saving_token base last w = on_token last (base w)
