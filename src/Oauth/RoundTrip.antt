-- ===== src/Oauth/RoundTrip.antt =====
-- EncryptToken and DecryptToken of internal/oauth/token.go.
use dist_task_queue.Prelude.{◌≡◌, refl, sym, some, [], ◌∷◌, ◌++◌, arith, false}
use dist_task_queue.Prelude.Tests.{Bytes, ltb}
use dist_task_queue.Prelude.Lists.{length, take, drop, length-append}
use dist_task_queue.World.{ok}
use dist_task_queue.Oauth.{
  Aead, Token, encrypt, decrypt, encrypt_token, decrypt_token, bearer, key_size,
}

take-append : (xs ys : Bytes) → take (length xs) (xs ++ ys) ≡ xs
take-append [] ys = refl
take-append (x ∷ xs) ys = rw (take-append xs ys) refl

drop-append : (xs ys : Bytes) → drop (length xs) (xs ++ ys) ≡ ys
drop-append [] ys = refl
drop-append (x ∷ xs) ys = drop-append xs ys

long_enough : (xs ys : Bytes) → ltb (length (xs ++ ys)) (length xs) ≡ false
long_enough xs ys = ground (arith, length-append xs ys)

module _ (a : Aead) (key : Bytes) (size : length key ≡ key_size) where
  sealed_form :
      (nonce text : Bytes) → encrypt a (some nonce) text key ≡ ok (nonce ++ a.seal key nonce text)
  unfolding encrypt
  sealed_form nonce text = rw size refl

  opened :
      (nonce text : Bytes)
      → length nonce ≡ a.nonce_size
      → decrypt a (nonce ++ a.seal key nonce text) key ≡ ok text
  unfolding decrypt
  opened nonce text h =
      rw (size, sym h)
        (rw
          (
            long_enough nonce (a.seal key nonce text),
            take-append nonce (a.seal key nonce text),
            drop-append nonce (a.seal key nonce text),
            a.open-seal key nonce text,
          )
          refl)

  -- With a key of 32 bytes and two nonces of the cipher's size, EncryptToken succeeds, and
  -- DecryptToken of its two texts gives back the access token, the refresh token and the expiry, as
  -- a token of type "Bearer".
  pub decrypt_token-encrypt_token :
      (n m : Bytes) (t : Token)
      → length n ≡ a.nonce_size
      → length m ≡ a.nonce_size
      → (access : Bytes) × (refresh : Bytes) × (encrypt_token a (some n, some m) t key
          ≡ ok (access, refresh))
        × (decrypt_token a access refresh t.expiry key ≡ ok (record t { token_type = bearer }))
  unfolding encrypt_token decrypt_token
  decrypt_token-encrypt_token n m t hn hm = (
    n ++ a.seal key n t.access_token,
    m ++ a.seal key m t.refresh_token,
    rw (sealed_form n t.access_token, sealed_form m t.refresh_token) refl,
    rw (opened n t.access_token hn, opened m t.refresh_token hm) refl,
  )
