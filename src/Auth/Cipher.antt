-- ===== src/Auth/Cipher.antt =====
-- internal/auth/discord.go: EncryptToken and DecryptToken. The stored text is the base64 form of
-- the nonce followed by the sealed token.
pub mod RoundTrip
use discord_lite_server.Base.{
  ℕ, suc, Bool, true, false, ◌||◌, String, Option, none, some, List, ◌++◌, ◌==◌, nat_eq, ltb,
  if◌then◌else◌,
}
use discord_lite_server.Base.Lists.{length, take, drop}
use discord_lite_server.Effect.{
  Action, Result, ok, err, external, message, wrapped, wrap, lift, raise, pure, or_fail, ◌>>=◌,
  ◌>>◌,
}
use discord_lite_server.Auth.Services.{Crypto, Settings}

-- gcm.NonceSize()
abbrev pub nonce_size : ℕ
nonce_size = 12

-- aes.NewCipher takes keys of 16, 24 and 32 bytes.
abbrev pub is_aes_key : List ℕ → Bool
is_aes_key key = length key == 16 || length key == 24 || length key == 32

module _ (c : Crypto) where
  -- rand.Read of n bytes
  unfoldable pub random_bytes : ℕ → Action (List ℕ)
  unfolding or_fail
  random_bytes n w = or_fail external (c.random w.step n) (record w { step = suc w.step })

module _ (c : Crypto) (s : Settings) where
  abbrev new_cipher : Action (Unit {0})
  new_cipher =
      if is_aes_key s.encryption_key
      then pure tt
      else raise (wrapped "failed to create cipher" external)

  unfoldable pub encrypt_token : String → Action String
  encrypt_token plaintext = do
    new_cipher
    nonce ← wrap "failed to generate nonce" (random_bytes c nonce_size)
    pure (c.to_base64 (nonce ++ c.seal s.encryption_key nonce (c.bytes plaintext)))

  unfoldable pub decrypt_token : String → Action String
  decrypt_token ciphertext = do
    data' ← wrap "failed to decode ciphertext" (or_fail external (c.from_base64 ciphertext))
    new_cipher
    if ltb (length data') nonce_size then raise (message "ciphertext too short") else do
      plaintext ← wrap "failed to decrypt" (
          or_fail external
            (c.unseal s.encryption_key (take nonce_size data') (drop nonce_size data')))
      pure (c.text plaintext)
