-- ===== src/Auth/Cipher/RoundTrip.antt =====
-- What EncryptToken stores, DecryptToken reads.
use discord_lite_server.Base.{ℕ, ◌≡◌, true, String, List, ◌++◌, arith, inl, inr, Option-cases}
use discord_lite_server.Base.Lists.{length, take-append, drop-append, length-append}
use discord_lite_server.Effect.{World, ok, ◌>>=◌}
use discord_lite_server.Auth.Services.{Crypto, IsCrypto, Settings}
use discord_lite_server.Auth.Cipher.{
  nonce_size, is_aes_key, random_bytes, encrypt_token, decrypt_token,
}

module _ {c : Crypto} (good : IsCrypto c) (s : Settings) where
  decrypt_stored :
      (nonce : List ℕ) (p : String) (w : World)
      → length nonce ≡ nonce_size
      → is_aes_key s.encryption_key ≡ true
      → decrypt_token c s (c.to_base64 (nonce ++ c.seal s.encryption_key nonce (c.bytes p))) w
        ≡ (ok p, w)
  unfolding decrypt_token ◌>>=◌
  decrypt_stored nonce p w e k =
      let sealed : List ℕ = c.seal s.encryption_key nonce (c.bytes p) in
      ground (
        arith,
        good.base64 (nonce ++ sealed),
        take-append nonce_size nonce sealed e,
        drop-append nonce_size nonce sealed e,
        length-append nonce sealed,
        good.unseal-seal s.encryption_key nonce (c.bytes p),
        good.text-bytes p,
      )

  -- If EncryptToken returns a text, DecryptToken returns the token from it, in every world.
  pub decrypt_token-encrypt_token :
      (p stored : String) (w w' v : World)
      → encrypt_token c s p w ≡ (ok stored, w')
      → decrypt_token c s stored v ≡ (ok p, v)
  unfolding encrypt_token random_bytes ◌>>=◌
  decrypt_token-encrypt_token p stored w w' v e = elim (Option-cases (c.random w.step nonce_size)) [
    | inl missing ↦ absurd (ground arith)
    | inr (nonce, drawn) ↦
        ground (arith, good.random_length w.step nonce_size nonce drawn, decrypt_stored nonce p v)
  ]
