-- ===== src/Auth/Discord/Refresh.antt =====
-- RefreshIfNeeded, on every branch.
use discord_lite_server.Base.{◌≡◌, String, arith}
use discord_lite_server.Models.{OauthToken}
use discord_lite_server.Effect.{Env, World, ok, ◌>>=◌}
use discord_lite_server.Effect.Gives.{
  Gives, Gives-any, Gives-wrap, Gives-bind, Gives-pure, Gives-if, Gives-intro, Gives-ok,
}
use discord_lite_server.Auth.Services.{Crypto, IsCrypto, Remote, Settings}
use discord_lite_server.Auth.Cipher.{encrypt_token, decrypt_token}
use discord_lite_server.Auth.Cipher.RoundTrip.{decrypt_token-encrypt_token}
use discord_lite_server.Auth.Discord.{Refreshed, renew, reuse, refresh_if_needed}

module _ (env : Env) (remote : Remote) {c : Crypto} (good : IsCrypto c) (s : Settings) where
  -- The stored text is one from which the token can be read.
  abbrev Reads : String → String → Type 0
  Reads stored token = (v : World) → decrypt_token c s stored v ≡ (ok token, v)

  abbrev Consistent : Refreshed → Type 0
  Consistent r = Reads r.oauth_token.access_token r.access_token

  encrypt-Reads : (token : String) → Gives (λ stored. Reads stored token) (encrypt_token c s token)
  encrypt-Reads token =
      Gives-intro _ (λ stored w w' e v. decrypt_token-encrypt_token good s token stored w w' v e)

  -- Decryption does not depend on the world.
  decrypt_anywhere :
      (stored token : String) (w w' v : World)
      → decrypt_token c s stored w ≡ (ok token, w')
      → decrypt_token c s stored v ≡ (ok token, v)
  unfolding decrypt_token ◌>>=◌
  decrypt_anywhere stored token w w' v e = ground arith

  decrypt-Reads : (stored : String) → Gives (Reads stored) (decrypt_token c s stored)
  decrypt-Reads stored = Gives-intro _ (λ token w w' e v. decrypt_anywhere stored token w w' v e)

  renew-Consistent : (k : OauthToken) → Gives Consistent (renew env remote c s k)
  unfolding renew
  renew-Consistent k = Gives-bind _ _ (Gives-any _) λ old _. Gives-bind _ _ (Gives-any _) λ new _.
      Gives-bind _ _ (Gives-wrap _ _ (encrypt-Reads new.access_token))
        λ access reads. Gives-bind _ _ (Gives-any _) λ again _. Gives-pure _ reads

  reuse-Consistent : (k : OauthToken) → Gives Consistent (reuse env remote c s k)
  unfolding reuse
  reuse-Consistent k =
      Gives-bind _ _ (Gives-wrap _ _ (decrypt-Reads k.access_token))
        λ access reads. Gives-pure _ reads

  refresh-Consistent : (k : OauthToken) → Gives Consistent (refresh_if_needed env remote c s k)
  unfolding refresh_if_needed
  refresh-Consistent k =
      Gives-bind _ _ (Gives-any _)
        λ instant _. Gives-if _ _ _ (λ _. renew-Consistent k) (λ _. reuse-Consistent k)

  -- On both branches: the access token that is returned is the one that the token row, as the
  -- caller finds it afterwards, stores in encrypted form.
  pub refresh_if_needed-stored :
      (k : OauthToken) (r : Refreshed) (w w' v : World)
      → refresh_if_needed env remote c s k w ≡ (ok r, w')
      → decrypt_token c s r.oauth_token.access_token v ≡ (ok r.access_token, v)
  refresh_if_needed-stored k r w w' v e = Gives-ok _ r w w' (refresh-Consistent k) e v
