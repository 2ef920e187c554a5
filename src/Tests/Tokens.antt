-- ===== src/Tests/Tokens.antt =====
-- A token that is encrypted and read again, and one that is refreshed.
use discord_lite_server.Base.{true, String, ◌≡◌, refl}
use discord_lite_server.Models.{OauthToken}
use discord_lite_server.Effect.{World, ok, now, ◌>>=◌}
use discord_lite_server.Auth.Cipher.{encrypt_token, decrypt_token, random_bytes}
use discord_lite_server.Auth.Cipher.RoundTrip.{decrypt_token-encrypt_token}
use discord_lite_server.Auth.Discord.{Refreshed, request, refresh_token, renew, refresh_if_needed}
use discord_lite_server.Auth.Discord.Refresh.{refresh_if_needed-stored}
use discord_lite_server.Server.History.{start}
use discord_lite_server.Tests.Services.{env, remote, crypto, crypto-IsCrypto, settings}

-- Twelve zeros of the nonce, and the code of "!".
abbrev stored : String
stored = ",,,,,,,,,,,,IIIIIIIIIIIIIIIIIIIIIIIIIIIIIIIII,"

abbrev encrypted : World
encrypted = (encrypt_token crypto settings "!" start).1

encrypts : encrypt_token crypto settings "!" start ≡ (ok stored, encrypted)
unfolding encrypt_token random_bytes ◌>>=◌
encrypts = refl

decrypt_token-encrypt_token_example : decrypt_token crypto settings stored start ≡ (ok "!", start)
decrypt_token-encrypt_token_example =
    decrypt_token-encrypt_token crypto-IsCrypto settings "!" stored start encrypted start encrypts

-- A token of user 1 that has expired.
abbrev old : OauthToken
old = record {
  id = 1;
  user_id = 1;
  access_token = stored;
  refresh_token = stored;
  token_type = "Bearer";
  expiry = 0;
  scope = "identify";
  created_at = 0;
  updated_at = 0;
}

abbrev again : String
again = ",,,,,,,,,,,,IIIIIIIIIIIIIIIIIIIIIIIIIIIIIIIIIII,"

abbrev renewed : Refreshed
renewed = record {
  access_token = "!";
  was_refreshed = true;
  oauth_token = record old { refresh_token = again; expiry = 100 };
}

abbrev refreshed : World
refreshed = (refresh_if_needed env remote crypto settings old start).1

refreshes : refresh_if_needed env remote crypto settings old start ≡ (ok renewed, refreshed)
unfolding refresh_if_needed renew refresh_token request decrypt_token encrypt_token random_bytes now
    ◌>>=◌
refreshes = refl

refresh_if_needed-stored_example :
    decrypt_token crypto settings stored refreshed ≡ (ok "!", refreshed)
refresh_if_needed-stored_example =
    refresh_if_needed-stored env remote crypto-IsCrypto settings old renewed start refreshed
      refreshed refreshes
