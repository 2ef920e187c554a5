-- ===== src/Database/States/SingleUse.antt =====
-- A state is good for one sign-in.
use discord_lite_server.Base.{suc, ◌≤◌, ◌≡◌, String, none, some, arith}
use discord_lite_server.Base.Rows.{find, remove, find-remove}
use discord_lite_server.Models.{OauthState}
use discord_lite_server.Effect.{
  Env, World, Error, IsErr, ok, err, query, now, statement, transaction, ◌>>=◌,
}
use discord_lite_server.Database.States.{
  has_state, delete_states, take_oauth_state, validate_and_delete_oauth_state,
}

module _ (env : Env) (state : String) where
  -- What a validation that succeeds has found and done.
  pub record Validated (row : OauthState) (w w' : World) : Type 0 where
    pub found : find (has_state state) w.tables.oauth_states ≡ some row
    pub in_time : env.clock (suc (suc w.step)) ≤ row.expires_at
    pub deleted :
        w'.tables
        ≡ record w.tables { oauth_states = remove (has_state state) w.tables.oauth_states }

  pub validate-Validated :
      (row : OauthState) (w w' : World)
      → validate_and_delete_oauth_state env state w ≡ (ok row, w')
      → Validated row w w'
  unfolding validate_and_delete_oauth_state take_oauth_state transaction statement query now
      delete_states ◌>>=◌
  validate-Validated row w w' e = record {
    found = ground arith;
    in_time = ground arith;
    deleted = ground arith;
  }

  -- A validation that fails changes no table.
  pub validate-atomic :
      (e : Error) (w w' : World)
      → validate_and_delete_oauth_state env state w ≡ (err e, w')
      → w'.tables ≡ w.tables
  unfolding validate_and_delete_oauth_state take_oauth_state transaction statement query now
      delete_states ◌>>=◌
  validate-atomic e w w' h = ground arith

  pub validate_absent :
      (v : World)
      → find (has_state state) v.tables.oauth_states ≡ none
      → IsErr (validate_and_delete_oauth_state env state v).0
        × ((validate_and_delete_oauth_state env state v).1.tables ≡ v.tables)
  unfolding validate_and_delete_oauth_state take_oauth_state transaction statement query now
      delete_states ◌>>=◌
  validate_absent v e = (ground arith, ground arith)

  -- A state that was used is refused, and the refusal changes nothing.
  pub validate_twice :
      (row : OauthState) (w w' v : World)
      → validate_and_delete_oauth_state env state w ≡ (ok row, w')
      → v.tables.oauth_states ≡ w'.tables.oauth_states
      → IsErr (validate_and_delete_oauth_state env state v).0
        × ((validate_and_delete_oauth_state env state v).1.tables ≡ v.tables)
  validate_twice row w w' v h same =
      let gone = find-remove (has_state state) w.tables.oauth_states in
      validate_absent v (ground (arith, gone, (validate-Validated row w w' h).deleted))
