-- ===== src/Tests/Purge.antt =====
-- A run of the purge of expired rows.
use dcalcon.Base.{codes, count, [], ◌∷◌, ◌≡◌, arith}
use dcalcon.Storage.{Db}
use dcalcon.Storage.Sessions.{user_by_session}
use dcalcon.Storage.OauthStates.{take_oauth_state}
use dcalcon.Storage.Purge.{purge_expired}
use dcalcon.Storage.Purge.Invisible.{IsKeyed, purge_expired-invisible}
use dcalcon.Tests.Data.{db}
use dcalcon.Tests.Crypto.{hash_token}

-- A session that expired at millisecond 9 and a sign-in that is pending until second 60.
abbrev purged_db : Db
purged_db = record db {
  sessions = record { id = codes "hs"; user_id = 1; expires_at = 9 } ∷ [];
  oauth_states =
      record {
        state = codes "x";
        user_id = 1;
        provider = codes "google";
        origin = [];
        code_verifier = codes "v";
        expires_at = 60;
      }
      ∷ [];
}

purged_db-IsKeyed : IsKeyed purged_db
unfolding count
purged_db-IsKeyed = record { session = λ id. ground arith; state = λ state. ground arith }

purge_expired-invisible_example :
    ((user_by_session hash_token 30000000 (codes "s") (purge_expired 20000000 purged_db).1).0
      ≡ (user_by_session hash_token 30000000 (codes "s") purged_db).0)
    × ((take_oauth_state (codes "x") 30000000 (purge_expired 20000000 purged_db).1).0
        ≡ (take_oauth_state (codes "x") 30000000 purged_db).0)
purge_expired-invisible_example =
    purge_expired-invisible hash_token 20000000 30000000 purged_db (codes "s") (codes "x")
      purged_db-IsKeyed (omega arith)
