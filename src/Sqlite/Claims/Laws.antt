-- ===== src/Sqlite/Claims/Laws.antt =====
-- What claiming a statement does to the table of claims.
use blink_lnurl_server.Prelude.{◌≡◌, true, false, Option, none, some, ◌∷◌, arith, ok, err}
use blink_lnurl_server.Repository.{StatementClaim, statement_already_used}
use blink_lnurl_server.Sqlite.Query.{exists}
use blink_lnurl_server.Sqlite.Tables.{Db, Env}
use blink_lnurl_server.Sqlite.Claims.{hash_is, insert_statement_claim, claim_statement}

-- A successful claim found its statement unused, and records it; the accounts are as they were.
pub claim_statement-ok :
    (env : Env) (c : StatementClaim) (db db' : Db)
    → claim_statement env (some c) db ≡ ok db'
    → (exists (hash_is c.statement_hash) db.used_signed_messages ≡ false)
      × (db' ≡ record db {
        used_signed_messages =
            record {
              statement_hash = c.statement_hash;
              route = c.route;
              expires_at = c.expires_at;
              created_at = env.now;
            }
            ∷ db.used_signed_messages;
      })
unfolding claim_statement insert_statement_claim
claim_statement-ok env c db db' h = ground arith

pub claim_statement-used :
    (env : Env) (c : StatementClaim) (db : Db)
    → exists (hash_is c.statement_hash) db.used_signed_messages ≡ true
    → claim_statement env (some c) db ≡ err statement_already_used
unfolding claim_statement insert_statement_claim
claim_statement-used env c db h = ground arith

-- A claim touches no table but its own.
pub claim_statement-tables :
    (env : Env) (claim : Option StatementClaim) (db db' : Db)
    → claim_statement env claim db ≡ ok db'
    → (db'.account_identifiers ≡ db.account_identifiers)
      × (db'.spark_accounts ≡ db.spark_accounts)
      × (db'.accounts ≡ db.accounts)
unfolding claim_statement
claim_statement-tables env none db db' h = ground arith
claim_statement-tables env (some c) db db' h = ground arith
