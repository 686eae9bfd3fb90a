-- ===== src/Sqlite/Claims.antt =====
-- The signed statements that were acted on (src/sqlite/repository.rs, `used_signed_messages`).
pub mod Laws
use blink_lnurl_server.Prelude.{
  ℕ, Bool, true, false, Option, none, some, List, [], ◌∷◌, ltb, if◌then◌else◌, ◌==◌, Result, ok,
  err,
}
use blink_lnurl_server.Repository.{StatementClaim, LnurlRepositoryError, statement_already_used}
use blink_lnurl_server.Sqlite.Query.{exists, count, delete}
use blink_lnurl_server.Sqlite.Tables.{ClaimRow, Db, Env}

abbrev pub hash_is : List ℕ → ClaimRow → Bool
hash_is h r = r.statement_hash == h

-- `true` beside the table with the row, or `false` where the conflict does nothing.
unfoldable pub insert_statement_claim : Env → StatementClaim → List ClaimRow → List ClaimRow × Bool
insert_statement_claim env claim rows =
    if exists (hash_is claim.statement_hash) rows then (rows, false) else (
      record {
        statement_hash = claim.statement_hash;
        route = claim.route;
        expires_at = claim.expires_at;
        created_at = env.now;
      }
          ∷ rows,
      true,
    )

-- The head of the three transactions that act on a statement.
unfoldable pub claim_statement : Env → Option StatementClaim → Db → Result LnurlRepositoryError Db
claim_statement env none db = ok db
claim_statement env (some claim) db =
    let (rows, inserted) = insert_statement_claim env claim db.used_signed_messages in
    if inserted then ok (record db { used_signed_messages = rows }) else err statement_already_used

abbrev pub expired_before : ℕ → ClaimRow → Bool
expired_before now r = ltb r.expires_at now

-- The count of deleted rows, and the database without them.
unfoldable pub delete_expired_signed_messages : ℕ → Db → ℕ × Db
delete_expired_signed_messages now db = (
  count (expired_before now) db.used_signed_messages,
  record db { used_signed_messages = delete (expired_before now) db.used_signed_messages },
)
