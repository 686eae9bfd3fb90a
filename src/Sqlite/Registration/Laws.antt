-- ===== src/Sqlite/Registration/Laws.antt =====
-- What a registration and an unregistration do, part by part.
use blink_lnurl_server.Prelude.{◌≡◌, Option, none, some, arith, Text, ok, >>=-eq-ok}
use blink_lnurl_server.Repository.{NewSparkRegistration, StatementClaim, validate}
use blink_lnurl_server.Sqlite.Query.{find}
use blink_lnurl_server.Sqlite.Tables.{SparkRow, Db, Env, pubkey_is}
use blink_lnurl_server.Sqlite.Claims.{claim_statement}
use blink_lnurl_server.Sqlite.Registration.{
  registered_account, registration_checks, registration_writes, registration_body, delete_owned,
  delete_of_owner, unregister_body,
}

-- The parts of a registration that went through.
pub registration_body-ok :
    (env : Env) (reg : NewSparkRegistration) (db db' : Db)
    → registration_body env reg db ≡ ok db'
    → (claimed : Db) × (validate reg ≡ ok tt)
      × (claim_statement env reg.claim db ≡ ok claimed)
      × (registration_checks (registered_account env reg claimed) reg claimed ≡ ok tt)
      × (registration_writes env (registered_account env reg claimed) reg claimed ≡ ok db')
unfolding registration_body
registration_body-ok env reg db db' h =
    let (_, v, h1) = >>=-eq-ok (validate reg) _ h in
    let (claimed, c, h2) = >>=-eq-ok (claim_statement env reg.claim db) _ h1 in
    let (_, k, w) =
      >>=-eq-ok (registration_checks (registered_account env reg claimed) reg claimed) _ h2 in
    (claimed, v, c, k, w)

pub registration_writes-ok :
    (env : Env) (id : Text) (reg : NewSparkRegistration) (db db' : Db)
    → registration_writes env id reg db ≡ ok db'
    → (db'.used_signed_messages ≡ db.used_signed_messages)
      × (db'.blink_accounts ≡ db.blink_accounts)
unfolding registration_writes
registration_writes-ok env id reg db db' h = ground arith

pub delete_of_owner-used :
    (o : Option SparkRow) (d i : Text) (db db' : Db)
    → delete_of_owner o d i db ≡ ok db'
    → db'.used_signed_messages ≡ db.used_signed_messages
unfolding delete_of_owner delete_owned
delete_of_owner-used none d i db db' h = cc
delete_of_owner-used (some r) d i db db' h = ground arith

-- The parts of an unregistration that went through.
pub unregister_body-ok :
    (env : Env) (d pk i : Text) (claim : Option StatementClaim) (db db' : Db)
    → unregister_body env d pk i claim db ≡ ok db'
    → (claimed : Db) × (claim_statement env claim db ≡ ok claimed)
      × (delete_of_owner (find (pubkey_is pk) claimed.spark_accounts) d i claimed ≡ ok db')
unfolding unregister_body
unregister_body-ok env d pk i claim db db' h = >>=-eq-ok (claim_statement env claim db) _ h
