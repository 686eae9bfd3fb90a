-- ===== src/Sqlite/Transfer/Laws.antt =====
-- What a transfer does, part by part.
use blink_lnurl_server.Prelude.{
  ◌≡◌, refl, Bool, true, false, not, Option, none, some, arith, Text, ok, >>=-eq-ok, refuse_if,
}
use blink_lnurl_server.Repository.{
  IdentifierTransfer, BlinkToSparkIdentifierTransfer, source_not_owner, invalid_ownership,
}
use blink_lnurl_server.Sqlite.Query.{find}
use blink_lnurl_server.Sqlite.Tables.{SparkRow, Db, Env, pubkey_is, named}
use blink_lnurl_server.Sqlite.Claims.{claim_statement}
use blink_lnurl_server.Sqlite.Transfer.{
  is_owned_by, has_spark_account, has_blink_account, make_destination, destination_of,
  move_identifier, transfer_body, blink_transfer_body,
}

-- What a made destination leaves alone.
abbrev pub SameRest : Db → Db → Type 0
SameRest db db' =
    (db'.used_signed_messages ≡ db.used_signed_messages)
    × (db'.blink_accounts ≡ db.blink_accounts)
    × (db'.account_identifiers ≡ db.account_identifiers)

make_destination-rest :
    (env : Env) (pk id : Text) (db made : Db)
    → make_destination env pk db ≡ ok (id, made)
    → SameRest db made
unfolding make_destination
make_destination-rest env pk id db made h = ground arith

pub destination_of-rest :
    (env : Env) (pk id : Text) (o : Option SparkRow) (db made : Db)
    → destination_of env pk o db ≡ ok (id, made)
    → SameRest db made
unfolding destination_of
destination_of-rest env pk id none db made h = make_destination-rest env pk id db made h
destination_of-rest env pk id (some s) db made h =
    ground (arith, make_destination-rest env pk id db made)

pub move_identifier-ok :
    (env : Env) (d i source dest desc : Text) (db db' : Db)
    → move_identifier env d i source dest desc db ≡ ok db'
    → (db'.used_signed_messages ≡ db.used_signed_messages)
      × (db'.blink_accounts ≡ db.blink_accounts)
      × (db'.accounts ≡ db.accounts)
      × (db'.spark_accounts ≡ db.spark_accounts)
unfolding move_identifier
move_identifier-ok env d i source dest desc db db' h = ground arith

refuse_if-ok : {E : Type 0} (b : Bool) (e : E) → refuse_if b e ≡ ok tt → b ≡ false
refuse_if-ok true e h = cc
refuse_if-ok false e h = refl

-- The parts of a transfer that went through.
pub transfer_body-ok :
    (env : Env) (t : IdentifierTransfer) (db db' : Db)
    → transfer_body env t db ≡ ok db'
    → (claimed : Db) × (id : Text) × (made : Db) × (claim_statement env t.claim db ≡ ok claimed)
      × (is_owned_by t.source_account_id
            (find (named t.domain t.identifier) claimed.account_identifiers)
          ≡ true)
      × (has_spark_account t.source_account_id claimed ≡ true)
      × (destination_of env t.destination_spark_pubkey
            (find (pubkey_is t.destination_spark_pubkey) claimed.spark_accounts)
            claimed
          ≡ ok (id, made))
      × (move_identifier env t.domain t.identifier t.source_account_id id t.description made
          ≡ ok db')
unfolding transfer_body
transfer_body-ok env t db db' h =
    let (claimed, c, h1) = >>=-eq-ok (claim_statement env t.claim db) _ h in
    let (_, k1, h2) =
      >>=-eq-ok
        (refuse_if
          (not (
            is_owned_by t.source_account_id
              (find (named t.domain t.identifier) claimed.account_identifiers)))
          source_not_owner)
        _ h1 in
    let (_, k2, h3) =
      >>=-eq-ok (refuse_if (not (has_spark_account t.source_account_id claimed)) invalid_ownership)
        _ h2 in
    let (dm, k3, w) =
      >>=-eq-ok
        (destination_of env t.destination_spark_pubkey
          (find (pubkey_is t.destination_spark_pubkey) claimed.spark_accounts) claimed)
        _ h3 in
    (claimed, dm.0, dm.1, c, ground arith, ground arith, k3, w)

pub blink_transfer_body-ok :
    (env : Env) (t : BlinkToSparkIdentifierTransfer) (db db' : Db)
    → blink_transfer_body env t db ≡ ok db'
    → (id : Text) × (made : Db) × (is_owned_by t.source_account_id
          (find (named t.domain t.identifier) db.account_identifiers)
        ≡ true)
      × (has_blink_account t.source_account_id db ≡ true)
      × (destination_of env t.destination_spark_pubkey
            (find (pubkey_is t.destination_spark_pubkey) db.spark_accounts)
            db
          ≡ ok (id, made))
      × (move_identifier env t.domain t.identifier t.source_account_id id t.description made
          ≡ ok db')
unfolding blink_transfer_body
blink_transfer_body-ok env t db db' h =
    let (_, k1, h2) =
      >>=-eq-ok
        (refuse_if
          (not (
            is_owned_by t.source_account_id
              (find (named t.domain t.identifier) db.account_identifiers)))
          source_not_owner)
        _ h in
    let (_, k2, h3) =
      >>=-eq-ok (refuse_if (not (has_blink_account t.source_account_id db)) invalid_ownership) _
        h2 in
    let (dm, k3, w) =
      >>=-eq-ok
        (destination_of env t.destination_spark_pubkey
          (find (pubkey_is t.destination_spark_pubkey) db.spark_accounts) db)
        _ h3 in
    (dm.0, dm.1, ground arith, ground arith, k3, w)
