-- ===== src/Sqlite/Tests.antt =====
-- Examples of the repository's theorems.
use blink_lnurl_server.Prelude.{
  ℕ, ◌≡◌, ◌⊎◌, refl, true, false, none, some, List, [], ◌∷◌, Text, text, ◌==◌, ok, arith,
}
use blink_lnurl_server.Repository.{
  spark, blink, username, enhanced, anon, SparkModeUpdate, NewSparkRegistration, ResolvedRecipient,
  validate,
}
use blink_lnurl_server.Sqlite.Query.{find, exists, count, update, delete}
use blink_lnurl_server.Sqlite.Tables.{Db, Env, IdentifierRow, new_spark_row, named, pubkey_is}
use blink_lnurl_server.Sqlite.Claims.{insert_statement_claim, claim_statement}
use blink_lnurl_server.Sqlite.Registration.{
  upsert_account, upsert_spark, upsert_identifier, registered_account, registration_checks,
  registration_writes, registration_body, upsert_spark_registration,
}
use blink_lnurl_server.Sqlite.Registration.Outcome.{registered-resolves}
use blink_lnurl_server.Repository.{IdentifierTransfer, SparkUsername}
use blink_lnurl_server.Sqlite.Registration.Recovery.{registered-recovers}
use blink_lnurl_server.Sqlite.Tables.{insert_account, insert_spark}
use blink_lnurl_server.Sqlite.Transfer.{
  make_destination, destination_of, move_identifier, transfer_body, transfer_identifier,
}
use blink_lnurl_server.Sqlite.Transfer.Outcome.{transferred-resolves}
use blink_lnurl_server.Sqlite.Recipient.{get_spark_username_by_pubkey}
use blink_lnurl_server.Sqlite.Mode.{set_mode_row, write_mode}
use blink_lnurl_server.Sqlite.Mode.Laws.{IsOlder, IsNotOlder, HasMode, write_mode-newer}
use blink_lnurl_server.Sqlite.Tables.{SparkRow}
use blink_lnurl_server.Sqlite.Mode.{upsert_spark_mode, get_spark_account_mode}
use blink_lnurl_server.Sqlite.Mode.Order.{mode-no_rollback}
use blink_lnurl_server.Sqlite.Mode.Country.{HidesCountry, run-HidesCountry}
use blink_lnurl_server.Sqlite.Query.Keys.{Every}
use blink_lnurl_server.Repository.{classify_refused_mode_write}
use blink_lnurl_server.Sqlite.History.{sets_mode}
use blink_lnurl_server.Sqlite.Registration.{ensure_spark_account}
use blink_lnurl_server.Sqlite.Recipient.{resolve_recipient_by_identifier}
use blink_lnurl_server.Sqlite.Recipient.Resolution.{HasColumns, resolve-Integrity}
use blink_lnurl_server.Sqlite.Integrity.{Integrity}
use blink_lnurl_server.Sqlite.Integrity.Steps.{step-Integrity, run-Integrity}
use blink_lnurl_server.Sqlite.History.{Call, registers, prunes, step, run}
use blink_lnurl_server.Sqlite.History.Names.{acts_for, run-keeps_names}

abbrev pub env_at : ℕ → Env
env_at now = record {
  now = now;
  account_id = λ p. elim p [ spark ↦ text "new-spark" | blink ↦ text "new-blink" ];
  constraint = λ k. none;
}

abbrev pub empty_db : Db
empty_db = record {
  accounts = [];
  account_identifiers = [];
  spark_accounts = [];
  blink_accounts = [];
  used_signed_messages = [];
}

pub empty_db-Integrity : Integrity empty_db
empty_db-Integrity = record {
  accounts = tt;
  names = tt;
  sparks = tt;
  pubkeys = tt;
  blinks = tt;
  blink_ids = tt;
  claims = tt;
  names_owned = tt;
  sparks_owned = tt;
  blinks_owned = tt;
  backed = tt;
}

-- A registration of the name `alice` by a pubkey, with a claim on the statement of hash `[7]`.
abbrev pub alice_for : Text → NewSparkRegistration
alice_for pubkey = record {
  account_id = none;
  pubkey = pubkey;
  identifier = record {
    domain = text "d.com";
    identifier = text "alice";
    identifier_kind = username;
    description = text "hi";
  };
  claim = some (record { statement_hash = 7 ∷ []; route = text "register"; expires_at = 1300 });
}

abbrev alice_call : Call
alice_call = registers (env_at 100) (alice_for (text "a-key"))

abbrev alice_db : Db
alice_db = (step alice_call empty_db).1

abbrev alice_row : IdentifierRow
alice_row = record {
  account_id = text "new-spark";
  domain = text "d.com";
  identifier = text "alice";
  identifier_kind = username;
  description = text "hi";
  created_at = 100;
  updated_at = 100;
}

-- Someone else asks for `alice` with an account of its own, and the pruner runs.
abbrev bob_env : Env
bob_env = record {
  now = 200;
  account_id = λ p. elim p [ spark ↦ text "bob-spark" | blink ↦ text "bob-blink" ];
  constraint = λ k. none;
}

abbrev bob_calls : List Call
bob_calls = registers bob_env (alice_for (text "b-key")) ∷ prunes 2000 ∷ []

run-Integrity_example : Integrity (run (alice_call ∷ bob_calls) empty_db)
run-Integrity_example = run-Integrity (alice_call ∷ bob_calls) empty_db empty_db-Integrity

run-keeps_names_example :
    find (named (text "d.com") (text "alice")) (run bob_calls alice_db).account_identifiers
    ≡ some alice_row
unfolding step upsert_spark_registration registration_body validate claim_statement
    insert_statement_claim registered_account registration_checks registration_writes upsert_account
    upsert_spark upsert_identifier find exists delete ◌==◌ acts_for
run-keeps_names_example =
    run-keeps_names (text "d.com") (text "alice") alice_row bob_calls alice_db refl
      (refl, (refl, tt))

registered-resolves_example :
    (r : ResolvedRecipient) × (resolve_recipient_by_identifier
        (text "d.com")
        (text "alice")
        (upsert_spark_registration (env_at 100) (alice_for (text "a-key")) empty_db).1
      ≡ ok (some r))
    × (r.spark_pubkey ≡ some (text "a-key"))
    × (r.description ≡ text "hi")
unfolding upsert_spark_registration registration_body validate claim_statement
    insert_statement_claim registered_account registration_checks registration_writes upsert_account
    upsert_spark upsert_identifier find exists delete ◌==◌
registered-resolves_example =
    registered-resolves (env_at 100) (alice_for (text "a-key")) empty_db empty_db-Integrity refl

resolve-Integrity_example :
    (exists (named (text "d.com") (text "alice")) alice_db.account_identifiers ≡ true
      → (r : ResolvedRecipient) × (resolve_recipient_by_identifier
            (text "d.com")
            (text "alice")
            alice_db
          ≡ ok (some r))
        × (r.domain ≡ text "d.com")
        × (r.identifier ≡ text "alice")
        × HasColumns r.provider r)
    × (exists (named (text "d.com") (text "alice")) alice_db.account_identifiers ≡ false
        → resolve_recipient_by_identifier (text "d.com") (text "alice") alice_db ≡ ok none)
resolve-Integrity_example =
    resolve-Integrity (text "d.com") (text "alice") alice_db
      (step-Integrity alice_call empty_db empty_db-Integrity)

abbrev to_anon : SparkModeUpdate
to_anon = record {
  pubkey = text "a-key";
  mode = anon;
  client_timestamp = 150;
  country = some (text "CH");
}

write_mode-newer_example :
    (IsOlder none to_anon.client_timestamp
      × ((write_mode (env_at 160) to_anon alice_db).0 ≡ ok tt)
      × ((r' : SparkRow) × (find
              (pubkey_is (text "a-key"))
              (write_mode (env_at 160) to_anon alice_db).1.spark_accounts
            ≡ some r')
          × HasMode 160 to_anon (new_spark_row (text "new-spark") (text "a-key") 100) r'))
    ⊎ (IsNotOlder none to_anon.client_timestamp
        × (find
              (pubkey_is (text "a-key"))
              (write_mode (env_at 160) to_anon alice_db).1.spark_accounts
            ≡ some (new_spark_row (text "new-spark") (text "a-key") 100)))
unfolding step upsert_spark_registration registration_body validate claim_statement
    insert_statement_claim registered_account registration_checks registration_writes upsert_account
    upsert_spark upsert_identifier find exists delete ◌==◌
write_mode-newer_example =
    write_mode-newer (env_at 160) to_anon alice_db
      (new_spark_row (text "new-spark") (text "a-key") 100) refl

abbrev to_enhanced : SparkModeUpdate
to_enhanced = record {
  pubkey = text "a-key";
  mode = enhanced;
  client_timestamp = 140;
  country = none;
}

abbrev anon_db : Db
anon_db = (step (sets_mode (env_at 160) to_anon) alice_db).1

mode-no_rollback_example : upsert_spark_mode (env_at 170) to_enhanced (run bob_calls anon_db) ≡ (
  classify_refused_mode_write
      (get_spark_account_mode (text "a-key") (run bob_calls anon_db))
      to_enhanced,
  run bob_calls anon_db,
)
unfolding step upsert_spark_mode ensure_spark_account write_mode set_mode_row
    upsert_spark_registration registration_body validate claim_statement insert_statement_claim
    registered_account registration_checks registration_writes upsert_account upsert_spark
    upsert_identifier find exists count delete update ◌==◌
mode-no_rollback_example =
    mode-no_rollback (env_at 160) (env_at 170) to_anon to_enhanced bob_calls alice_db
      (step-Integrity alice_call empty_db empty_db-Integrity) refl ((refl, refl), (tt, tt)) refl
      (omega arith)

run-HidesCountry_example :
    Every HidesCountry
      (run (alice_call ∷ sets_mode (env_at 160) to_anon ∷ bob_calls) empty_db).spark_accounts
run-HidesCountry_example =
    run-HidesCountry (alice_call ∷ sets_mode (env_at 160) to_anon ∷ bob_calls) empty_db tt

registered-recovers_example :
    (u : SparkUsername) × (get_spark_username_by_pubkey
        (text "d.com")
        (text "a-key")
        (upsert_spark_registration (env_at 100) (alice_for (text "a-key")) empty_db).1
      ≡ some u)
    × (u.username ≡ text "alice")
unfolding upsert_spark_registration registration_body validate claim_statement
    insert_statement_claim registered_account registration_checks registration_writes upsert_account
    upsert_spark upsert_identifier find exists delete ◌==◌
registered-recovers_example =
    registered-recovers (env_at 100) (alice_for (text "a-key")) empty_db empty_db-Integrity refl

-- Alice hands the name to the pubkey of someone new.
abbrev to_bob : IdentifierTransfer
to_bob = record {
  domain = text "d.com";
  identifier = text "alice";
  source_account_id = text "new-spark";
  destination_spark_pubkey = text "b-key";
  description = text "bob";
  claim = some (record { statement_hash = 8 ∷ []; route = text "transfer"; expires_at = 1400 });
}

transferred-resolves_example :
    (r : ResolvedRecipient) × (resolve_recipient_by_identifier
        (text "d.com")
        (text "alice")
        (transfer_identifier bob_env to_bob alice_db).1
      ≡ ok (some r))
    × (r.spark_pubkey ≡ some (text "b-key"))
    × (r.description ≡ text "bob")
unfolding step upsert_spark_registration registration_body validate claim_statement
    insert_statement_claim registered_account registration_checks registration_writes upsert_account
    upsert_spark upsert_identifier transfer_identifier transfer_body destination_of make_destination
    insert_account insert_spark move_identifier find exists count delete update ◌==◌
transferred-resolves_example =
    transferred-resolves bob_env to_bob alice_db
      (step-Integrity alice_call empty_db empty_db-Integrity) refl
