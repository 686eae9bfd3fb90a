-- ===== src/Sqlite/Blink.antt =====
-- Blink accounts (src/sqlite/repository.rs).
use blink_lnurl_server.Prelude.{
  Bool, not, ◌&&◌, Option, none, some, List, [], ◌∷◌, if◌then◌else◌, Text, ◌==◌, Result, ok, err,
  ◌>>=◌, ◌>>◌, refuse_if,
}
use blink_lnurl_server.Repository.{
  blink, provider_eq, wallet_eq, WalletKind, NewAccountIdentifier, NewBlinkAccount,
  UpdatedBlinkAccount, LnurlRepositoryError, blink_account_exists, identifier_conflict,
  invalid_provider, invalid_ownership, account_not_found,
}
use blink_lnurl_server.Sqlite.Query.{find, exists, update}
use blink_lnurl_server.Sqlite.Tables.{
  AccountRow, IdentifierRow, BlinkRow, Db, Env, blink_accounts_pkey,
  blink_accounts_blink_account_id_key, account_identifiers_domain_identifier_key, violation,
  account_is, blink_is, blink_id_is, named, insert_account, transact,
}
use blink_lnurl_server.Sqlite.Transfer.{has_account}

abbrev same_blink : NewBlinkAccount → BlinkRow → Bool
same_blink new r =
    r.blink_account_id == new.blink_account_id
    && r.btc_wallet_id == new.btc_wallet_id
    && r.usd_wallet_id == new.usd_wallet_id
    && wallet_eq r.default_wallet new.default_wallet

-- The answer where the account id is there already: a refusal on every branch.
unfoldable pub existing_account :
    NewBlinkAccount → AccountRow → Option BlinkRow → LnurlRepositoryError
existing_account new a none =
    if provider_eq a.provider blink then invalid_ownership else invalid_provider
existing_account new a (some b) =
    if not (provider_eq a.provider blink)
    then invalid_provider
    else if not (same_blink new b)
    then invalid_ownership
    else blink_account_exists

-- The look-up of every identifier, in order.
unfoldable pub check_identifiers :
    List NewAccountIdentifier → List IdentifierRow → Result LnurlRepositoryError (Unit {0})
check_identifiers [] rows = ok tt
check_identifiers (new ∷ rest) rows =
    let later = check_identifiers rest rows in
    if exists (named new.domain new.identifier) rows then err identifier_conflict else later

unfoldable pub insert_identifiers :
    Env
    → Text
    → List NewAccountIdentifier
    → List IdentifierRow
    → Result LnurlRepositoryError (List IdentifierRow)
insert_identifiers env id [] rows = ok rows
insert_identifiers env id (new ∷ rest) rows =
    let later = insert_identifiers env id rest (
      record {
        account_id = id;
        domain = new.domain;
        identifier = new.identifier;
        identifier_kind = new.identifier_kind;
        description = new.description;
        created_at = env.now;
        updated_at = env.now;
      }
      ∷ rows) in
    if exists (named new.domain new.identifier) rows
    then err (violation env account_identifiers_domain_identifier_key)
    else later

unfoldable pub insert_blink :
    Env → BlinkRow → List BlinkRow → Result LnurlRepositoryError (List BlinkRow)
insert_blink env r rows =
    if exists (blink_is r.account_id) rows
    then err (violation env blink_accounts_pkey)
    else if exists (blink_id_is r.blink_account_id) rows
    then err (violation env blink_accounts_blink_account_id_key)
    else ok (r ∷ rows)

abbrev pub blink_account_id_of : Env → NewBlinkAccount → Text
blink_account_id_of env new = elim new.account_id [ some id ↦ id | none ↦ env.account_id blink ]

unfoldable pub create_checks : Text → NewBlinkAccount → Db → Result LnurlRepositoryError (Unit {0})
create_checks id new db = elim (find (account_is id) db.accounts) [
  | some a ↦ err (existing_account new a (find (blink_is id) db.blink_accounts))
  | none ↦ do
    refuse_if (exists (blink_id_is new.blink_account_id) db.blink_accounts) blink_account_exists
    check_identifiers new.identifiers db.account_identifiers
]

unfoldable pub create_body : Env → NewBlinkAccount → Db → Result LnurlRepositoryError Db
create_body env new db = do
  let id = blink_account_id_of env new
  create_checks id new db
  accounts ←
      insert_account env
        (record { account_id = id; provider = blink; created_at = env.now; updated_at = env.now })
        db.accounts
  blink_accounts ←
      insert_blink env
        (record {
          account_id = id;
          blink_account_id = new.blink_account_id;
          btc_wallet_id = new.btc_wallet_id;
          usd_wallet_id = new.usd_wallet_id;
          default_wallet = new.default_wallet;
          created_at = env.now;
          updated_at = env.now;
        })
        db.blink_accounts
  identifiers ← insert_identifiers env id new.identifiers db.account_identifiers
  ok (record db {
    accounts = accounts;
    blink_accounts = blink_accounts;
    account_identifiers = identifiers;
  })

unfoldable pub create_blink_account :
    Env → NewBlinkAccount → Db → Result LnurlRepositoryError (Unit {0}) × Db
create_blink_account env new = transact (create_body env new)

abbrev updatable : Text → Db → BlinkRow → Bool
updatable blink_account_id db r =
    blink_id_is blink_account_id r && exists (has_account blink r.account_id) db.accounts

abbrev wallet_answer :
    WalletKind → Option BlinkRow → Result LnurlRepositoryError UpdatedBlinkAccount
wallet_answer wallet none = err account_not_found
wallet_answer wallet (some r) = ok (record {
  account_id = r.account_id;
  blink_account_id = r.blink_account_id;
  default_wallet = wallet;
})

-- UPDATE … RETURNING, whose first row is read.
unfoldable pub update_blink_default_wallet :
    Env → Text → WalletKind → Db → Result LnurlRepositoryError UpdatedBlinkAccount × Db
update_blink_default_wallet env blink_account_id wallet db = (
  wallet_answer wallet (find (updatable blink_account_id db) db.blink_accounts),
  record db {
    blink_accounts =
        update (updatable blink_account_id db)
          (λ r. record r { default_wallet = wallet; updated_at = env.now }) db.blink_accounts;
  },
)
