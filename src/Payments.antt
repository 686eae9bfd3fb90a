-- ===== src/Payments.antt =====
-- The tables of migrations/sqlite on payments, and the types of src/repository.rs, src/zap.rs and
-- src/webhooks/repository.rs that are read from and written to them.
-- Times are milliseconds.
pub mod Invoices
pub mod Zaps
pub mod Receipts
pub mod Deliveries
pub mod Payloads
pub mod Settings
pub mod Laws
pub mod Counts
pub mod Exclusive
pub mod Limit
use blink_lnurl_server.Prelude.{
  ℕ, ◌-◌, Bool, true, false, not, Option, none, some, List, [], ◌∷◌, ltb, if◌then◌else◌, any, Text,
  ◌==◌, Result, ok, err,
}
use blink_lnurl_server.Repository.{AccountProvider, WalletKind, LnurlRepositoryError}
use blink_lnurl_server.Sqlite.Query.{exists, update}
use blink_lnurl_server.Sqlite.Tables.{Db, from_sqlx, database, account_is}

pub record Zap : Type 0 where
  pub account_id : Option Text
  pub payment_hash : Text
  pub zap_request : Text
  pub zap_event : Option Text
  pub user_pubkey : Text
  pub invoice_expiry : ℕ
  pub updated_at : ℕ
  pub is_user_nostr_key : Bool

pub record LnurlSenderComment : Type 0 where
  pub account_id : Option Text
  pub comment : Text
  pub payment_hash : Text
  pub user_pubkey : Text
  pub updated_at : ℕ

pub record Invoice : Type 0 where
  pub account_id : Option Text
  pub provider : Option AccountProvider
  pub wallet_kind : Option WalletKind
  pub wallet_id : Option Text
  pub provider_payment_hash : Option Text
  pub payment_hash : Text
  pub user_pubkey : Text
  pub invoice : Text
  pub preimage : Option Text
  pub expired_at : Option ℕ
  pub invoice_expiry : ℕ
  pub created_at : ℕ
  pub updated_at : ℕ
  pub domain : Option Text
  pub amount_received_sat : Option ℕ

pub record PendingZapReceipt : Type 0 where
  pub payment_hash : Text
  pub created_at : ℕ
  pub retry_count : ℕ
  pub next_retry_at : ℕ

-- A row of pending_zap_receipts has the time of its claim beside the receipt.
pub record ReceiptRow : Type 0 where
  pub receipt : PendingZapReceipt
  pub claimed_at : Option ℕ

pub record NewWebhookDelivery : Type 0 where
  pub identifier : Text
  pub domain : Text
  pub payload : Text

pub record WebhookDelivery : Type 0 where
  pub id : ℕ
  pub identifier : Text
  pub domain : Text
  pub url : Option Text
  pub payload : Text
  pub created_at : ℕ
  pub retry_count : ℕ
  pub next_retry_at : ℕ

-- A row of webhook_deliveries has the columns of the queue beside the delivery.
pub record DeliveryRow : Type 0 where
  pub delivery : WebhookDelivery
  pub succeeded_at : Option ℕ
  pub claimed_at : Option ℕ
  pub last_error_status_code : Option ℕ
  pub last_error_body : Option Text

pub record WebhookConfig : Type 0 where
  pub domain : Text
  pub url : Text
  pub secret : Text

pub record SettingRow : Type 0 where
  pub key : Text
  pub value : Text

-- The whole database: the tables on accounts and those on payments.
pub record Store : Type 0 where
  pub db : Db
  pub zaps : List Zap
  pub sender_comments : List LnurlSenderComment
  pub invoices : List Invoice
  pub pending_zap_receipts : List ReceiptRow
  pub webhook_deliveries : List DeliveryRow
  pub domain_webhooks : List WebhookConfig
  pub allowed_domains : List Text
  pub settings : List SettingRow

-- COALESCE of two columns.
abbrev pub coalesce {ℓ} : {A : Type ℓ} → Option A → Option A → Option A
coalesce none b = b
coalesce (some a) b = some a

-- `IN (…)` over bound texts.
abbrev pub contains : List Text → Text → Bool
contains texts t = any (λ x. x == t) texts

-- REFERENCES accounts(account_id).
abbrev pub refers : Db → Option Text → Bool
refers db none = true
refers db (some id) = exists (account_is id) db.accounts

abbrev pub foreign_key_violation : LnurlRepositoryError
foreign_key_violation = from_sqlx (database false none)

-- INSERT … ON CONFLICT DO UPDATE: `of_key` tests for the conflicting row, which is then merged with
-- the new one.
unfoldable pub upsert : {A : Type 0} → (A → Bool) → (A → A) → A → List A → List A
upsert of_key merge new rows = if exists of_key rows then update of_key merge rows else new ∷ rows

-- ORDER BY a number, ascending.
unfoldable pub insert_by : {A : Type 0} → (A → ℕ) → A → List A → List A
insert_by key x [] = x ∷ []
insert_by key x (y ∷ ys) =
    let rest = insert_by key x ys in if ltb (key y) (key x) then y ∷ rest else x ∷ y ∷ ys

unfoldable pub sort_by : {A : Type 0} → (A → ℕ) → List A → List A
unfolding insert_by
sort_by key [] = []
sort_by key (x ∷ xs) = insert_by key x (sort_by key xs)

-- A claim is stale after five minutes; a row that was never claimed counts as claimed at 0.
abbrev pub claim_or_zero : Option ℕ → ℕ
claim_or_zero none = 0
claim_or_zero (some t) = t

unfoldable pub is_unclaimed : ℕ → Option ℕ → Bool
is_unclaimed now claimed_at = ltb (claim_or_zero claimed_at) (now - 300000)

abbrev pub i64_max_millis : ℕ
i64_max_millis = 9223372036854775807
