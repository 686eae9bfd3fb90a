-- ===== src/Payments/Payloads.antt =====
-- What a webhook says of a paid invoice: `get_webhook_payloads` of src/sqlite/repository.rs and
-- src/webhook_notify.rs. The JSON text of a payload is written by the library serde_json, which is
-- the parameter `to_json`.
use blink_lnurl_server.Prelude.{
  ℕ, Bool, ◌&&◌, ◌||◌, Option, none, some, List, [], ◌∷◌, ◌++◌, ltb, nat_eq, if◌then◌else◌, retain,
  Text, text, ◌==◌, Result, ok, err, ◌>>=◌,
}
use blink_lnurl_server.Repository.{
  AccountIdentifierKind, username, phone, LnurlRepositoryError, general,
}
use blink_lnurl_server.Sqlite.Query.{find}
use blink_lnurl_server.Sqlite.Tables.{IdentifierRow}
use blink_lnurl_server.Sqlite.Recipient.{text_lt}
use blink_lnurl_server.Payments.{Invoice, LnurlSenderComment, NewWebhookDelivery, Store, contains}
use blink_lnurl_server.Payments.Zaps.{comment_of, column}
use blink_lnurl_server.Payments.Deliveries.{insert_webhook_deliveries}

pub record WebhookPayloadData : Type 0 where
  pub account_id : Option Text
  pub payment_hash : Text
  pub user_pubkey : Text
  pub invoice : Text
  pub preimage : Text
  pub amount_received_sat : Option ℕ
  pub lightning_address : Option Text
  pub sender_comment : Option Text
  pub domain : Text

abbrev pub kind_rank : AccountIdentifierKind → ℕ
kind_rank username = 0
kind_rank phone = 1

-- The order of the inner SELECT: usernames first, then by the identifier.
abbrev pub precedes : IdentifierRow → IdentifierRow → Bool
precedes x y =
    ltb (kind_rank x.identifier_kind) (kind_rank y.identifier_kind)
    || (nat_eq (kind_rank x.identifier_kind) (kind_rank y.identifier_kind)
        && text_lt x.identifier y.identifier)

abbrev pub earlier_of : IdentifierRow → Option IdentifierRow → IdentifierRow
earlier_of r none = r
earlier_of r (some other) = if precedes other r then other else r

unfoldable pub first_identifier : List IdentifierRow → Option IdentifierRow
unfolding text_lt
first_identifier [] = none
first_identifier (r ∷ rows) = some (earlier_of r (first_identifier rows))

abbrev pub identifier_on : Text → Text → IdentifierRow → Bool
identifier_on account_id domain r = r.account_id == account_id && r.domain == domain

abbrev pub address : IdentifierRow → Option Text
address r = some (r.identifier ++ text "@" ++ r.domain)

-- The join with account_identifiers; an invoice without an account has no row there.
unfoldable pub lightning_address : Option Text → Text → List IdentifierRow → Option Text
unfolding first_identifier
lightning_address none domain rows = none
lightning_address (some account_id) domain rows =
    column address (first_identifier (retain (identifier_on account_id domain) rows))

abbrev pub payload_data :
    List IdentifierRow → List LnurlSenderComment → Invoice → Text → Text → WebhookPayloadData
payload_data identifiers comments i preimage domain = record {
  account_id = i.account_id;
  payment_hash = i.payment_hash;
  user_pubkey = i.user_pubkey;
  invoice = i.invoice;
  preimage = preimage;
  amount_received_sat = i.amount_received_sat;
  lightning_address = lightning_address i.account_id domain identifiers;
  sender_comment = column (λ r. some r.comment) (find (comment_of i.payment_hash) comments);
  domain = domain;
}

module _ (identifiers : List IdentifierRow) (comments : List LnurlSenderComment) where
  -- The row of an invoice, where its domain and its preimage are not NULL.
  unfoldable pub payload_row : Invoice → Option Text → Option Text → List WebhookPayloadData
  payload_row i none preimage = []
  payload_row i (some domain) none = []
  payload_row i (some domain) (some preimage) =
      payload_data identifiers comments i preimage domain ∷ []

  unfoldable pub payload_rows : List Text → List Invoice → List WebhookPayloadData
  unfolding payload_row
  payload_rows hashes [] = []
  payload_rows hashes (i ∷ invoices) =
      let rest = payload_rows hashes invoices in
      if contains hashes i.payment_hash then payload_row i i.domain i.preimage ++ rest else rest

unfoldable pub get_webhook_payloads : List Text → Store → List WebhookPayloadData
get_webhook_payloads hashes s =
    payload_rows s.db.account_identifiers s.sender_comments hashes s.invoices

pub data WebhookPayload : Type 0 where
  payment_received :
      (payment_hash invoice preimage : Text) (amount_sat : Option ℕ)
      (lightning_address sender_comment : Option Text) (timestamp : ℕ)
      → WebhookPayload

unfoldable pub payload_of : ℕ → WebhookPayloadData → WebhookPayload
payload_of now item =
    payment_received item.payment_hash item.invoice item.preimage item.amount_received_sat
      item.lightning_address item.sender_comment now

module _ (to_json : WebhookPayload → Option Text) where
  -- One round of the loop.
  unfoldable pub delivery_of :
      ℕ → WebhookPayloadData → Result LnurlRepositoryError NewWebhookDelivery
  unfolding payload_of
  delivery_of now item = elim (to_json (payload_of now item)) [
    | none ↦ err general
    | some json ↦
        ok (record { identifier = item.payment_hash; domain = item.domain; payload = json })
  ]

  unfoldable pub deliveries_of :
      ℕ → List WebhookPayloadData → Result LnurlRepositoryError (List NewWebhookDelivery)
  deliveries_of now [] = ok []
  deliveries_of now (item ∷ data_rows) = do
    d ← delivery_of now item
    deliveries ← deliveries_of now data_rows
    ok (d ∷ deliveries)

  unfoldable pub notify_webhooks : ℕ → List Text → Store → Result LnurlRepositoryError Store
  notify_webhooks now hashes s = do
    deliveries ← deliveries_of now (get_webhook_payloads hashes s)
    ok (insert_webhook_deliveries now deliveries s)
