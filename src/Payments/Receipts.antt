-- ===== src/Payments/Receipts.antt =====
-- The queue of zap receipts of src/sqlite/repository.rs.
use blink_lnurl_server.Prelude.{
  ℕ, Bool, ◌&&◌, none, some, List, [], ◌∷◌, map, leb, if◌then◌else◌, retain, take, Text, ◌==◌,
}
use blink_lnurl_server.Sqlite.Query.{exists, delete, update}
use blink_lnurl_server.Payments.{
  PendingZapReceipt, ReceiptRow, Store, contains, sort_by, is_unclaimed,
}

abbrev pub receipt_of : Text → ReceiptRow → Bool
receipt_of payment_hash r = r.receipt.payment_hash == payment_hash

abbrev pub receipt_hash : ReceiptRow → Text
receipt_hash r = r.receipt.payment_hash

-- INSERT … ON CONFLICT DO NOTHING, of both methods.
unfoldable pub insert_receipt : PendingZapReceipt → List ReceiptRow → List ReceiptRow
insert_receipt pending rows =
    if exists (receipt_of pending.payment_hash) rows
    then rows
    else record { receipt = pending; claimed_at = none } ∷ rows

unfoldable pub insert_pending_zap_receipt : PendingZapReceipt → Store → Store
insert_pending_zap_receipt pending s = record s {
  pending_zap_receipts = insert_receipt pending s.pending_zap_receipts;
}

-- The loop of the batch.
unfoldable pub insert_receipts : List PendingZapReceipt → List ReceiptRow → List ReceiptRow
unfolding insert_receipt
insert_receipts [] rows = rows
insert_receipts (item ∷ pending) rows = insert_receipts pending (insert_receipt item rows)

unfoldable pub insert_pending_zap_receipt_batch : List PendingZapReceipt → Store → Store
insert_pending_zap_receipt_batch pending s = record s {
  pending_zap_receipts = insert_receipts pending s.pending_zap_receipts;
}

-- The WHERE of the inner SELECT.
unfoldable pub is_due : ℕ → ReceiptRow → Bool
unfolding is_unclaimed
is_due now r = leb r.receipt.next_retry_at now && is_unclaimed now r.claimed_at

-- The payment hashes of the inner SELECT.
unfoldable pub due_hashes : ℕ → ℕ → List ReceiptRow → List Text
due_hashes now limit rows =
    map receipt_hash
      (take limit (sort_by (λ r. r.receipt.next_retry_at) (retain (is_due now) rows)))

abbrev pub has_hash : List Text → ReceiptRow → Bool
has_hash hashes r = contains hashes (receipt_hash r)

abbrev pub claim_receipt : ℕ → ReceiptRow → ReceiptRow
claim_receipt now r = record r { claimed_at = some now }

-- The receipts that RETURNING yields, and the table with their claims.
unfoldable pub take_pending_zap_receipts : ℕ → ℕ → Store → List PendingZapReceipt × Store
take_pending_zap_receipts now limit s =
    let chosen = has_hash (due_hashes now limit s.pending_zap_receipts) in
    (
      map (λ r. r.receipt) (retain chosen s.pending_zap_receipts),
      record s { pending_zap_receipts = update chosen (claim_receipt now) s.pending_zap_receipts },
    )

abbrev pub retry_receipt : ℕ → ℕ → ReceiptRow → ReceiptRow
retry_receipt retry_count next_retry_at r = record r {
  receipt = record r.receipt { retry_count = retry_count; next_retry_at = next_retry_at };
  claimed_at = none;
}

unfoldable pub update_pending_zap_receipt_retry : Text → ℕ → ℕ → Store → Store
update_pending_zap_receipt_retry payment_hash retry_count next_retry_at s = record s {
  pending_zap_receipts =
      update (receipt_of payment_hash) (retry_receipt retry_count next_retry_at)
        s.pending_zap_receipts;
}

unfoldable pub delete_pending_zap_receipt : Text → Store → Store
delete_pending_zap_receipt payment_hash s = record s {
  pending_zap_receipts = delete (receipt_of payment_hash) s.pending_zap_receipts;
}
