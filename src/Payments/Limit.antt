-- ===== src/Payments/Limit.antt =====
-- How many zap receipts a take hands out.
use blink_lnurl_server.Prelude.{
  ℕ, zero, suc, ◌+◌, ◌≤◌, ◌≡◌, refl, Bool-cases, inl, inr, Bool, false, ◌||◌, List, [], ◌∷◌, map,
  any, arith, length, retain, take, Text, ◌==◌, eq_iff,
}
use blink_lnurl_server.Sqlite.Query.{exists}
use blink_lnurl_server.Sqlite.Query.Keys.{Distinct, Distinct-delete, Distinct-update, exists-none}
use blink_lnurl_server.Payments.{ReceiptRow, Store, sort_by}
use blink_lnurl_server.Payments.Receipts.{
  receipt_of, receipt_hash, insert_receipt, insert_pending_zap_receipt, has_hash, is_due,
  due_hashes, claim_receipt, take_pending_zap_receipts, retry_receipt,
  update_pending_zap_receipt_retry, delete_pending_zap_receipt,
}
use blink_lnurl_server.Payments.Exclusive.{
  QueueCall, enqueues, takes, retries, removes, queue_step, queue_run,
}

module _ {A : Type 0} where
  retain-or-le :
      (p q : A → Bool) (xs : List A)
      → length (retain (λ x. p x || q x) xs) ≤ length (retain p xs) + length (retain q xs)
  unfolding retain
  retain-or-le p q [] = omega arith
  retain-or-le p q (x ∷ xs) = ground (arith, retain-or-le p q xs)

  pub retain-none : (p : A → Bool) (xs : List A) → exists p xs ≡ false → length (retain p xs) ≡ 0
  unfolding exists retain
  retain-none p [] h = refl
  retain-none p (x ∷ xs) h = ground (arith, retain-none p xs)

  pub length-map : {B : Type 0} (f : A → B) (xs : List A) → length (map f xs) ≡ length xs
  length-map f [] = refl
  length-map f (x ∷ xs) = omega (arith, length-map f xs)

  length-take-le : (n : ℕ) (xs : List A) → length (take n xs) ≤ n
  length-take-le zero xs = omega arith
  length-take-le (suc n) [] = omega arith
  length-take-le (suc n) (x ∷ xs) = omega (arith, length-take-le n xs)

-- The primary key of the queue.
abbrev pub same_hash : ReceiptRow → ReceiptRow → Bool
same_hash r x = receipt_hash x == receipt_hash r

abbrev hash_eq : Text → ReceiptRow → Bool
hash_eq h r = h == receipt_hash r

one_row-le :
    (h : Text) (rows : List ReceiptRow)
    → Distinct same_hash rows
    → length (retain (hash_eq h) rows) ≤ 1
unfolding retain
one_row-le h [] d = omega arith
one_row-le h (r ∷ rows) d = elim (Bool-cases (hash_eq h r)) [
  | inl hit ↦
      let alone : exists (hash_eq h) rows ≡ false =
        exists-none (hash_eq h) (same_hash r) rows
          (λ x m. rw (← ((eq_iff h (receipt_hash x)).0 m)) hit) d.0 in
      rw hit (omega (arith, retain-none (hash_eq h) rows alone))
  | inr miss ↦ rw miss (one_row-le h rows d.1)
]

no_hashes : (rows : List ReceiptRow) → length (retain (has_hash []) rows) ≡ 0
unfolding retain any
no_hashes [] = refl
no_hashes (r ∷ rows) = no_hashes rows

retained-le :
    (hashes : List Text) (rows : List ReceiptRow)
    → Distinct same_hash rows
    → length (retain (has_hash hashes) rows) ≤ length hashes
unfolding any
retained-le [] rows d = omega (arith, no_hashes rows)
retained-le (h ∷ hashes) rows d = omega (
  arith,
  retain-or-le (hash_eq h) (has_hash hashes) rows,
  retained-le hashes rows d,
  one_row-le h rows d,
)

step-Distinct :
    (c : QueueCall) (s : Store)
    → Distinct same_hash s.pending_zap_receipts
    → Distinct same_hash (queue_step c s).pending_zap_receipts
unfolding queue_step insert_pending_zap_receipt insert_receipt take_pending_zap_receipts
    update_pending_zap_receipt_retry delete_pending_zap_receipt
step-Distinct (enqueues pending) s d =
    elim (Bool-cases (exists (receipt_of pending.payment_hash) s.pending_zap_receipts)) [
      | inl known ↦ rw known d
      | inr fresh ↦ rw fresh (fresh, d)
    ]
step-Distinct (takes now limit) s d =
    Distinct-update same_hash (has_hash (due_hashes now limit s.pending_zap_receipts))
      (claim_receipt now) s.pending_zap_receipts (λ r x. refl) (λ r x. refl) d
step-Distinct (retries h n next) s d =
    Distinct-update same_hash (receipt_of h) (retry_receipt n next) s.pending_zap_receipts
      (λ r x. refl) (λ r x. refl) d
step-Distinct (removes h) s d = Distinct-delete same_hash (receipt_of h) s.pending_zap_receipts d

run-Distinct :
    (calls : List QueueCall) (s : Store)
    → Distinct same_hash s.pending_zap_receipts
    → Distinct same_hash (queue_run calls s).pending_zap_receipts
unfolding queue_run
run-Distinct [] s d = d
run-Distinct (c ∷ calls) s d = run-Distinct calls (queue_step c s) (step-Distinct c s d)

-- No history gives a take more receipts than its limit, if the queue starts with one row for each
-- payment hash.
pub queue_run-takes_le :
    (calls : List QueueCall) (now limit : ℕ) (s : Store)
    → Distinct same_hash s.pending_zap_receipts
    → length (take_pending_zap_receipts now limit (queue_run calls s)).0 ≤ limit
unfolding take_pending_zap_receipts due_hashes
queue_run-takes_le calls now limit s d =
    let rows = (queue_run calls s).pending_zap_receipts in
    let key = λ (r : ReceiptRow). r.receipt.next_retry_at in
    let selected = take limit (sort_by key (retain (is_due now) rows)) in
    omega (
      arith,
      length-map (λ (r : ReceiptRow). r.receipt)
          (retain (has_hash (map receipt_hash selected)) rows),
      retained-le (map receipt_hash selected) rows (run-Distinct calls s d),
      length-map receipt_hash selected,
      length-take-le limit (sort_by key (retain (is_due now) rows)),
    )
