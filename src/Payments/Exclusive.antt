-- ===== src/Payments/Exclusive.antt =====
-- Histories of the queue of zap receipts: who holds a receipt, and how many are handed out.
use blink_lnurl_server.Prelude.{
  ℕ, zero, suc, ◌+◌, ◌≤◌, ◌≡◌, refl, sym, ◌∙◌, Bool-cases, inl, inr, Bool, true, false, not, ◌&&◌,
  List, [], ◌∷◌, map, any, all, arith, retain, take, leb, Text, ◌==◌, eq_iff, eq_apart,
}
use blink_lnurl_server.Sqlite.Query.{exists, update}
use blink_lnurl_server.Sqlite.Query.Laws.{exists-update, exists-delete_keep}
use blink_lnurl_server.Sqlite.Query.Keys.{
  Every, Every-exists, exists_mono, Every-delete, Every-update,
}
use blink_lnurl_server.Payments.{
  PendingZapReceipt, ReceiptRow, Store, sort_by, contains, claim_or_zero, is_unclaimed,
}
use blink_lnurl_server.Payments.Counts.{exists-retain, exists-sort_by}
use blink_lnurl_server.Payments.Receipts.{
  receipt_of, receipt_hash, insert_receipt, insert_pending_zap_receipt, has_hash, is_due,
  due_hashes, claim_receipt, take_pending_zap_receipts, retry_receipt,
  update_pending_zap_receipt_retry, delete_pending_zap_receipt,
}

pub data QueueCall : Type 0 where
  enqueues : PendingZapReceipt → QueueCall
  takes : (now limit : ℕ) → QueueCall
  retries : (payment_hash : Text) (retry_count next_retry_at : ℕ) → QueueCall
  removes : Text → QueueCall

unfoldable pub queue_step : QueueCall → Store → Store
queue_step (enqueues pending) s = insert_pending_zap_receipt pending s
queue_step (takes now limit) s = (take_pending_zap_receipts now limit s).1
queue_step (retries payment_hash retry_count next_retry_at) s =
    update_pending_zap_receipt_retry payment_hash retry_count next_retry_at s
queue_step (removes payment_hash) s = delete_pending_zap_receipt payment_hash s

unfoldable pub queue_run : List QueueCall → Store → Store
queue_run [] s = s
queue_run (c ∷ calls) s = queue_run calls (queue_step c s)

-- The call neither ends the work on the receipt, nor takes receipts before `t`.
abbrev pub leaves : Text → ℕ → QueueCall → Bool
leaves payment_hash t (enqueues pending) = true
leaves payment_hash t (takes now limit) = leb t now
leaves payment_hash t (retries h n next) = not (h == payment_hash)
leaves payment_hash t (removes h) = not (h == payment_hash)

abbrev pub hands_out : Text → List PendingZapReceipt → Bool
hands_out payment_hash = any (λ item. item.payment_hash == payment_hash)

-- Every row of the payment hash was claimed at `t` or later.
abbrev HeldRow : Text → ℕ → ReceiptRow → Type 0
HeldRow payment_hash t r = receipt_of payment_hash r ≡ true → t ≤ claim_or_zero r.claimed_at

record IsHeld (payment_hash : Text) (t : ℕ) (s : Store) : Type 0 where
  pub there : exists (receipt_of payment_hash) s.pending_zap_receipts ≡ true
  pub held : Every (HeldRow payment_hash t) s.pending_zap_receipts

module _ {A B : Type 0} (f : A → B) (p : B → Bool) where
  pub any-map : (xs : List A) → any p (map f xs) ≡ exists (λ x. p (f x)) xs
  unfolding any exists
  any-map [] = refl
  any-map (x ∷ xs) = rw (any-map xs) refl

module _ {A : Type 0} where
  exists-take :
      (p : A → Bool) (n : ℕ) (xs : List A) → exists p (take n xs) ≡ true → exists p xs ≡ true
  unfolding exists
  exists-take p zero xs e = absurd (cc e)
  exists-take p (suc n) [] e = e
  exists-take p (suc n) (x ∷ xs) e = ground (arith, exists-take p n xs)

  Every-updated :
      (P : A → Type 0) (q : A → Bool) (f : A → A) (rows : List A)
      → ((r : A) → q r ≡ true → P (f r))
      → ((r : A) → q r ≡ false → P r)
      → Every P (update q f rows)
  unfolding update
  Every-updated P q f [] k l = tt
  Every-updated P q f (r ∷ rows) k l = elim (Bool-cases (q r)) [
    | inl hit ↦ rw hit (k r hit, Every-updated P q f rows k l)
    | inr miss ↦ rw miss (l r miss, Every-updated P q f rows k l)
  ]

  any_row : (rows : List A) → Every (λ r. Unit {0}) rows
  any_row [] = tt
  any_row (r ∷ rows) = (tt, any_row rows)

module _ (h : Text) (t : ℕ) where
  other_row :
      (other : Text) (r : ReceiptRow)
      → not (other == h) ≡ true
      → receipt_of h r ≡ true
      → receipt_of other r ≡ false
  other_row other r l m = eq_apart (receipt_hash r) other h (ground arith) m

  step-IsHeld :
      (c : QueueCall) (s : Store) → leaves h t c ≡ true → IsHeld h t s → IsHeld h t (queue_step c s)
  unfolding queue_step exists insert_pending_zap_receipt insert_receipt take_pending_zap_receipts
      update_pending_zap_receipt_retry delete_pending_zap_receipt
  step-IsHeld (enqueues pending) s l i =
      elim (Bool-cases (exists (receipt_of pending.payment_hash) s.pending_zap_receipts)) [
        | inl known ↦ rw known i
        | inr fresh ↦ rw fresh record {
          there = ground (arith, i.there);
          held = (λ m. absurd (cc (i.there, rw ((eq_iff _ _).0 m) at fresh)), i.held);
        }
      ]
  step-IsHeld (takes now limit) s l i =
      let chosen = has_hash (due_hashes now limit s.pending_zap_receipts) in
      record {
        there =
            exists-update (receipt_of h) chosen (claim_receipt now) s.pending_zap_receipts
              (λ r. refl)
            ∙ i.there;
        held =
            Every-update (HeldRow h t) chosen (claim_receipt now) s.pending_zap_receipts
              (λ r c k m. ground arith) i.held;
      }
  step-IsHeld (retries other n next) s l i = record {
    there =
        exists-update (receipt_of h) (receipt_of other) (retry_receipt n next)
          s.pending_zap_receipts (λ r. refl)
        ∙ i.there;
    held =
        Every-update (HeldRow h t) (receipt_of other) (retry_receipt n next) s.pending_zap_receipts
          (λ r c k m. absurd (cc (c, other_row other r l m))) i.held;
  }
  step-IsHeld (removes other) s l i = record {
    there =
        exists-delete_keep (receipt_of h) (receipt_of other) s.pending_zap_receipts
          (λ r m. other_row other r l m)
        ∙ i.there;
    held = Every-delete (HeldRow h t) (receipt_of other) s.pending_zap_receipts i.held;
  }

  run-IsHeld :
      (calls : List QueueCall) (s : Store)
      → all (leaves h t) calls ≡ true
      → IsHeld h t s
      → IsHeld h t (queue_run calls s)
  unfolding queue_run all
  run-IsHeld [] s l i = i
  run-IsHeld (c ∷ calls) s l i =
      run-IsHeld calls (queue_step c s) (ground arith) (step-IsHeld c s (ground arith) i)

  -- A take hands out `h` where that is one of the hashes that it selects.
  handed-contains :
      (now limit : ℕ) (s : Store)
      → hands_out h (take_pending_zap_receipts now limit s).0 ≡ true
      → (contains (due_hashes now limit s.pending_zap_receipts) h ≡ true)
        × (exists (receipt_of h) s.pending_zap_receipts ≡ true)
  unfolding take_pending_zap_receipts
  handed-contains now limit s out =
      let rows = s.pending_zap_receipts in
      let hashes = due_hashes now limit rows in
      let kept : exists (λ r. has_hash hashes r && receipt_of h r) rows ≡ true =
        exists-retain (receipt_of h) (has_hash hashes) rows (
          sym (
            any-map (λ r. r.receipt) (λ item. item.payment_hash == h)
              (retain (has_hash hashes) rows))
          ∙ out) in
      let (r, both, u) =
        Every-exists (λ r. Unit {0}) (λ r. has_hash hashes r && receipt_of h r) rows (any_row rows)
          kept in
      let mine : receipt_of h r ≡ true = ground (arith, both) in
      let chosen : has_hash hashes r ≡ true = ground (arith, both) in
      (
        rw ((eq_iff _ _).0 mine) at chosen,
        exists_mono (λ r. has_hash hashes r && receipt_of h r) (receipt_of h) rows
            (λ r k. ground arith) kept,
      )

  take-IsHeld :
      (limit : ℕ) (s : Store)
      → hands_out h (take_pending_zap_receipts t limit s).0 ≡ true
      → IsHeld h t (take_pending_zap_receipts t limit s).1
  unfolding take_pending_zap_receipts
  take-IsHeld limit s out =
      let rows = s.pending_zap_receipts in
      let chosen = has_hash (due_hashes t limit rows) in
      let (selected, there) = handed-contains t limit s out in
      record {
        there = exists-update (receipt_of h) chosen (claim_receipt t) rows (λ r. refl) ∙ there;
        held =
            Every-updated (HeldRow h t) chosen (claim_receipt t) rows (λ r c m. omega arith)
              λ r missed m. absurd (cc (selected, rw ((eq_iff _ _).0 m) at missed));
      }

  -- Held rows are not due within five minutes.
  held-not_due :
      (now limit : ℕ) (s : Store)
      → now ≤ t + 300000
      → IsHeld h t s
      → contains (due_hashes now limit s.pending_zap_receipts) h ≡ false
  unfolding due_hashes is_due is_unclaimed
  held-not_due now limit s w i =
      let rows = s.pending_zap_receipts in
      elim (Bool-cases (contains (due_hashes now limit rows) h)) [
        | inr apart ↦ apart
        | inl selected ↦
            let sorted = sort_by (λ r. r.receipt.next_retry_at) (retain (is_due now) rows) in
            let listed : exists (receipt_of h) (take limit sorted) ≡ true =
              sym (any-map receipt_hash (λ x. x == h) (take limit sorted)) ∙ selected in
            let due : exists (λ r. is_due now r && receipt_of h r) rows ≡ true =
              exists-retain (receipt_of h) (is_due now) rows (
                sym (
                  exists-sort_by (receipt_of h) (λ r. r.receipt.next_retry_at)
                    (retain (is_due now) rows))
                ∙ exists-take (receipt_of h) limit sorted listed) in
            let (r, both, held) =
              Every-exists (HeldRow h t) (λ r. is_due now r && receipt_of h r) rows i.held due in
            let claimed : t ≤ claim_or_zero r.claimed_at = held (ground (arith, both)) in
            absurd (ground (arith, both, claimed))
      ]

  -- A receipt that a take hands out is handed out by no other take for five minutes, whatever other
  -- takes, insertions, retries and deletions come between, if those are of other receipts and the
  -- takes are not earlier.
  pub take-exclusive :
      (limit now other : ℕ) (calls : List QueueCall) (s : Store)
      → hands_out h (take_pending_zap_receipts t limit s).0 ≡ true
      → all (leaves h t) calls ≡ true
      → now ≤ t + 300000
      → hands_out h
          (take_pending_zap_receipts now other
            (queue_run calls (take_pending_zap_receipts t limit s).1)).0
        ≡ false
  take-exclusive limit now other calls s out l w =
      let later = queue_run calls (take_pending_zap_receipts t limit s).1 in
      let held =
        run-IsHeld calls (take_pending_zap_receipts t limit s).1 l (take-IsHeld limit s out) in
      elim (Bool-cases (hands_out h (take_pending_zap_receipts now other later).0)) [
        | inl again ↦
            absurd
              (cc (held-not_due now other later w held, (handed-contains now other later again).0))
        | inr apart ↦ apart
      ]
