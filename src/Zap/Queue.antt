-- ===== src/Zap/Queue.antt =====
-- What a take of the zap receipts changes in their queue.
use blink_lnurl_server.Prelude.{
  ℕ, zero, suc, ◌+◌, ◌*◌, ◌/◌, ◌-◌, ◌^◌, ◌≤◌, ◌<◌, ◌≡◌, refl, sym, ◌∙◌, Bool-cases, inl, inr, Bool,
  true, false, ◌&&◌, List, [], ◌∷◌, map, any, arith, is_empty, retain, take, ltb, ◌==◌, eq_refl,
}
use native.Mathlib.Nat.{pow-le-pow_left, pow-le-pow_right, le-div_iff_mul-le, mul-le-mul_left}
use blink_lnurl_server.Sqlite.Query.{exists, count}
use blink_lnurl_server.Sqlite.Query.Keys.{exists_mono}
use blink_lnurl_server.Payments.{ReceiptRow, Store, sort_by, is_unclaimed, claim_or_zero}
use blink_lnurl_server.Payments.Receipts.{
  receipt_hash, has_hash, is_due, due_hashes, claim_receipt, take_pending_zap_receipts,
}
use blink_lnurl_server.Payments.Counts.{count-update-lt, exists-retain, exists-sort_by}
use blink_lnurl_server.Zap.{next_retry_delay}

-- No retry comes sooner than after the base delay.
pub next_retry_delay-ge : (n : ℕ) → 30000 ≤ next_retry_delay n
unfolding next_retry_delay
next_retry_delay-ge n =
    let one : 2 ^ 0 ≤ 2 ^ n = pow-le-pow_right (omega arith) {i = 0} (omega arith) in
    let pos : 0 < 2 ^ n = omega (arith, one) in
    let scaled : 30000 * 2 ^ n ≤ 30000 * 3 ^ n =
      mul-le-mul_left 30000 (pow-le-pow_left (omega arith) n) in
    let quotient : 30000 ≤ 30000 * 3 ^ n / 2 ^ n = (le-div_iff_mul-le pos).1 scaled in
    omega (arith, quotient)

-- The row may be taken before the time `end`.
abbrev pub is_open : ℕ → ReceiptRow → Bool
is_open end r = ltb r.receipt.next_retry_at end && ltb (claim_or_zero r.claimed_at) (end - 300000)

due-is_open :
    (end now : ℕ) (r : ReceiptRow) → now < end → is_due now r ≡ true → is_open end r ≡ true
unfolding is_due is_unclaimed
due-is_open end now r l h = ground arith

module _ {A : Type 0} where
  Every-none : (p : A → Bool) (xs : List A) → ((x : A) → p x ≡ false) → exists p xs ≡ false
  unfolding exists
  Every-none p [] k = refl
  Every-none p (x ∷ xs) k = ground (arith, k x, Every-none p xs k)

  -- A list with an element has one where its first element is.
  exists-head : (p : A → Bool) (x : A) (xs : List A) → p x ≡ true → exists p (x ∷ xs) ≡ true
  unfolding exists
  exists-head p x xs h = rw h refl

  retain-empty : (p : A → Bool) (xs : List A) → exists p xs ≡ false → retain p xs ≡ []
  unfolding exists retain
  retain-empty p [] h = refl
  retain-empty p (x ∷ xs) h = ground (arith, retain-empty p xs)

-- Where a take returns something, it has chosen a row that was due.
chosen_due :
    (now limit : ℕ) (rows : List ReceiptRow)
    → exists (has_hash (due_hashes now limit rows)) rows ≡ true
    → exists (λ r. is_due now r && has_hash (due_hashes now limit rows) r) rows ≡ true
unfolding due_hashes any
chosen_due now zero rows h = ground (arith, h, Every-none (has_hash []) rows (λ r. refl))
chosen_due now (suc limit) rows h =
    after (sort_by (λ r. r.receipt.next_retry_at) (retain (is_due now) rows)) refl h
  where
    after :
        (sorted : List ReceiptRow)
        → sort_by (λ r. r.receipt.next_retry_at) (retain (is_due now) rows) ≡ sorted
        → exists (has_hash (map receipt_hash (take (suc limit) sorted))) rows ≡ true
        → exists (λ r. is_due now r && has_hash (map receipt_hash (take (suc limit) sorted)) r) rows
          ≡ true
    after [] e h = ground (arith, h, Every-none (has_hash []) rows (λ r. refl))
    after (x ∷ sorted) e h =
        let p = λ (r : ReceiptRow). receipt_hash x == receipt_hash r in
        let kept : exists p (sort_by (λ r. r.receipt.next_retry_at) (retain (is_due now) rows))
            ≡ true =
          rw e (exists-head p x sorted (eq_refl (receipt_hash x))) in
        exists_mono (λ r. is_due now r && p r) _ rows (λ r k. ground arith)
          (exists-retain p (is_due now) rows (
            sym (exists-sort_by p (λ r. r.receipt.next_retry_at) (retain (is_due now) rows))
            ∙ kept))

abbrev pub opened : ℕ → Store → ℕ
opened end s = count (is_open end) s.pending_zap_receipts

-- What is claimed at `now` stays claimed up to `end`, if that is no five minutes later.
pub take_opened :
    (end now limit : ℕ) (s : Store)
    → now < end
    → end ≤ now + 300000
    → is_empty (take_pending_zap_receipts now limit s).0 ≡ false
    → opened end (take_pending_zap_receipts now limit s).1 < opened end s
unfolding take_pending_zap_receipts
take_opened end now limit s l w h =
    let rows = s.pending_zap_receipts in
    let chosen = has_hash (due_hashes now limit rows) in
    let some_chosen : exists chosen rows ≡ true = elim (Bool-cases (exists chosen rows)) [
      | inl there ↦ there
      | inr nowhere ↦ absurd (cc (rw (retain-empty chosen rows nowhere) at h))
    ] in
    count-update-lt (is_open end) chosen (claim_receipt now) rows (λ r c. ground arith)
      (exists_mono (λ r. is_due now r && chosen r) (λ r. is_open end r && chosen r) rows
        (λ r k. let d = due-is_open end now r l (ground arith) in ground arith)
        (chosen_due now limit rows some_chosen))
