-- ===== src/Webhooks/Fair.antt =====
-- A poll takes one delivery of each domain that has any to send.
use blink_lnurl_server.Prelude.{
  ℕ, ◌≤◌, ◌≡◌, refl, ◌∙◌, Bool-cases, inl, inr, Bool, true, false, ◌&&◌, ◌||◌, List, [], ◌∷◌, map,
  arith, length, ltb, nat_eq, retain, if◌then◌else◌, Text, ◌==◌, eq_iff,
}
use blink_lnurl_server.Sqlite.Query.{exists, count}
use blink_lnurl_server.Sqlite.Query.Laws.{count-eq-zero}
use blink_lnurl_server.Sqlite.Query.Keys.{Every, Every-mono, Distinct, exists-none}
use blink_lnurl_server.Payments.{DeliveryRow, Store}
use blink_lnurl_server.Payments.Deliveries.{
  is_candidate, stands_before, is_first, take_pending_webhook_deliveries,
}
use blink_lnurl_server.Webhooks.Keys.{same_id}

-- The order within a domain.
abbrev earlier : DeliveryRow → DeliveryRow → Bool
earlier r x =
    ltb x.delivery.next_retry_at r.delivery.next_retry_at
    || (nat_eq x.delivery.next_retry_at r.delivery.next_retry_at && ltb x.delivery.id r.delivery.id)

-- A row that passes the test and that no other such row stands before.
abbrev IsLeast : (DeliveryRow → Bool) → List DeliveryRow → DeliveryRow → Type 0
IsLeast p rows m = (p m ≡ true) × (exists (λ x. p x && earlier m x) rows ≡ false)

least :
    (p : DeliveryRow → Bool) (rows : List DeliveryRow)
    → exists p rows ≡ true
    → (m : DeliveryRow) × IsLeast p rows m
      × ((q : DeliveryRow → Bool) → q m ≡ true → exists q rows ≡ true)
unfolding exists
least p [] h = absurd (cc h)
least p (r ∷ rows) h = elim (Bool-cases (exists p rows)) [
  | inr alone ↦ (
    r,
    (
      ground arith,
      ground (arith, exists-none (λ x. p x && earlier r x) p rows (λ x k. ground arith) alone),
    ),
    λ q k. rw k refl,
  )
  | inl others ↦
      let (m, (pm, first), at) = least p rows others in
      elim (Bool-cases (p r && earlier m r)) [
        | inl before ↦ (
          r,
          (
            ground arith,
            ground (
              arith,
              exists-none (λ x. p x && earlier r x) (λ x. p x && earlier m x) rows
                  (λ x k. ground arith) first,
            ),
          ),
          λ q k. rw k refl,
        )
        | inr after ↦ (m, (pm, rw after first), λ q k. ground (arith, at q k))
      ]
]

-- The row is in the table.
abbrev IsAt : List DeliveryRow → DeliveryRow → Type 0
IsAt rows x = (q : DeliveryRow → Bool) → q x ≡ true → exists q rows ≡ true

all-IsAt : (rows : List DeliveryRow) → Every (IsAt rows) rows
unfolding exists
all-IsAt [] = tt
all-IsAt (r ∷ rows) = (
  λ q k. rw k refl,
  Every-mono (IsAt rows) (IsAt (r ∷ rows)) rows (λ x at q k. ground (arith, at q k))
      (all-IsAt rows),
)

module _ {A : Type 0} where
  none-Every :
      (P : A → Type 0) (p q : A → Bool) (rows : List A)
      → ((x : A) → P x → p x ≡ true → q x ≡ true)
      → Every P rows
      → exists q rows ≡ false
      → exists p rows ≡ false
  unfolding exists
  none-Every P p q [] k e h = refl
  none-Every P p q (r ∷ rows) k e h = ground (arith, k r e.0, none-Every P p q rows k e.1)

  count-pos : (p : A → Bool) (rows : List A) → exists p rows ≡ true → 1 ≤ count p rows
  unfolding exists count
  count-pos p [] h = absurd (cc h)
  count-pos p (r ∷ rows) h = ground (arith, count-pos p rows)

  length-selected :
      {B : Type 0} (q : A → Bool) (f : A → B) (p : B → Bool) (rows : List A)
      → length (retain p (map f (retain q rows))) ≡ count (λ r. q r && p (f r)) rows
  unfolding retain count
  length-selected q f p [] = refl
  length-selected q f p (r ∷ rows) = ground (arith, length-selected q f p rows)

module _ (now : ℕ) (domain : Text) where
  abbrev pub due_on : DeliveryRow → Bool
  due_on r = is_candidate now r && r.delivery.domain == domain

  abbrev first_on : List DeliveryRow → DeliveryRow → Bool
  first_on whole r = is_first now whole r && r.delivery.domain == domain

  -- Two rows that are first on one domain have one id.
  firsts-same_id :
      (whole : List DeliveryRow) (r x : DeliveryRow)
      → IsAt whole r
      → IsAt whole x
      → first_on whole r ≡ true
      → first_on whole x ≡ true
      → same_id r x ≡ true
  unfolding is_first stands_before
  firsts-same_id whole r x ar ax fr fx =
      let dr : (r.delivery.domain == domain) ≡ true = ground (arith, fr) in
      let dx : (x.delivery.domain == domain) ≡ true = ground (arith, fx) in
      let same : (x.delivery.domain == r.delivery.domain) ≡ true = rw ((eq_iff _ _).0 dr) dx in
      let back : (r.delivery.domain == x.delivery.domain) ≡ true = rw ((eq_iff _ _).0 dx) dr in
      ground (
        arith,
        fr,
        fx,
        same,
        back,
        ax (λ y. is_candidate now y && stands_before r y),
        ar (λ y. is_candidate now y && stands_before x y),
      )

  count-first_le :
      (whole rows : List DeliveryRow)
      → Every (IsAt whole) rows
      → Distinct same_id rows
      → count (first_on whole) rows ≤ 1
  unfolding count
  count-first_le whole [] a d = omega arith
  count-first_le whole (r ∷ rows) a d = elim (Bool-cases (first_on whole r)) [
    | inl hit ↦
        let alone =
          none-Every (IsAt whole) (first_on whole) (same_id r) rows
            (λ x at f. firsts-same_id whole r x a.0 at hit f) a.1 d.0 in
        rw hit (omega (arith, count-eq-zero (first_on whole) rows alone))
    | inr miss ↦ rw miss (count-first_le whole rows a.1 d.1)
  ]

  least-first :
      (rows : List DeliveryRow) (m : DeliveryRow)
      → due_on m ≡ true
      → exists (λ x. due_on x && earlier m x) rows ≡ false
      → first_on rows m ≡ true
  unfolding is_first
  least-first rows m due first =
      let dm : (m.delivery.domain == domain) ≡ true = ground (arith, due) in
      let none_before : exists (λ x. is_candidate now x && stands_before m x) rows ≡ false =
        exists-none (λ x. is_candidate now x && stands_before m x) (λ x. due_on x && earlier m x)
          rows
          (λ x k.
            let dx : (x.delivery.domain == m.delivery.domain) ≡ true = ground (arith, k) in
            let d : (x.delivery.domain == domain) ≡ true = rw ((eq_iff _ _).0 dx) dm in
            ground (arith, k, d))
          first in
      ground (arith, due, none_before)

  first-due_on :
      (rows : List DeliveryRow) (r : DeliveryRow) → first_on rows r ≡ true → due_on r ≡ true
  unfolding is_first
  first-due_on rows r k = ground (arith, k)

  -- A domain that has a delivery to send has one that is first.
  exists-first :
      (rows : List DeliveryRow) → exists due_on rows ≡ true → exists (first_on rows) rows ≡ true
  unfolding is_first stands_before
  exists-first rows h =
      let (m, (due, first), at) = least due_on rows h in
      at (first_on rows) (least-first rows m due first)

  -- Of the deliveries of a domain that are to be sent, a poll takes exactly one, and none of a domain
  -- that has none to send, if no two deliveries have one id.
  pub take-one_each :
      (s : Store)
      → Distinct same_id s.webhook_deliveries
      → length (retain (λ d. d.domain == domain) (take_pending_webhook_deliveries now s).0)
        ≡ (if exists due_on s.webhook_deliveries then 1 else 0)
  unfolding take_pending_webhook_deliveries
  take-one_each s d =
      let rows = s.webhook_deliveries in
      let counted =
        length-selected (is_first now rows) (λ r. r.delivery) (λ x. x.domain == domain) rows in
      elim (Bool-cases (exists due_on rows)) [
        | inl some_due ↦ rw some_due (
            omega (
              arith,
              counted,
              count-first_le rows rows (all-IsAt rows) d,
              count-pos (first_on rows) rows (exists-first rows some_due),
            ))
        | inr none_due ↦ rw none_due (
            counted
            ∙ count-eq-zero (first_on rows) rows
                (exists-none (first_on rows) due_on rows (λ r k. first-due_on rows r k) none_due))
      ]
