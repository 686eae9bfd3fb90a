-- ===== src/Webhooks/Once.antt =====
-- A webhook that was delivered is not delivered again.
use blink_lnurl_server.Prelude.{
  ℕ, ◌≡◌, sym, ◌∙◌, Bool-cases, inl, inr, Bool, true, false, ◌&&◌, List, [], ◌∷◌, map, any, all,
  arith, retain, Text, ◌==◌, eq_iff, is_some, is_none,
}
use blink_lnurl_server.Sqlite.Query.{exists}
use blink_lnurl_server.Sqlite.Query.Keys.{Every, Every-exists, Every-update}
use blink_lnurl_server.Payments.{WebhookDelivery, DeliveryRow, Store}
use blink_lnurl_server.Payments.Laws.{exists-update_mono}
use blink_lnurl_server.Payments.Counts.{exists-retain}
use blink_lnurl_server.Payments.Exclusive.{any-map}
use blink_lnurl_server.Payments.Deliveries.{
  delivers, insert_delivery, is_candidate, is_first, take_pending_webhook_deliveries,
}
use blink_lnurl_server.Webhooks.{DeliveryCall, delivery_run}
use blink_lnurl_server.Webhooks.Keys.{KeepsQueue, deletes_nothing, delivery_run-keeps}

module _ (identifier domain : Text) where
  abbrev pub is_delivered : DeliveryRow → Bool
  is_delivered r = delivers identifier domain r && is_some r.succeeded_at

  abbrev HasSucceeded : DeliveryRow → Type 0
  HasSucceeded r = delivers identifier domain r ≡ true → is_some r.succeeded_at ≡ true

  abbrev Delivered : List DeliveryRow → Type 0
  Delivered rows = (exists (delivers identifier domain) rows ≡ true) × Every HasSucceeded rows

  Delivered-KeepsQueue : KeepsQueue Delivered
  unfolding insert_delivery exists
  Delivered-KeepsQueue = record {
    inserted = λ now d rows (there, every).
        elim (Bool-cases (exists (delivers d.identifier d.domain) rows)) [
          | inl known ↦ rw known (there, every)
          | inr fresh ↦ rw fresh (
            ground (arith, there),
            (
              (λ m.
                  let a : (d.identifier == identifier) ≡ true = ground (arith, m) in
                  let b : (d.domain == domain) ≡ true = ground (arith, m) in
                  absurd (cc (there, rw ((eq_iff _ _).0 a, (eq_iff _ _).0 b) at fresh))),
              every,
            ),
          )
        ];
    updated = λ q f rows ids identifiers domains succeeded (there, every). (
      exists-update_mono (delivers identifier domain) q f rows
          (λ r c m. rw (identifiers r) (rw (domains r) m)) there,
      Every-update HasSucceeded q f rows
          (λ r c k m. succeeded r (k (rw (identifiers r, domains r) at m))) every,
    );
  }

  all-HasSucceeded :
      (rows : List DeliveryRow)
      → exists (λ r. delivers identifier domain r && is_none r.succeeded_at) rows ≡ false
      → Every HasSucceeded rows
  unfolding exists
  all-HasSucceeded [] h = tt
  all-HasSucceeded (r ∷ rows) h = ((λ m. ground arith), all-HasSucceeded rows (ground arith))

  -- Once every delivery of a payment hash and domain has succeeded, and there is one, no poll takes
  -- it up again, whatever notifications, polls and attempts come between, if nothing is deleted.
  pub delivered-once :
      (calls : List DeliveryCall) (now : ℕ) (s : Store)
      → exists (delivers identifier domain) s.webhook_deliveries ≡ true
      → exists (λ r. delivers identifier domain r && is_none r.succeeded_at) s.webhook_deliveries
        ≡ false
      → all deletes_nothing calls ≡ true
      → any
          (λ d. d.identifier == identifier && d.domain == domain)
          (take_pending_webhook_deliveries now (delivery_run calls s)).0
        ≡ false
  unfolding take_pending_webhook_deliveries is_first is_candidate
  delivered-once calls now s there succeeded_only q =
      let every = all-HasSucceeded s.webhook_deliveries succeeded_only in
      let rows = (delivery_run calls s).webhook_deliveries in
      let later = delivery_run-keeps Delivered Delivered-KeepsQueue calls s q (there, every) in
      let taken = retain (is_first now rows) rows in
      let named = λ (d : WebhookDelivery). d.identifier == identifier && d.domain == domain in
      elim (Bool-cases (any named (map (λ r. r.delivery) taken))) [
        | inr apart ↦ apart
        | inl again ↦
            let kept : exists (λ r. is_first now rows r && delivers identifier domain r) rows
                ≡ true =
              exists-retain (delivers identifier domain) (is_first now rows) rows
                (sym (any-map (λ r. r.delivery) named taken) ∙ again) in
            let (r, both, done) =
              Every-exists HasSucceeded (λ r. is_first now rows r && delivers identifier domain r)
                rows later.1 kept in
            let succeeded : is_some r.succeeded_at ≡ true = done (ground (arith, both)) in
            absurd (ground (arith, both, succeeded))
      ]
