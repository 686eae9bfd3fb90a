-- ===== src/Webhooks/Tests.antt =====
-- Examples of the theorems on webhook deliveries.
use blink_lnurl_server.Prelude.{
  ℕ, ◌≡◌, refl, true, false, ◌&&◌, some, List, [], ◌∷◌, arith, length, any, all, retain, Text, text,
  ◌==◌,
}
use blink_lnurl_server.Sqlite.Query.{exists}
use blink_lnurl_server.Sqlite.Query.Keys.{Distinct}
use blink_lnurl_server.Payments.{DeliveryRow, WebhookConfig, Store, is_unclaimed}
use blink_lnurl_server.Payments.Deliveries.{
  new_delivery_row, is_candidate, take_pending_webhook_deliveries,
}
use blink_lnurl_server.Settlement.Tests.{with_invoices}
use blink_lnurl_server.Webhooks.{
  Client, answered, process_webhook_delivery, DeliveryCall, notifies, polls, attempts, cleans,
  delivery_run,
}
use blink_lnurl_server.Webhooks.Attempt.{is_waiting, Settles, attempt-Settles}
use blink_lnurl_server.Webhooks.Keys.{same_delivery, same_id, delivery_run-Distinct}
use blink_lnurl_server.Webhooks.Once.{delivered-once}
use blink_lnurl_server.Webhooks.Fair.{take-one_each}

-- A server that always has an internal error.
abbrev failing_client : Client
failing_client = record {
  hmac_hex = λ secret payload. text "00";
  post = λ url signature payload. answered 500 (some (text "oops"));
}

abbrev config : WebhookConfig
config = record { domain = text "d.com"; url = text "https://d.com"; secret = text "s" }

abbrev row : ℕ → Text → Text → DeliveryRow
row id identifier domain =
    new_delivery_row 10 id
      (record { identifier = identifier; domain = domain; payload = text "{}" })

abbrev waiting : Store
waiting = record (with_invoices []) {
  webhook_deliveries =
      row 3 (text "c") (text "e.com")
      ∷ row 2 (text "b") (text "d.com")
      ∷ row 1 (text "a") (text "d.com")
      ∷ [];
}

abbrev delivered : Store
delivered = record (with_invoices []) {
  webhook_deliveries = record (row 1 (text "a") (text "d.com")) { succeeded_at = some 20 } ∷ [];
}

abbrev deliveries : List DeliveryCall
deliveries =
    notifies 400000
      (record { identifier = text "a"; domain = text "d.com"; payload = text "{}" } ∷ [])
    ∷ polls 400001 (λ domain. true)
    ∷ attempts 400002 failing_client (row 1 (text "a") (text "d.com")).delivery (some config)
    ∷ []

attempt-Settles_example :
    Settles 400000 failing_client
      (row 1 (text "a") (text "d.com")).delivery
      (some config)
      waiting.webhook_deliveries
      (process_webhook_delivery 400000 failing_client
        (row 1 (text "a") (text "d.com")).delivery
        (some config)
        waiting).webhook_deliveries
    × (is_waiting 400000 1 (
          process_webhook_delivery 400000 failing_client
            (row 1 (text "a") (text "d.com")).delivery
            (some config)
            waiting)
        ≡ false)
attempt-Settles_example =
    attempt-Settles 400000 failing_client (row 1 (text "a") (text "d.com")).delivery (some config)
      waiting (omega arith)

delivery_run-Distinct_example :
    Distinct same_delivery (delivery_run (cleans 20 100 ∷ deliveries) waiting).webhook_deliveries
    × Distinct same_id (delivery_run (cleans 20 100 ∷ deliveries) waiting).webhook_deliveries
unfolding exists ◌==◌
delivery_run-Distinct_example =
    delivery_run-Distinct (cleans 20 100 ∷ deliveries) waiting (refl, (refl, (refl, tt)))
      (refl, (refl, (refl, tt)))

delivered-once_example :
    any
      (λ d. d.identifier == text "a" && d.domain == text "d.com")
      (take_pending_webhook_deliveries 800000 (delivery_run deliveries delivered)).0
    ≡ false
unfolding exists ◌==◌ all
delivered-once_example =
    delivered-once (text "a") (text "d.com") deliveries 800000 delivered refl refl refl

take-one_each_example :
    length
      (retain (λ d. d.domain == text "d.com") (take_pending_webhook_deliveries 400000 waiting).0)
    ≡ 1
unfolding exists is_candidate ◌==◌ is_unclaimed
take-one_each_example = take-one_each 400000 (text "d.com") waiting (refl, (refl, (refl, tt)))
