-- ===== src/Payments/Deliveries.antt =====
-- The queue of webhook deliveries of src/sqlite/repository.rs.
use blink_lnurl_server.Prelude.{
  ℕ, ◌+◌, Bool, not, ◌&&◌, ◌||◌, max, Option, none, some, List, [], ◌∷◌, map, ltb, leb, nat_eq,
  if◌then◌else◌, any, retain, Text, ◌==◌, is_none,
}
use blink_lnurl_server.Sqlite.Query.{exists, count, delete, update}
use blink_lnurl_server.Payments.{
  NewWebhookDelivery, WebhookDelivery, DeliveryRow, Store, is_unclaimed, i64_max_millis,
}

-- The id that INTEGER PRIMARY KEY gives to a new row.
unfoldable pub largest_id : List DeliveryRow → ℕ
largest_id [] = 0
largest_id (r ∷ rows) = max r.delivery.id (largest_id rows)

abbrev pub delivers : Text → Text → DeliveryRow → Bool
delivers identifier domain r = r.delivery.identifier == identifier && r.delivery.domain == domain

abbrev pub new_delivery_row : ℕ → ℕ → NewWebhookDelivery → DeliveryRow
new_delivery_row now id d = record {
  delivery = record {
    id = id;
    identifier = d.identifier;
    domain = d.domain;
    url = none;
    payload = d.payload;
    created_at = now;
    retry_count = 0;
    next_retry_at = now;
  };
  succeeded_at = none;
  claimed_at = none;
  last_error_status_code = none;
  last_error_body = none;
}

-- One round of the loop: the INSERT selects no row where the identifier and domain are there.
unfoldable pub insert_delivery : ℕ → NewWebhookDelivery → List DeliveryRow → List DeliveryRow
unfolding largest_id
insert_delivery now d rows =
    if exists (delivers d.identifier d.domain) rows
    then rows
    else new_delivery_row now (largest_id rows + 1) d ∷ rows

unfoldable pub insert_deliveries : ℕ → List NewWebhookDelivery → List DeliveryRow → List DeliveryRow
unfolding insert_delivery
insert_deliveries now [] rows = rows
insert_deliveries now (d ∷ deliveries) rows =
    insert_deliveries now deliveries (insert_delivery now d rows)

unfoldable pub insert_webhook_deliveries : ℕ → List NewWebhookDelivery → Store → Store
insert_webhook_deliveries now deliveries s = record s {
  webhook_deliveries = insert_deliveries now deliveries s.webhook_deliveries;
}

-- The WHERE of the candidates.
unfoldable pub is_candidate : ℕ → DeliveryRow → Bool
unfolding is_unclaimed
is_candidate now r =
    leb r.delivery.next_retry_at now && is_none r.succeeded_at && is_unclaimed now r.claimed_at

-- `x` stands before `r` in the partition of its domain; rows of one time stand by their ids.
unfoldable pub stands_before : DeliveryRow → DeliveryRow → Bool
stands_before r x =
    x.delivery.domain == r.delivery.domain
    && (ltb x.delivery.next_retry_at r.delivery.next_retry_at
        || (nat_eq x.delivery.next_retry_at r.delivery.next_retry_at
            && ltb x.delivery.id r.delivery.id))

-- A candidate whose ROW_NUMBER is 1.
unfoldable pub is_first : ℕ → List DeliveryRow → DeliveryRow → Bool
unfolding is_candidate stands_before
is_first now rows r =
    is_candidate now r && not (exists (λ x. is_candidate now x && stands_before r x) rows)

abbrev pub claim_delivery : ℕ → DeliveryRow → DeliveryRow
claim_delivery now r = record r { claimed_at = some now }

-- The deliveries that RETURNING yields, and the table with their claims.
unfoldable pub take_pending_webhook_deliveries : ℕ → Store → List WebhookDelivery × Store
take_pending_webhook_deliveries now s =
    let chosen = is_first now s.webhook_deliveries in
    (
      map (λ r. r.delivery) (retain chosen s.webhook_deliveries),
      record s { webhook_deliveries = update chosen (claim_delivery now) s.webhook_deliveries },
    )

abbrev pub delivery_is : ℕ → DeliveryRow → Bool
delivery_is id r = nat_eq r.delivery.id id

abbrev pub update_delivery : (DeliveryRow → Bool) → (DeliveryRow → DeliveryRow) → Store → Store
update_delivery p f s = record s { webhook_deliveries = update p f s.webhook_deliveries }

unfoldable pub update_webhook_delivery_success : ℕ → ℕ → Text → Store → Store
update_webhook_delivery_success id succeeded_at url = update_delivery (delivery_is id) (λ r.
    record r { delivery = record r.delivery { url = some url }; succeeded_at = some succeeded_at })

unfoldable pub update_webhook_delivery_failure :
    ℕ → ℕ → ℕ → Option ℕ → Option Text → Text → Store → Store
update_webhook_delivery_failure id retry_count next_retry_at status_code body url =
    update_delivery (delivery_is id) (λ r. record r {
      delivery = record r.delivery {
        url = some url;
        retry_count = retry_count;
        next_retry_at = next_retry_at;
      };
      claimed_at = none;
      last_error_status_code = status_code;
      last_error_body = body;
    })

abbrev pub has_id : List ℕ → DeliveryRow → Bool
has_id ids r = any (λ id. nat_eq r.delivery.id id) ids

unfoldable pub unclaim_webhook_deliveries : List ℕ → Store → Store
unclaim_webhook_deliveries ids = update_delivery (has_id ids) (λ r. record r { claimed_at = none })

abbrev pub older_than : ℕ → DeliveryRow → Bool
older_than before r = ltb r.delivery.created_at before

-- The count of deleted rows beside the rest.
unfoldable pub delete_webhook_deliveries_older_than : ℕ → Store → ℕ × Store
delete_webhook_deliveries_older_than before s = (
  count (older_than before) s.webhook_deliveries,
  record s { webhook_deliveries = delete (older_than before) s.webhook_deliveries },
)

unfoldable pub delete_webhook_delivery : ℕ → Store → Store
delete_webhook_delivery id s = record s {
  webhook_deliveries = delete (delivery_is id) s.webhook_deliveries;
}

unfoldable pub park_webhook_delivery : ℕ → Store → Store
park_webhook_delivery id = update_delivery (delivery_is id) (λ r. record r {
  delivery = record r.delivery { next_retry_at = i64_max_millis };
  claimed_at = none;
})
