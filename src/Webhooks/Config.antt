-- ===== src/Webhooks/Config.antt =====
-- src/webhooks/config.rs: the cache of webhook configurations. A HashMap is an association list with
-- one entry for each domain.
use blink_lnurl_server.Prelude.{
  Bool, false, not, ◌&&◌, Option, none, some, List, [], ◌∷◌, nat_eq, length, all, retain,
  if◌then◌else◌, Text, ◌==◌,
}
use blink_lnurl_server.Payments.{WebhookConfig, Store}
use blink_lnurl_server.Payments.Settings.{list_webhook_configs}

abbrev pub ConfigCache : Type 0
ConfigCache = List (Text × WebhookConfig)

unfoldable pub get_config : Text → ConfigCache → Option WebhookConfig
get_config domain [] = none
get_config domain ((d, c) ∷ cache) = if d == domain then some c else get_config domain cache

-- `insert` puts the new entry in the place of the old one.
unfoldable pub insert_config : WebhookConfig → ConfigCache → ConfigCache
insert_config c cache = (c.domain, c) ∷ retain (λ (d, old). not (d == c.domain)) cache

-- `collect`: of two configurations of a domain the later one stays.
unfoldable pub collect_from : ConfigCache → List WebhookConfig → ConfigCache
unfolding insert_config
collect_from cache [] = cache
collect_from cache (c ∷ configs) = collect_from (insert_config c cache) configs

unfoldable pub load_configs : Store → ConfigCache
unfolding collect_from
load_configs s = collect_from [] (list_webhook_configs s)

abbrev agrees : WebhookConfig → Option WebhookConfig → Bool
agrees v none = false
agrees v (some bv) = bv.url == v.url && bv.secret == v.secret

unfoldable pub configs_equal : ConfigCache → ConfigCache → Bool
unfolding get_config
configs_equal a b = nat_eq (length a) (length b) && all (λ (k, v). agrees v (get_config k b)) a

unfoldable pub refresh_once : Store → ConfigCache → ConfigCache
unfolding load_configs configs_equal
refresh_once s cache =
    let latest = load_configs s in if configs_equal cache latest then cache else latest
