-- ===== src/Payments/Settings.antt =====
-- The domains, settings and webhook configurations of src/sqlite/repository.rs.
use blink_lnurl_server.Prelude.{Bool, Option, none, some, List, ◌∷◌, if◌then◌else◌, Text, ◌==◌}
use blink_lnurl_server.Sqlite.Query.{find, exists}
use blink_lnurl_server.Payments.{WebhookConfig, SettingRow, Store}

unfoldable pub list_domains : Store → List Text
list_domains s = s.allowed_domains

unfoldable pub add_domain : Text → Store → Store
add_domain domain s =
    if exists (λ d. d == domain) s.allowed_domains
    then s
    else record s { allowed_domains = domain ∷ s.allowed_domains }

abbrev setting_of : Text → SettingRow → Bool
setting_of key r = r.key == key

abbrev value_or : Text → Option SettingRow → Text
value_or default_value none = default_value
value_or default_value (some r) = r.value

-- The value of the row that is there after the INSERT, and the table with it.
unfoldable pub get_or_create_setting : Text → Text → Store → Text × Store
get_or_create_setting key default_value s = (
  value_or default_value (find (setting_of key) s.settings),
  if exists (setting_of key) s.settings
      then s
      else record s { settings = record { key = key; value = default_value } ∷ s.settings },
)

unfoldable pub list_webhook_configs : Store → List WebhookConfig
list_webhook_configs s = s.domain_webhooks
