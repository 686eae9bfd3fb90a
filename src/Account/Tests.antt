-- ===== src/Account/Tests.antt =====
-- Examples of the theorems on the account routes.
use blink_lnurl_server.Prelude.{
  arith, refl, true, false, none, some, [], ◌∷◌, map, text, ◌==◌, to_ascii_lowercase, any, trim,
  trim_start, trim_end, is_whitespace, starts_with, is_ascii_digit, is_ascii_lowercase,
}
use blink_lnurl_server.Identifier.{
  canonical_spark_username, checked_to_username, matches_blink_username_regex, is_refused_form,
  scan,
}
use blink_lnurl_server.Sqlite.Tests.{env_at, empty_db}
use blink_lnurl_server.Sqlite.Query.{find}
use blink_lnurl_server.Sqlite.Mode.{get_spark_account_mode}
use blink_lnurl_server.Sqlite.History.{registers}
use blink_lnurl_server.Account.{Outside, Server, digits}
use blink_lnurl_server.Account.Handlers.{
  RegisterRequest, UnregisterRequest, TransferRequest, register_route, unregister_route,
  transfer_route,
}
use blink_lnurl_server.Account.Serves.{Asked, Serves}
use blink_lnurl_server.Account.Refines.{
  RegisterServes, register-Serves, UnregisterServes, unregister-Serves, TransferServes,
  transfer-Serves,
}
use blink_lnurl_server.Account.Accepts.{signed_registration, register-served}
use blink_lnurl_server.Account.Recover.{RecoverRequest, recover_route}
use blink_lnurl_server.Account.Recovers.{RecoverAnswers, recover-Answers}

-- Text is its own bytes, and a signature of a message is the message.
abbrev outside : Outside
outside = record {
  services = record { to_lowercase = map to_ascii_lowercase; parse_phone = λ t. none };
  hex_decode = λ t. some t;
  from_slice = λ bytes. some bytes;
  from_der = λ bytes. some bytes;
  verify_message = λ pubkey signature message. signature == message;
  sha256 = λ bytes. bytes;
  utf8 = λ t. t;
  validity = 300;
  register_message = λ domain name description timestamp. text "register";
  unregister_message = λ domain name timestamp. text "unregister";
  recover_message = λ domain pubkey timestamp. text "recover";
  transfer_from = λ domain name from to timestamp. text "from";
  transfer_to = λ domain name from to description timestamp. text "to";
  spark_enabled = true;
  resolver_enabled = false;
}

abbrev server : Server
server = record {
  counts = 0 ∷ 0 ∷ 0 ∷ 0 ∷ 0 ∷ 0 ∷ 0 ∷ [];
  domains = text "d.com" ∷ [];
  db = empty_db;
  spawned = [];
}

-- A request of an old client.
abbrev asks_alice : RegisterRequest
asks_alice = record {
  username = text " Alice";
  signature = text "alice-1000";
  timestamp = 1000;
  description = text "hi";
}

abbrev asked_alice : Asked
asked_alice = record {
  name = text "alice";
  domain = text "d.com";
  pubkey = text "a-key";
  signature = text "alice-1000";
}

register-served_example :
    Serves 300 1100 1000
      (registers (env_at 1100) (signed_registration outside asked_alice asks_alice))
      []
      empty_db
      (register_route outside
        (env_at 1100)
        1100
        (text "D.com")
        (text "a-key")
        none
        asks_alice
        server)
unfolding canonical_spark_username checked_to_username matches_blink_username_regex is_refused_form
    scan digits get_spark_account_mode find ◌==◌ any trim trim_start trim_end is_whitespace
    starts_with is_ascii_digit is_ascii_lowercase to_ascii_lowercase
register-served_example =
    register-served outside (env_at 1100) 1100 (text "D.com") (text "a-key") none asks_alice server
      asked_alice refl (omega arith)
      (refl, (refl, refl), ((text "a-key", refl, refl), (text "alice-1000", refl, refl)))
      (omega arith, omega arith) refl tt

register-Serves_example :
    RegisterServes outside (env_at 1100) 1100 (text "D.com") (text "a-key") asks_alice server (
      register_route outside
        (env_at 1100)
        1100
        (text "D.com")
        (text "a-key")
        none
        asks_alice
        server)
register-Serves_example =
    register-Serves outside (env_at 1100) 1100 (text "D.com") (text "a-key") none asks_alice server

abbrev drops_alice : UnregisterRequest
drops_alice = record { username = text "alice"; signature = text "unregister"; timestamp = 1000 }

unregister-Serves_example :
    UnregisterServes outside
      (env_at 1100)
      1100
      (text "d.com")
      (text "a-key")
      drops_alice
      server
      (unregister_route outside (env_at 1100) 1100 (text "d.com") (text "a-key") drops_alice server)
unregister-Serves_example =
    unregister-Serves outside (env_at 1100) 1100 (text "d.com") (text "a-key") drops_alice server

abbrev hands_alice : TransferRequest
hands_alice = record {
  username = text "alice";
  description = text "hi";
  from_pubkey = text "a-key";
  from_signature = text "from";
  to_signature = text "to";
  timestamp = some 1000;
}

transfer-Serves_example :
    TransferServes outside
      (env_at 1100)
      (env_at 1101)
      1100
      (text "d.com")
      (text "b-key")
      hands_alice
      server
      (transfer_route outside
        (env_at 1100)
        (env_at 1101)
        1100
        (text "d.com")
        (text "b-key")
        hands_alice
        server)
transfer-Serves_example =
    transfer-Serves outside (env_at 1100) (env_at 1101) 1100 (text "d.com") (text "b-key")
      hands_alice server

abbrev recovers : RecoverRequest
recovers = record { signature = text "recover"; timestamp = 1000 }

recover-Answers_example :
    RecoverAnswers outside 1100
      (text "d.com")
      (text "a-key")
      none
      recovers
      server
      (recover_route outside 1100 (text "d.com") (text "a-key") none recovers server)
recover-Answers_example =
    recover-Answers outside 1100 (text "d.com") (text "a-key") none recovers server
