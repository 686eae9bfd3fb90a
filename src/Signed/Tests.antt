-- ===== src/Signed/Tests.antt =====
-- Examples of the theorems on signed requests.
use blink_lnurl_server.Prelude.{ℕ, ◌≤◌, ◌≡◌, refl, List, [], ◌∷◌, arith, text, err}
use blink_lnurl_server.Sqlite.History.{registers}
use blink_lnurl_server.Sqlite.Tests.{env_at, empty_db, alice_for}
use blink_lnurl_server.Signed.{
  Event, requests, ticks, invalid_timestamp, check_timestamp, claim_expires_at,
}
use blink_lnurl_server.Prelude.{some, ◌==◌, Text, Bool}
use blink_lnurl_server.Signed.{Candidate, register, breez_v2, legacy, verify_candidates}
use blink_lnurl_server.Signed.Candidates.{
  verify_candidates-find, found_or_refused, is_counted, count_at,
}
use blink_lnurl_server.Prelude.{◌+◌, ◌%◌, ◌^◌, if◌then◌else◌}
use blink_lnurl_server.Repository.{validate}
use blink_lnurl_server.Sqlite.Query.{find, exists, delete}
use blink_lnurl_server.Sqlite.Claims.{
  claim_statement, insert_statement_claim, delete_expired_signed_messages,
}
use blink_lnurl_server.Sqlite.History.{step}
use blink_lnurl_server.Sqlite.Registration.{
  upsert_spark_registration, registration_body, registered_account, registration_checks,
  registration_writes, upsert_account, upsert_spark, upsert_identifier,
}
use blink_lnurl_server.Signed.{serve, prune_tick}
use blink_lnurl_server.Signed.Window.{pruned-refused}
use blink_lnurl_server.Signed.Once.{acted_on, acted_on-le-one}

abbrev alice_at : ℕ → Event
alice_at now = requests now 1000 (registers (env_at now) (alice_for (text "a-key")))

abbrev presented : List Event
presented = ticks 900 ∷ alice_at 1001 ∷ alice_at 1100 ∷ ticks 1400 ∷ alice_at 1500 ∷ []

acted_on-le-one_example : acted_on (7 ∷ []) 300 presented empty_db ≤ 1
unfolding claim_expires_at ◌==◌
acted_on-le-one_example =
    acted_on-le-one (7 ∷ []) 1000 300 0 presented empty_db
      (
        omega arith,
        omega arith,
        (
          omega arith,
          refl,
          (λ h. (refl, refl)),
          refl,
          (
            omega arith,
            refl,
            (λ h. (refl, refl)),
            refl,
            (omega arith, omega arith, (omega arith, refl, (λ h. (refl, refl)), refl, tt)),
          ),
        ),
      )
      tt

-- Checked in time, but called after a round of the pruner that removed the claim of the first call:
-- the statement is acted on twice.
raced : acted_on (7 ∷ []) 300 (alice_at 1001 ∷ ticks 1301 ∷ alice_at 1300 ∷ []) empty_db ≡ 2
unfolding acted_on serve step check_timestamp prune_tick delete_expired_signed_messages
    upsert_spark_registration registration_body validate claim_statement insert_statement_claim
    registered_account registration_checks registration_writes upsert_account upsert_spark
    upsert_identifier find exists delete ◌==◌
raced = refl

pruned-refused_example : check_timestamp 300 1400 1000 ≡ err invalid_timestamp
unfolding claim_expires_at
pruned-refused_example = pruned-refused 300 1400 1000 (omega arith) (omega arith)

abbrev new_form : Candidate
new_form = record { message = text "new"; route = register; format = breez_v2 }

abbrev old_form : Candidate
old_form = record { message = text "old"; route = register; format = legacy }

-- A signature over the old form only.
abbrev signs_old : Text → Bool
signs_old message = message == text "old"

verify_candidates-find_example :
    (let found = find (λ c. signs_old c.message) (new_form ∷ old_form ∷ []) in
      let out =
        verify_candidates signs_old
          (new_form ∷ old_form ∷ [])
          (some (text "d.com"))
          (4 ∷ 0 ∷ 0 ∷ 0 ∷ 0 ∷ 0 ∷ 0 ∷ []) in
      (out.0 ≡ found_or_refused (some (text "d.com")) found)
      × (count_at 0 out.1 ≡ (if is_counted 0 found then (4 + 1) % 2 ^ 64 else 4)))
verify_candidates-find_example =
    verify_candidates-find signs_old (new_form ∷ old_form ∷ []) (some (text "d.com"))
      (4 ∷ 0 ∷ 0 ∷ 0 ∷ 0 ∷ 0 ∷ 0 ∷ []) 0 (omega arith)
