-- ===== src/Sqlite/Transfer/Outcome.antt =====
-- Who holds a name after its transfer.
use blink_lnurl_server.Prelude.{
  ◌≡◌, refl, sym, ◌∙◌, ap, true, Option, none, some, ◌∷◌, arith, Text, ◌==◌, eq_iff, eq_refl,
  Option-cases, inl, inr, ok,
}
use blink_lnurl_server.Repository.{
  AccountProvider, spark, blink, provider_eq, IdentifierTransfer, ResolvedRecipient,
}
use blink_lnurl_server.Sqlite.Query.{find, delete, update}
use blink_lnurl_server.Sqlite.Query.Laws.{exists-eq-find, find-holds, find-update}
use blink_lnurl_server.Sqlite.Tables.{
  AccountRow, IdentifierRow, SparkRow, Db, Env, account_is, spark_is, blink_is, pubkey_is, named,
  new_spark_row, other_username, insert_account, insert_spark, transact,
}
use blink_lnurl_server.Sqlite.Transfer.{
  is_owned_by, make_destination, destination_of, moved, move_identifier, transfer_body,
  transfer_identifier,
}
use blink_lnurl_server.Sqlite.Transfer.Laws.{
  transfer_body-ok, destination_of-rest, move_identifier-ok,
}
use blink_lnurl_server.Sqlite.Registration.Outcome.{transact-ok, recipient-spark}
use blink_lnurl_server.Sqlite.Query.Keys.{one-row}
use blink_lnurl_server.Sqlite.Query.Laws.{find-delete_first}
use blink_lnurl_server.Sqlite.Integrity.{Integrity, UniqueSparks}
use blink_lnurl_server.Sqlite.Integrity.Calls.{claim_statement-Integrity}
use blink_lnurl_server.Sqlite.Integrity.Moves.{transfer_body-Integrity}
use blink_lnurl_server.Sqlite.Recipient.{resolve_recipient_by_identifier}
use blink_lnurl_server.Sqlite.Recipient.Resolution.{blink-absent, resolve-joined}

-- The destination of a transfer is a Spark account, with the Spark row of the pubkey.
abbrev HasDestination : Text → Text → Db → Type 0
HasDestination id pk db =
    (a : AccountRow) × (s : SparkRow) × (find (account_is id) db.accounts ≡ some a)
    × (a.provider ≡ spark)
    × (find (spark_is id) db.spark_accounts ≡ some s)
    × (s.pubkey ≡ pk)

make_destination-made :
    (env : Env) (pk id : Text) (db made : Db)
    → make_destination env pk db ≡ ok (id, made)
    → HasDestination id pk made
unfolding make_destination insert_account insert_spark find
make_destination-made env pk id db made h =
    let i : env.account_id spark ≡ id = ground arith in
    let a : AccountRow = record {
      account_id = env.account_id spark;
      provider = spark;
      created_at = env.now;
      updated_at = env.now;
    } in
    let s = new_spark_row (env.account_id spark) pk env.now in
    let e : record db { accounts = a ∷ db.accounts; spark_accounts = s ∷ db.spark_accounts }
        ≡ made =
      ground arith in
    rw (sym e, sym i)
      (a, s, rw (eq_refl (env.account_id spark)), refl, rw (eq_refl (env.account_id spark)), refl)

spark_of : (p : AccountProvider) → provider_eq p spark ≡ true → p ≡ spark
spark_of spark h = refl
spark_of blink h = cc

destination_of-found :
    (env : Env) (pk id : Text) (o : Option SparkRow) (db made : Db)
    → UniqueSparks db.spark_accounts
    → find (pubkey_is pk) db.spark_accounts ≡ o
    → destination_of env pk o db ≡ ok (id, made)
    → HasDestination id pk made
unfolding destination_of
destination_of-found env pk id none db made u f h = make_destination-made env pk id db made h
destination_of-found env pk id (some s) db made u f h =
    elim (Option-cases (find (account_is s.account_id) db.accounts)) [
      | inl gone ↦ make_destination-made env pk id db made (ground arith)
      | inr (a, g) ↦
          let i : s.account_id ≡ id = ground arith in
          let e : db ≡ made = ground arith in
          let p : provider_eq a.provider spark ≡ true = ground arith in
          rw (sym e, sym i)
            (
              a,
              s,
              g,
              spark_of a.provider p,
              one-row (λ r. r.account_id) (pubkey_is pk) s.account_id db.spark_accounts s u f refl,
              (eq_iff _ _).0 (find-holds (pubkey_is pk) db.spark_accounts s f),
            )
    ]

-- The row of a name that its owner hands over.
move_identifier-find :
    (env : Env) (d n source dest desc : Text) (db db' : Db)
    → move_identifier env d n source dest desc db ≡ ok db'
    → is_owned_by source (find (named d n) db.account_identifiers) ≡ true
    → (i : IdentifierRow) × (find (named d n) db'.account_identifiers ≡ some i)
      × (i.account_id ≡ dest)
      × (i.description ≡ desc)
unfolding move_identifier
move_identifier-find env d n source dest desc db db' h o =
    let f = λ (r : IdentifierRow). record r {
      account_id = dest;
      description = desc;
      updated_at = env.now;
    } in
    let rows = update (moved d n source) f db.account_identifiers in
    let e : delete (other_username dest d n) rows ≡ db'.account_identifiers = ground arith in
    elim (Option-cases (find (named d n) db.account_identifiers)) [
      | inl gone ↦ absurd (cc (rw gone at o))
      | inr (i, g) ↦
          let here = find-holds (named d n) db.account_identifiers i g in
          let own : (i.account_id == source) ≡ true = rw g at o in
          let hit : moved d n source i ≡ true = ground arith in
          (
            f i,
            rw (sym e) (
                find-delete_first (named d n) (other_username dest d n) rows (f i)
                  (find-update (named d n) (moved d n source) f db.account_identifiers (λ r. refl)
                    ∙ rw g (rw hit refl))
                  (ground arith)),
            refl,
            refl,
          )
    ]

-- After a transfer that succeeds on tables with integrity, the look-up of the name finds a recipient
-- with the destination's pubkey and the description of the transfer.
pub transferred-resolves :
    (env : Env) (t : IdentifierTransfer) (db : Db)
    → Integrity db
    → (transfer_identifier env t db).0 ≡ ok tt
    → (r : ResolvedRecipient) × (resolve_recipient_by_identifier t.domain t.identifier
          (transfer_identifier env t db).1
        ≡ ok (some r))
      × (r.spark_pubkey ≡ some t.destination_spark_pubkey)
      × (r.description ≡ t.description)
unfolding transfer_identifier
transferred-resolves env t db v h =
    let db' = (transact (transfer_body env t) db).1 in
    let b = transact-ok (transfer_body env t) db h in
    let v' = transfer_body-Integrity env t db db' b v in
    let (claimed, id, made, c, o, _, x, w) = transfer_body-ok env t db db' b in
    let u = claim_statement-Integrity env t.claim db claimed c v in
    let pk = t.destination_spark_pubkey in
    let (a, s, fa, p, fs, k) =
      destination_of-found env pk id (find (pubkey_is pk) claimed.spark_accounts) claimed made
        u.sparks refl x in
    let rest =
      destination_of-rest env pk id (find (pubkey_is pk) claimed.spark_accounts) claimed made x in
    let (i, fi, own, desc) =
      move_identifier-find env t.domain t.identifier t.source_account_id id t.description made db' w
        (rw rest.2 o) in
    let kept =
      move_identifier-ok env t.domain t.identifier t.source_account_id id t.description made db'
        w in
    let ga : find (account_is id) db'.accounts ≡ some a = rw kept.2 fa in
    let gs : find (spark_is id) db'.spark_accounts ≡ some s = rw kept.3 fs in
    let same : a.account_id ≡ id = (eq_iff _ _).0 (find-holds (account_is id) db'.accounts a ga) in
    let no_blink : find (blink_is id) db'.blink_accounts ≡ none = ground (
      arith,
      blink-absent id db' a v' ga (rw p refl),
      exists-eq-find (blink_is id) db'.blink_accounts,
    ) in
    let (r, q, e, d) = recipient-spark i a s p in
    (
      r,
      resolve-joined t.domain t.identifier db' i a r fi (rw own ga)
          (rw same (rw gs (rw no_blink q))),
      e ∙ ap some k,
      d ∙ desc,
    )
