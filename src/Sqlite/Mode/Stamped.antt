-- ===== src/Sqlite/Mode/Stamped.antt =====
-- The rows of a pubkey that accept no request up to a time, through the changes of their table.
use mathlib.Core.Path.{subst}
use blink_lnurl_server.Prelude.{
  ℕ, ◌≤◌, ◌≡◌, refl, sym, ◌∙◌, true, false, Option, none, some, List, [], ◌∷◌, arith, Text, eq_iff,
  Bool-cases, inl, inr,
}
use blink_lnurl_server.Repository.{SparkModeUpdate}
use blink_lnurl_server.Sqlite.Query.{exists, update}
use blink_lnurl_server.Sqlite.Query.Laws.{exists-update}
use blink_lnurl_server.Sqlite.Query.Keys.{Every, Every-update}
use blink_lnurl_server.Sqlite.Tables.{SparkRow, Db, spark_is, pubkey_is}
use blink_lnurl_server.Sqlite.Mode.{is_newer, accepts, set_mode_row}
use blink_lnurl_server.Sqlite.Integrity.Rows.{exists-update_grows}
use blink_lnurl_server.Sqlite.History.{Call, step}
use blink_lnurl_server.Sqlite.History.Sparks.{
  SparkChange, unchanged, adds, sets, locates, migrates, repubkeys,
}
use blink_lnurl_server.Sqlite.History.SparkSteps.{IsNatural, step-sparks}

module _ (pk : Text) (t : ℕ) where
  abbrev pub IsStamped : SparkRow → Type 0
  IsStamped r = pubkey_is pk r ≡ true → is_newer r.mode_last_timestamp t ≡ false

  -- There is a row of the pubkey, and no such row accepts a request of time `t` or earlier.
  abbrev pub Stamped : List SparkRow → Type 0
  Stamped rows = (exists (pubkey_is pk) rows ≡ true) × Every IsStamped rows

  later-stamp :
      (o : Option ℕ) (v : ℕ)
      → is_newer o t ≡ false
      → is_newer o v ≡ true
      → is_newer (some v) t ≡ false
  later-stamp none v h k = cc
  later-stamp (some w) v h k = ground arith

  set-IsStamped :
      (u : SparkModeUpdate) (now : ℕ) (r : SparkRow)
      → accepts u r ≡ true
      → IsStamped r
      → IsStamped (set_mode_row now u r)
  unfolding set_mode_row
  set-IsStamped u now r a s =
      λ h. later-stamp r.mode_last_timestamp u.client_timestamp (s h) (ground arith)

  repubkey-Every :
      (id pk' : Text) (now : ℕ) (rows : List SparkRow)
      → Every (λ r. spark_is id r ≡ true → pubkey_is pk' r ≡ true) rows
      → Every IsStamped rows
      → Every IsStamped
          (update (spark_is id) (λ r. record r { pubkey = pk'; updated_at = now }) rows)
  unfolding update
  repubkey-Every id pk' now [] k s = tt
  repubkey-Every id pk' now (r ∷ rows) k s = elim (Bool-cases (spark_is id r)) [
    | inl hit ↦
        let e : r.pubkey ≡ pk' = (eq_iff _ _).0 (k.0 hit) in
        rw hit ((λ h. s.0 (rw e h)), repubkey-Every id pk' now rows k.1 s.1)
    | inr miss ↦ rw miss (s.0, repubkey-Every id pk' now rows k.1 s.1)
  ]

  change-Stamped :
      (natural : Type 0) (rows rows' : List SparkRow)
      → SparkChange natural rows rows'
      → natural
      → Stamped rows
      → Stamped rows'
  unfolding exists
  change-Stamped natural rows rows' (unchanged e) n s = subst Stamped (sym e) s
  change-Stamped natural rows rows' (adds id pk' now free e) n s = rw e (
    ground arith,
    (λ h. let same : pk' ≡ pk = (eq_iff _ _).0 h in absurd (cc (rw same at free, s.0)), s.1),
  )
  change-Stamped natural rows rows' (sets u now e) n s = rw e (
    exists-update (pubkey_is pk) (accepts u) (set_mode_row now u) rows
          (λ r. unfold set_mode_row in refl)
        ∙ s.0,
    Every-update IsStamped (accepts u) (set_mode_row now u) rows (set-IsStamped u now) s.1,
  )
  change-Stamped natural rows rows' (locates pk' country now e) n s = rw e (
    exists-update (pubkey_is pk) _ _ rows (λ r. refl) ∙ s.0,
    Every-update IsStamped _ _ rows (λ r hit k. k) s.1,
  )
  change-Stamped natural rows rows' (migrates pk' now e) n s = rw e (
    exists-update (pubkey_is pk) _ _ rows (λ r. refl) ∙ s.0,
    Every-update IsStamped _ _ rows (λ r hit k. k) s.1,
  )
  change-Stamped natural rows rows' (repubkeys id pk' now e source) n s =
      let k = source n in
      rw e (
        exists-update_grows (λ r. spark_is id r ≡ true → pubkey_is pk' r ≡ true) (pubkey_is pk)
            (spark_is id) (λ r. record r { pubkey = pk'; updated_at = now }) rows
            (λ r own hit here.
              let a : r.pubkey ≡ pk' = (eq_iff _ _).0 (own hit) in
              let b : r.pubkey ≡ pk = (eq_iff _ _).0 here in (eq_iff pk' pk).1 (sym a ∙ b))
            k s.0,
        repubkey-Every id pk' now rows k s.1,
      )

  pub step-Stamped :
      (c : Call) (db : Db)
      → IsNatural c db
      → Stamped db.spark_accounts
      → Stamped (step c db).1.spark_accounts
  step-Stamped c db n s =
      let (mid, first, second) = step-sparks c db in
      change-Stamped (IsNatural c db) mid (step c db).1.spark_accounts second n
        (change-Stamped (Unit {0}) db.spark_accounts mid first tt s)

  -- No row of the pubkey accepts a request of time `t` or earlier.
  pub refused-rows :
      (u : SparkModeUpdate) (rows : List SparkRow)
      → u.pubkey ≡ pk
      → u.client_timestamp ≤ t
      → Every IsStamped rows
      → exists (accepts u) rows ≡ false
  unfolding exists
  refused-rows u [] e b s = refl
  refused-rows u (r ∷ rows) e b s = elim (Bool-cases (pubkey_is u.pubkey r)) [
    | inl hit ↦
        let h : pubkey_is pk r ≡ true = subst (λ k. pubkey_is k r ≡ true) e hit in
        let old : is_newer r.mode_last_timestamp u.client_timestamp ≡ false =
          older r.mode_last_timestamp (s.0 h) in
        rw hit (rw old (refused-rows u rows e b s.1))
    | inr miss ↦ rw miss (refused-rows u rows e b s.1)
  ]
    where
      older : (o : Option ℕ) → is_newer o t ≡ false → is_newer o u.client_timestamp ≡ false
      older none k = cc
      older (some w) k = ground arith
