-- ===== src/Sqlite/Mode/Laws.antt =====
-- What a mode request does to the row of its pubkey.
use blink_lnurl_server.Prelude.{
  ℕ, ◌<◌, ◌≤◌, ◌⊎◌, ◌≡◌, refl, ◌∙◌, true, false, Option, none, some, eq_iff, is_some, is_none, ◌||◌,
  if◌then◌else◌, List, arith, nat_eq, Text, ok, Bool-cases, inl, inr,
}
use blink_lnurl_server.Repository.{
  SparkModeUpdate, AccountMode, anon, enhanced, signup, switch, mode_eq,
}
use blink_lnurl_server.Sqlite.Query.{find, count, update}
use blink_lnurl_server.Sqlite.Query.Laws.{find-update, find-holds, exists-of-count_zero}
use blink_lnurl_server.Sqlite.Query.Laws.{exists-found}
use blink_lnurl_server.Sqlite.Tables.{SparkRow, Db, Env, pubkey_is}
use blink_lnurl_server.Sqlite.Mode.{
  is_newer, accepts, map_option, new_country, write_country, set_mode_row, write_mode,
}

-- The pubkey stays in every write of a row.
pub set_mode_row-pubkey :
    (pk : Text) (now : ℕ) (u : SparkModeUpdate) (r : SparkRow)
    → pubkey_is pk (set_mode_row now u r) ≡ pubkey_is pk r
unfolding set_mode_row
set_mode_row-pubkey pk now u r = refl

-- Under the unique index on the pubkey there is one row to accept; the first one decides.
none-accepted :
    (u : SparkModeUpdate) (rows : List SparkRow)
    → count (accepts u) rows ≡ 0
    → (r : SparkRow) → find (pubkey_is u.pubkey) rows ≡ some r
    → is_newer r.mode_last_timestamp u.client_timestamp ≡ false
none-accepted u rows z r h = elim (Bool-cases (is_newer r.mode_last_timestamp u.client_timestamp)) [
  | inl newer ↦ absurd (
      cc (
        exists-of-count_zero (accepts u) rows z,
        exists-found (pubkey_is u.pubkey) (λ x. is_newer x.mode_last_timestamp u.client_timestamp)
            rows r h newer,
      ))
  | inr older ↦ older
]

-- No mode was ever set, or the last one at an earlier time of the client.
abbrev pub IsOlder : Option ℕ → ℕ → Type 0
IsOlder none timestamp = Unit {0}
IsOlder (some last) timestamp = last < timestamp

-- The country that a request leaves: none under an anonymous mode, and otherwise that of the request,
-- if it has one.
abbrev pub left_country : SparkModeUpdate → Option Text → Option Text
left_country u old = elim u.mode [
  | anon ↦ none
  | enhanced ↦ (if is_some u.country then u.country else old)
]

-- The time of that country.
abbrev pub left_time : ℕ → SparkModeUpdate → Option ℕ → Option ℕ
left_time now u old = elim u.mode [
  | anon ↦ none
  | enhanced ↦ (if is_some u.country then some now else old)
]

-- The row `r'` is `r` with the mode, the time and the country of the request.
abbrev pub HasMode : ℕ → SparkModeUpdate → SparkRow → SparkRow → Type 0
HasMode now u r r' =
    (r'.mode ≡ some u.mode)
    × (r'.mode_last_timestamp ≡ some u.client_timestamp)
    × (r'.mode_updated_at ≡ some now)
    × (r'.mode_source ≡ elim r.mode [ none ↦ some signup | some m ↦ some switch ])
    × (r'.country ≡ left_country u r.country)
    × (r'.country_updated_at ≡ left_time now u r.country_updated_at)
    × (r'.updated_at ≡ now)
    × (r'.created_at ≡ r.created_at)
    × (r'.account_id ≡ r.account_id)
    × (r'.pubkey ≡ u.pubkey)

written_country :
    (u : SparkModeUpdate) (old : Option Text)
    → (if write_country u then new_country u else old) ≡ left_country u old
written_country u old = by_mode u.mode u.country
  where
    by_mode :
        (m : AccountMode) (c : Option Text)
        → (let new : Option Text = elim m [ anon ↦ none | enhanced ↦ c ] in
            if mode_eq m anon || is_some new then new else old)
          ≡ elim m [ anon ↦ none | enhanced ↦ (if is_some c then c else old) ]
    by_mode anon c = refl
    by_mode enhanced none = refl
    by_mode enhanced (some c) = refl

written_time :
    (now : ℕ) (u : SparkModeUpdate) (old : Option ℕ)
    → (if write_country u then map_option (λ c. now) (new_country u) else old) ≡ left_time now u old
written_time now u old = by_mode u.mode u.country
  where
    by_mode :
        (m : AccountMode) (c : Option Text)
        → (let new : Option Text = elim m [ anon ↦ none | enhanced ↦ c ] in
            if mode_eq m anon || is_some new then map_option (λ x. now) new else old)
          ≡ elim m [ anon ↦ none | enhanced ↦ (if is_some c then some now else old) ]
    by_mode anon c = refl
    by_mode enhanced none = refl
    by_mode enhanced (some c) = refl

source-of :
    (mode : Option AccountMode)
    → some (if is_none mode then signup else switch)
      ≡ elim mode [ none ↦ some signup | some m ↦ some switch ]
source-of none = refl
source-of (some m) = refl

set_mode_row-HasMode :
    (now : ℕ) (u : SparkModeUpdate) (r : SparkRow)
    → pubkey_is u.pubkey r ≡ true
    → HasMode now u r (set_mode_row now u r)
unfolding set_mode_row
set_mode_row-HasMode now u r h = (
  refl,
  refl,
  refl,
  source-of r.mode,
  written_country u r.country,
  written_time now u r.country_updated_at,
  refl,
  refl,
  refl,
  (eq_iff _ _).0 h,
)

-- The last one at the same or a later time.
abbrev pub IsNotOlder : Option ℕ → ℕ → Type 0
IsNotOlder none timestamp = ⊥
IsNotOlder (some last) timestamp = timestamp ≤ last

newer-IsOlder : (last : Option ℕ) (t : ℕ) → is_newer last t ≡ true → IsOlder last t
newer-IsOlder none t h = tt
newer-IsOlder (some u) t h = ground arith

not_newer-IsNotOlder : (last : Option ℕ) (t : ℕ) → is_newer last t ≡ false → IsNotOlder last t
not_newer-IsNotOlder none t h = cc
not_newer-IsNotOlder (some u) t h = ground arith

written-found :
    (env : Env) (u : SparkModeUpdate) (db : Db) (r : SparkRow)
    → find (pubkey_is u.pubkey) db.spark_accounts ≡ some r
    → find (pubkey_is u.pubkey) (update (accepts u) (set_mode_row env.now u) db.spark_accounts)
      ≡ some (
          if is_newer r.mode_last_timestamp u.client_timestamp then set_mode_row env.now u r else r)
written-found env u db r h =
    find-update (pubkey_is u.pubkey) (accepts u) (set_mode_row env.now u) db.spark_accounts
      (set_mode_row-pubkey u.pubkey env.now u)
    ∙ rw h (rw (find-holds (pubkey_is u.pubkey) db.spark_accounts r h) refl)

-- The first row of the pubkey of a mode request decides. If it has no timestamp or an older one the
-- request succeeds, and the row then has the mode and the timestamp of the request and the time of the
-- server, and a signup or a switch as the source; an anonymous account has no country then, and
-- another that of the request, or the old one if the request has none; the account stays. If its
-- timestamp is the same or a later one, the row stays as it is.
pub write_mode-newer :
    (env : Env) (u : SparkModeUpdate) (db : Db) (r : SparkRow)
    → find (pubkey_is u.pubkey) db.spark_accounts ≡ some r
    → (IsOlder r.mode_last_timestamp u.client_timestamp
        × ((write_mode env u db).0 ≡ ok tt)
        × ((r' : SparkRow) × (find (pubkey_is u.pubkey) (write_mode env u db).1.spark_accounts
              ≡ some r')
            × HasMode env.now u r r'))
      ⊎ (IsNotOlder r.mode_last_timestamp u.client_timestamp
          × (find (pubkey_is u.pubkey) (write_mode env u db).1.spark_accounts ≡ some r))
unfolding write_mode
write_mode-newer env u db r h =
    let hit = find-holds (pubkey_is u.pubkey) db.spark_accounts r h in
    let written = written-found env u db r h in
    elim (Bool-cases (is_newer r.mode_last_timestamp u.client_timestamp)) [
      | inl newer ↦ elim (Bool-cases (nat_eq (count (accepts u) db.spark_accounts) 0)) [
        | inl z ↦ absurd (cc (none-accepted u db.spark_accounts (ground arith) r h, newer))
        | inr w ↦ inl (
          newer-IsOlder _ _ newer,
          rw w refl,
          (
            set_mode_row env.now u r,
            rw w (rw newer at written),
            set_mode_row-HasMode env.now u r hit,
          ),
        )
      ]
      | inr older ↦ inr (
        not_newer-IsNotOlder _ _ older,
        elim (Bool-cases (nat_eq (count (accepts u) db.spark_accounts) 0)) [
          | inl z ↦ rw z h
          | inr w ↦ rw w (rw older at written)
        ],
      )
    ]
