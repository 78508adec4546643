-- ===== src/Browser/Rows.antt =====
-- browser.rs: the queries and the updates on `browser_authorizations`.
use eri.Common.{
  ℕ, Text, Bool, true, false, ◌&&◌, ◌||◌, Option, ◌∷◌, any, find, update_where, is_some,
  is_some_and, nat_beq, ◌==◌, text_eq,
}
use eri.Store.{
  Db, Stage, awaiting_start, awaiting_google, callback_claimed, awaiting_consent, approved, denied,
  failed, expired, BrowserRow,
}
use eri.Transaction.{Outcome, done, abort_if, ◌>>◌}

abbrev pub stage_beq : Stage → Stage → Bool
stage_beq awaiting_start awaiting_start = true
stage_beq awaiting_google awaiting_google = true
stage_beq callback_claimed callback_claimed = true
stage_beq awaiting_consent awaiting_consent = true
stage_beq approved approved = true
stage_beq denied denied = true
stage_beq failed failed = true
stage_beq expired expired = true
stage_beq _ _ = false

-- An equation with a column that may be NULL.
abbrev pub has_text : Text → Option Text → Bool
has_text value column = is_some_and (λ c. c == value) column

abbrev pub has_number : ℕ → Option ℕ → Bool
has_number value column = is_some_and (λ c. nat_beq c value) column

abbrev pub browser_has_id : ℕ → BrowserRow → Bool
browser_has_id id r = nat_beq r.id id

unfoldable pub browser_by_id : ℕ → Db → Option BrowserRow
browser_by_id id db = find (browser_has_id id) db.browser

unfoldable pub browser_where : (BrowserRow → Bool) → Db → Option BrowserRow
browser_where which db = find which db.browser

unfoldable pub update_browser : (BrowserRow → Bool) → (BrowserRow → BrowserRow) → Db → Db
update_browser which f db = record db { browser = update_where which f db.browser }

-- `id` is the primary key, and `upstream_state_hash` is UNIQUE where it is not NULL.
unfoldable pub insert_browser : {E : Type 0} → E → BrowserRow → Db → Outcome E Db Db
insert_browser database row db =
    abort_if
      (is_some (browser_by_id row.id db)
        || is_some_and (λ h. any (λ (r : BrowserRow). has_text h r.upstream_state_hash) db.browser)
            row.upstream_state_hash)
      database
    >> done (record db { browser = row ∷ db.browser })

-- The conditions of the statements.
abbrev pub is_started_by : ℕ → Text → Text → BrowserRow → Bool
is_started_by id state_hash binding_hash r =
    nat_beq r.id id
    && has_text state_hash r.upstream_state_hash
    && has_text binding_hash r.browser_binding_hash
    && stage_beq r.stage awaiting_start

abbrev pub awaits_callback : Text → Text → BrowserRow → Bool
awaits_callback state_hash binding_hash r =
    has_text state_hash r.upstream_state_hash
    && has_text binding_hash r.browser_binding_hash
    && stage_beq r.stage awaiting_google

abbrev pub is_claimed_by : Text → BrowserRow → Bool
is_claimed_by claim_hash r = has_text claim_hash r.claim_hash && stage_beq r.stage callback_claimed

abbrev pub awaits_consent : ℕ → ℕ → Text → BrowserRow → Bool
awaits_consent id session_id csrf_hash r =
    nat_beq r.id id
    && has_number session_id r.session_id
    && has_text csrf_hash r.csrf_hash
    && stage_beq r.stage awaiting_consent
