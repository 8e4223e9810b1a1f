-- ===== src/Handlers/Admission.antt =====
-- Who is served (internal/httpapi/middleware).
use learn_rag.Common.{
  ℕ, ◌≡◌, refl, ap, arith, String, Bool, true, false, Option, none, some, if◌then◌else◌, Bool-cases,
  inl, inr,
}
use text.Mathlib.Text.{◌==◌ as str_eq}
use text.Mathlib.TextEquality.{eq_iff}
use learn_rag.Errors.{Err, api, err_forbidden, err_rate_limited}
use learn_rag.Result.{Result, ok, err}
use learn_rag.Model.{ApiKey}
use learn_rag.Database.{Db, World}
use learn_rag.Database.Outcome.{Outcome, weaken, map_err-Outcome, exec-Outcome}
use learn_rag.Database.Table.{select_one}
use learn_rag.Bucket.{TokenBucket, allow}
use learn_rag.Queries.{one}
use learn_rag.Queries.Keys.{is_active_key, get_api_key_by_hash}
use learn_rag.Repo.Keys.{get_by_hash}
use learn_rag.Handlers.{Identity, json, Handler, write_error}
use learn_rag.Handlers.Access.{usable, authenticate, identity_of, limit_key, limited, scoped, serve}

one_ok : (o : Option ApiKey) (db : Db) (a : ApiKey) (db' : Db) → one o db ≡ ok (a, db') → o ≡ some a
one_ok (some j) db a db' h = ground arith
one_ok none db a db' h = cc

get_by_hash-Outcome :
    (hash : String)
    → Outcome
        (get_by_hash hash)
        (λ w key w'. select_one (is_active_key hash) w.db.api_keys ≡ some key)
unfolding get_by_hash get_api_key_by_hash
get_by_hash-Outcome hash =
    weaken (map_err-Outcome _ (exec-Outcome (get_api_key_by_hash hash)))
      (λ w key w' (ran, _). one_ok _ w.db key w'.db ran)

usable_ok :
    (r : Result ApiKey × World) {key : ApiKey} {w' : World} → usable r ≡ (ok key, w') → r.0 ≡ ok key
usable_ok (ok k, w) h = ground arith
usable_ok (err e, w) h = cc

error_clash : {A : Type 0} (e : Err) {status : ℕ} {body : A} → write_error e ≡ json status body → ⊥
unfolding write_error
error_clash e h = cc

module _ {A : Type 0} where
  limited_json :
      (allowed : TokenBucket × Bool) (handler : Handler A) (w : World) {status : ℕ} {body : A}
      → (limited allowed handler w).0 ≡ json status body
      → (allowed.1 ≡ true) × ((handler w).0 ≡ json status body)
  limited_json (tb, true) handler w h = (refl, h)
  limited_json (tb, false) handler w h = absurd (error_clash (api err_rate_limited) h)

  scoped_json :
      (scope client_ip : String) (now : ℕ) (handler : Identity → Handler A) (tb : TokenBucket)
      (r : Result ApiKey × World) {status : ℕ} {body : A}
      → (scoped scope client_ip now handler tb r).0 ≡ json status body
      → (key : ApiKey) × (r.0 ≡ ok key)
        × (key.scope ≡ scope)
        × ((allow (limit_key scope client_ip key.id) now tb).1 ≡ true)
        × ((handler (identity_of key) r.1).0 ≡ json status body)
  scoped_json scope client_ip now handler tb (err e, w) h = absurd (error_clash e h)
  scoped_json scope client_ip now handler tb (ok key, w) {status} {body} h =
      by_scope (str_eq key.scope scope) refl h
    where
      by_scope :
          (same : Bool)
          → str_eq key.scope scope ≡ same
          → (if same
              then limited
                  (allow (limit_key scope client_ip key.id) now tb)
                  (handler (identity_of key))
                  w
              else (write_error (api err_forbidden), tb, w)).0
            ≡ json status body
          → (k : ApiKey) × (ok key ≡ ok k)
            × (k.scope ≡ scope)
            × ((allow (limit_key scope client_ip k.id) now tb).1 ≡ true)
            × ((handler (identity_of k) w).0 ≡ json status body)
      by_scope true same h =
          let (may, answer) =
            limited_json (allow (limit_key scope client_ip key.id) now tb)
              (handler (identity_of key)) w h in
          (key, refl, (eq_iff key.scope scope).0 same, may, answer)
      by_scope false other h = absurd (error_clash (api err_forbidden) h)

  -- A request that is answered by the handler has a key that is not empty, whose digest is that of an active key of the table
  -- with the scope of the routes, and the limiter has admitted it; the handler was run for that key's tenant.
  pub serve-admitted :
      (hash_key : String → String) (plain scope client_ip : String) (now : ℕ)
      (handler : Identity → Handler A) (tb : TokenBucket) (w : World) {status : ℕ} {body : A}
      → (serve hash_key plain scope client_ip now handler tb w).0 ≡ json status body
      → (str_eq plain "" ≡ false)
        × (key : ApiKey) × (select_one (is_active_key (hash_key plain)) w.db.api_keys ≡ some key)
        × (key.scope ≡ scope)
        × ((allow (limit_key scope client_ip key.id) now tb).1 ≡ true)
        × (v : World) × ((handler (record { tenant_id = key.tenant_id; api_key_id = key.id }) v).0
            ≡ json status body)
  unfolding serve authenticate
  serve-admitted hash_key plain scope client_ip now handler tb w {status} {body} h =
      let r = authenticate hash_key plain w in
      let (key, is_key, in_scope, may, answer) = scoped_json scope client_ip now handler tb r h in
      elim (Bool-cases (str_eq plain "")) [
        | inl empty ↦ absurd (ground arith)
        | inr given ↦
            let found = get_by_hash (hash_key plain) w in
            let used : usable found ≡ (ok key, r.1) = ground arith in
            let first = usable_ok found {key = key} {w' = r.1} used in
            (
              given,
              key,
              (get_by_hash-Outcome (hash_key plain)).holds w key found.1
                  (ap (λ x. (x, found.1)) first),
              in_scope,
              may,
              r.1,
              answer,
            )
      ]
