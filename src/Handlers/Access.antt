-- ===== src/Handlers/Access.antt =====
-- internal/httpapi/middleware/auth.go and ratelimit.go, and their place before the handlers in
-- internal/httpapi/router.go. The SHA-256 digest is a parameter. The update of the time of last use,
-- which runs beside the request, comes before it here.
use Prim.Native.String
use text.Mathlib.Text.{◌==◌ as str_eq}
use learn_rag.Common.{ℕ, String, Bool, if◌then◌else◌, is_some}
use learn_rag.Errors.{api, err_unauthorized, err_forbidden, err_rate_limited}
use learn_rag.Result.{Result, ok, err}
use learn_rag.Model.{ApiKey}
use learn_rag.Database.{logged, World, M, throw}
use learn_rag.Repo.Keys.{get_by_hash, touch_last_used}
use learn_rag.Bucket.{TokenBucket, allow}
use learn_rag.Handlers.{Identity, Response, Handler, write_error}

abbrev pub usable : Result ApiKey × World → Result ApiKey × World
usable (err _, w) = (err (api err_unauthorized), w)
usable (ok key, w) =
    let w' = (logged (touch_last_used key.id) w).1 in
    if is_some key.revoked_at then (err (api err_unauthorized), w) else (ok key, w')

-- `authenticate`, of the header X-API-Key: the key whose identity is stored on the request.
unfoldable pub authenticate : (String → String) → String → M ApiKey
unfolding get_by_hash touch_last_used
authenticate hash_key plain w =
    let found = usable (get_by_hash (hash_key plain) w) in
    if str_eq plain "" then throw (api err_unauthorized) w else found

-- What the handlers read from the request.
abbrev pub identity_of : ApiKey → Identity
identity_of key = record { tenant_id = key.tenant_id; api_key_id = key.id }

-- `adminKey` and `queryKey`, with the prefix of the one or the other and the address of the client.
abbrev pub limit_key : String → String → String → String
limit_key prefix client_ip id =
    if str_eq id ""
    then String.◌++◌ prefix (String.◌++◌ ":ip:" client_ip)
    else String.◌++◌ prefix (String.◌++◌ ":" id)

-- What is left of a request: its response, the buckets and the world.
abbrev pub Served : Type 0 → Type 0
Served A = Response A × TokenBucket × World

-- `Limit`, before the handler.
abbrev pub limited : {A : Type 0} → TokenBucket × Bool → Handler A → World → Served A
limited (tb, allowed) handler w =
    let (response, w') = handler w in
    if allowed then (response, tb, w') else (write_error (api err_rate_limited), tb, w)

-- `RequireScope`, before the limit.
abbrev pub scoped :
    {A : Type 0}
    → String
    → String
    → ℕ
    → (Identity → Handler A)
    → TokenBucket
    → Result ApiKey × World
    → Served A
scoped scope client_ip now handler tb (err e, w) = (write_error e, tb, w)
scoped scope client_ip now handler tb (ok key, w) =
    let served =
      limited (allow (limit_key scope client_ip key.id) now tb) (handler (identity_of key)) w in
    if str_eq key.scope scope then served else (write_error (api err_forbidden), tb, w)

-- A request to a group of routes: `RequireKey`, `RequireScope` and `Limit`, then the handler. The two groups' prefixes are
-- their scopes.
unfoldable pub serve :
    {A : Type 0}
    → (String → String)
    → String
    → String
    → String
    → ℕ
    → (Identity → Handler A)
    → TokenBucket
    → World
    → Served A
unfolding authenticate allow write_error
serve hash_key plain scope client_ip now handler tb w =
    scoped scope client_ip now handler tb (authenticate hash_key plain w)
