-- ===== src/Server/Sessions.antt =====
-- `AdminAuth` of internal/server/admin_auth.go: the table of sessions with `Login`, `Logout` and
-- `RequireAdmin`. The check of a password against its bcrypt hash is a parameter, the clock and the
-- random value of a new session are arguments. Times are in nanoseconds.
pub mod History
use screwlogger.Base.{
  ℕ, ◌+◌, ◌*◌, Bool, true, false, not, Option, none, some, List, [], ◌∷◌, ltb, if◌then◌else◌, Text,
  codes, text_eq,
}

-- The answer to a request: `writeErr`, or `writeJSON` with what the handler returns.
pub data HttpResult (A : Type 0) : Type 0 where
  failed : ℕ → Text → HttpResult A
  succeeded : A → HttpResult A

-- `sessionTTL`
abbrev pub session_ttl : ℕ
session_ttl = 12 * 3600 * 1_000_000_000

-- The map `sessions`, from cookies to the times at which they expire.
abbrev pub Sessions : Type 0
Sessions = List (Text × ℕ)

unfoldable pub expiry_of : Text → Sessions → Option ℕ
expiry_of c [] = none
expiry_of c ((k, e) ∷ s) = if text_eq k c then some e else expiry_of c s

unfoldable pub forget : Text → Sessions → Sessions
forget c [] = []
forget c ((k, e) ∷ s) = if text_eq k c then forget c s else (k, e) ∷ forget c s

-- The password is missing if the body is malformed.
pub record LoginRequest : Type 0 where
  pub is_post : Bool
  pub password : Option Text

unfoldable pub login_password :
    (Text → Bool) → ℕ → Text → Option Text → Sessions → HttpResult Text × Sessions
unfolding forget
login_password check now fresh none s = (failed 400 (codes "malformed JSON body"), s)
login_password check now fresh (some password) s =
    if not (check password)
    then (failed 401 (codes "invalid credentials"), s)
    else (succeeded fresh, (fresh, now + session_ttl) ∷ forget fresh s)

-- `Login`, with the value of the cookie that it sets.
unfoldable pub login :
    (Text → Bool) → ℕ → Text → LoginRequest → Sessions → HttpResult Text × Sessions
unfolding login_password
login check now fresh r s =
    if not r.is_post
    then (failed 405 (codes "method not allowed"), s)
    else login_password check now fresh r.password s

-- `Logout`
abbrev pub logout : Option Text → Sessions → Sessions
logout none s = s
logout (some c) s = forget c s

-- The check of an expiry, with the table afterwards.
abbrev pub checked : ℕ → Text → Option ℕ → Sessions → Bool × Sessions
checked now c none s = (false, s)
checked now c (some expiry) s = if ltb expiry now then (false, forget c s) else (true, s)

-- `RequireAdmin`: whether the next handler is called.
unfoldable pub require_admin : ℕ → Option Text → Sessions → Bool × Sessions
unfolding expiry_of forget
require_admin now none s = (false, s)
require_admin now (some c) s = checked now c (expiry_of c s) s
