-- ===== src/Server/Sessions/History.antt =====
-- The table of sessions of internal/server/admin_auth.go against the history of log-ins and log-outs.
use screwlogger.Base.{
  ℕ, ◌+◌, ◌≤◌, ◌<◌, ◌≡◌, refl, sym, ap, ◌∙◌, inl, inr, Bool, true, false, ◌&&◌, Option, none, some,
  List, [], ◌∷◌, arith, ltb, leb, if◌then◌else◌, Bool-cases, Option-cases, ltb→lt, Text, text_eq,
  text_eq_iff,
}
use mathlib.Core.Path.{subst}
use screwlogger.Server.Sessions.{
  checked, login_password, session_ttl, Sessions, expiry_of, forget, LoginRequest, login, logout,
  require_admin,
}

-- What has happened to a cookie, the latest first.
pub data CookieEntry : Type 0 where
  opened : Text → ℕ → CookieEntry
  closed : Text → CookieEntry

-- The cookie was given out at most twelve hours ago, and there was no log-out with it since.
unfoldable pub is_open : ℕ → Text → List CookieEntry → Bool
is_open now c [] = false
is_open now c (opened k at ∷ h) =
    if text_eq k c then leb now (at + session_ttl) else is_open now c h
is_open now c (closed k ∷ h) = if text_eq k c then false else is_open now c h

-- A request to log in that carries the right password.
abbrev pub is_right : (Text → Bool) → LoginRequest → Bool
is_right check r = elim r.password [ none ↦ false | some p ↦ r.is_post && check p ]

abbrev pub opened_by : (Text → Bool) → ℕ → Text → LoginRequest → List CookieEntry → List CookieEntry
opened_by check now fresh r h = if is_right check r then opened fresh now ∷ h else h

abbrev pub after_logout : Option Text → List CookieEntry → List CookieEntry
after_logout none h = h
after_logout (some c) h = closed c ∷ h

-- The tables that come about, with the time of the last request and the history.
pub data Visits (check : Text → Bool) : ℕ → List CookieEntry → Sessions → Type 0 where
  begin_visits : Visits check 0 [] []
  logging_in :
      (t now : ℕ) (fresh : Text) (r : LoginRequest) (h : List CookieEntry) (s : Sessions)
      → Visits check t h s
      → t ≤ now
      → Visits check now (opened_by check now fresh r h) (login check now fresh r s).1
  logging_out :
      (t : ℕ) (c : Option Text) (h : List CookieEntry) (s : Sessions)
      → Visits check t h s
      → Visits check t (after_logout c h) (logout c s)
  visiting :
      (t now : ℕ) (c : Option Text) (h : List CookieEntry) (s : Sessions)
      → Visits check t h s
      → t ≤ now
      → Visits check now h (require_admin now c s).1

abbrev admits : ℕ → Option ℕ → Bool
admits now none = false
admits now (some expiry) = leb now expiry

-- The table and the history agree from a time on.
abbrev Agrees : ℕ → List CookieEntry → Sessions → Type 0
Agrees t h s = (now : ℕ) (c : Text) → t ≤ now → admits now (expiry_of c s) ≡ is_open now c h

expiry_of-forget :
    (c k : Text) (s : Sessions)
    → expiry_of c (forget k s) ≡ (if text_eq k c then none else expiry_of c s)
unfolding expiry_of forget
expiry_of-forget c k [] = ground arith
expiry_of-forget c k ((l, e) ∷ s) =
    ground (arith, expiry_of-forget c k s, text_eq_iff l k, text_eq_iff l c, text_eq_iff k c)

forget-Agrees :
    (t : ℕ) (k : Text) (h : List CookieEntry) (s : Sessions)
    → Agrees t h s
    → Agrees t (closed k ∷ h) (forget k s)
unfolding is_open
forget-Agrees t k h s a now c le = ground (arith, expiry_of-forget c k s, a now c le)

opened-Agrees :
    (t now : ℕ) (k : Text) (h : List CookieEntry) (s : Sessions)
    → t ≤ now
    → Agrees t h s
    → Agrees now (opened k now ∷ h) ((k, now + session_ttl) ∷ forget k s)
unfolding is_open expiry_of
opened-Agrees t now k h s later a again c le =
    ground (arith, expiry_of-forget c k s, a again c (omega (arith, le, later)))

login_password-Agrees :
    (check : Text → Bool) (t now : ℕ) (fresh : Text) (p : Option Text) (h : List CookieEntry)
    (s : Sessions)
    → t ≤ now
    → Agrees t h s
    → Agrees now
        (opened_by check now fresh (record { is_post = true; password = p }) h)
        (login_password check now fresh p s).1
unfolding login_password
login_password-Agrees check t now fresh none h s later a = λ again c le. a again c (omega arith)
login_password-Agrees check t now fresh (some p) h s later a = elim (Bool-cases (check p)) [
  | inl e ↦ rw (e, login_password) (opened-Agrees t now fresh h s later a)
  | inr e ↦ rw (e, login_password) (λ again c le. a again c (omega (arith, le, later)))
]

-- A request of another method is not the right one.
not_right : (check : Text → Bool) (r : LoginRequest) → r.is_post ≡ false → is_right check r ≡ false
not_right check r e = elim (Option-cases r.password) [
  | inl f ↦ ground (arith, f)
  | inr (p, f) ↦ ground (arith, f, e)
]

login-Agrees :
    (check : Text → Bool) (t now : ℕ) (fresh : Text) (r : LoginRequest) (h : List CookieEntry)
    (s : Sessions)
    → t ≤ now
    → Agrees t h s
    → Agrees now (opened_by check now fresh r h) (login check now fresh r s).1
unfolding login
login-Agrees check t now fresh r h s later a = elim (Bool-cases r.is_post) [
  | inl e ↦
      let same : record { is_post = true; password = r.password } ≡ r =
        ap (λ b. record { is_post = b; password = r.password }) (sym e) in
      let reached : (login check now fresh r s).1
          ≡ (login_password check now fresh r.password s).1 =
        ground (arith, e) in
      subst (Agrees now (opened_by check now fresh r h)) (sym reached) (
        subst
          (λ (x : LoginRequest).
            Agrees now (opened_by check now fresh x h)
              (login_password check now fresh r.password s).1)
          same (login_password-Agrees check t now fresh r.password h s later a))
  | inr e ↦
      let unopened : opened_by check now fresh r h ≡ h = ground (arith, not_right check r e) in
      let unreached : (login check now fresh r s).1 ≡ s = ground (arith, e) in
      subst (Agrees now (opened_by check now fresh r h)) (sym unreached) (
        subst (λ g. Agrees now g s) (sym unopened)
          (λ again c le. a again c (omega (arith, le, later))))
]

-- A session that is removed for its age is not missed.
expired-Agrees :
    (t now expiry : ℕ) (c : Text) (h : List CookieEntry) (s : Sessions)
    → t ≤ now
    → expiry_of c s ≡ some expiry
    → expiry < now
    → Agrees t h s
    → Agrees now h (forget c s)
expired-Agrees t now expiry c h s later e old a again d le = elim (Bool-cases (text_eq d c)) [
  | inl f ↦
      let same : d ≡ c = (text_eq_iff d c).0 f in
      ap (admits again) (expiry_of-forget d c s ∙ gone d f)
      ∙ sym (ground (arith, a again c (omega (arith, le, later)), ap (admits again) e))
      ∙ ap (λ x. is_open again x h) (sym same)
  | inr f ↦
      ap (admits again) (expiry_of-forget d c s ∙ stays d f) ∙ a again d (omega (arith, le, later))
]
  where
    gone : (d : Text) → text_eq d c ≡ true → (if text_eq c d then none else expiry_of d s) ≡ none
    gone d f = ground (arith, text_eq_iff d c, text_eq_iff c d)

    stays :
        (d : Text)
        → text_eq d c ≡ false
        → (if text_eq c d then none else expiry_of d s) ≡ expiry_of d s
    stays d f = ground (arith, text_eq_iff d c, text_eq_iff c d)

visited-Agrees :
    (t now : ℕ) (c : Option Text) (h : List CookieEntry) (s : Sessions)
    → t ≤ now
    → Agrees t h s
    → Agrees now h (require_admin now c s).1
unfolding require_admin
visited-Agrees t now none h s later a = λ again d le. a again d (omega (arith, le, later))
visited-Agrees t now (some c) h s later a = elim (Option-cases (expiry_of c s)) [
  | inl e ↦ rw (e, require_admin) (λ again d le. a again d (omega (arith, le, later)))
  | inr (expiry, e) ↦ elim (Bool-cases (ltb expiry now)) [
    | inl f ↦
        rw (e, f, require_admin) (expired-Agrees t now expiry c h s later e (ltb→lt expiry now f) a)
    | inr f ↦ rw (e, f, require_admin) (λ again d le. a again d (omega (arith, le, later)))
  ]
]

module _ (check : Text → Bool) where
  Visits-Agrees : (t : ℕ) (h : List CookieEntry) (s : Sessions) → Visits check t h s → Agrees t h s
  Visits-Agrees t h s begin_visits = λ now c le. unfold expiry_of in unfold is_open in refl
  Visits-Agrees t h s (logging_in u now fresh r g v run later) =
      login-Agrees check u now fresh r g v later (Visits-Agrees u g v run)
  Visits-Agrees t h s (logging_out u none g v run) = Visits-Agrees u g v run
  Visits-Agrees t h s (logging_out u (some c) g v run) =
      forget-Agrees u c g v (Visits-Agrees u g v run)
  Visits-Agrees t h s (visiting u now c g v run later) =
      visited-Agrees u now c g v later (Visits-Agrees u g v run)

-- The guard of the admin API, whose table forgets sessions lazily, implements the history of the
-- cookies: after any log-ins, log-outs and visits in the order of time it lets a request pass exactly
-- if its cookie was given out for the right password at most twelve hours ago, and there was no
-- log-out with it since.
pub require_admin-is_open :
    (check : Text → Bool) (t now : ℕ) (c : Text) (h : List CookieEntry) (s : Sessions)
    → Visits check t h s
    → t ≤ now
    → (require_admin now (some c) s).0 ≡ is_open now c h
unfolding require_admin
require_admin-is_open check t now c h s run later =
    guarded (expiry_of c s) ∙ Visits-Agrees check t h s run now c later
  where
    guarded : (o : Option ℕ) → (checked now c o s).0 ≡ admits now o
    guarded none = refl
    guarded (some e) = ground arith
