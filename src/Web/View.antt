-- ===== src/Web/View.antt =====
-- View switching of internal/server/web/app.js (`showLogin`, `showApp`, the first half of
-- `switchPanel`, the error line of `doLogin`), over the `hidden` flags and classes that
-- internal/server/web/index.html starts with.
use screwlogger.Base.{◌≡◌, refl, Bool, true, false, not, [], Text}

-- The names of the four panels, which `data-panel` attributes and `switchPanel` use.
pub data Panel : Type 0 where
  devices rules keys dashboards : Panel

-- `p !== name` is its negation.
abbrev pub panel_eq : Panel → Panel → Bool
panel_eq devices devices = true
panel_eq rules rules = true
panel_eq keys keys = true
panel_eq dashboards dashboards = true
panel_eq _ _ = false

pub record View : Type 0 where
  pub login_hidden : Bool
  pub app_hidden : Bool
  pub login_error_hidden : Bool
  pub login_error : Text
  pub panel_hidden : Panel → Bool
  pub nav_active : Panel → Bool

-- As index.html has it: the login view and, within the hidden application, the devices panel.
abbrev pub initial_view : View
initial_view = record {
  login_hidden = false;
  app_hidden = true;
  login_error_hidden = true;
  login_error = [];
  panel_hidden = λ p. not (panel_eq p devices);
  nav_active = λ p. false;
}

-- `showLogin`
unfoldable pub show_login : View → View
show_login v = record v { app_hidden = true; login_hidden = false; login_error_hidden = true }

-- `showApp`
unfoldable pub show_app : View → View
show_app v = record v { login_hidden = true; app_hidden = false }

-- The two loops of `switchPanel`, over the panels and over the buttons of the navigation.
unfoldable pub switch_view : Panel → View → View
switch_view name v = record v {
  panel_hidden = λ p. not (panel_eq p name);
  nav_active = λ p. panel_eq p name;
}

-- `err.hidden = true` of `doLogin`
unfoldable pub clear_error : View → View
clear_error v = record v { login_error_hidden = true }

-- `err.textContent = message; err.hidden = false;` of `doLogin`
unfoldable pub show_error : Text → View → View
show_error message v = record v { login_error = message; login_error_hidden = false }

-- Either the login view or the application is shown, and one panel of it is.
pub record IsWhole (v : View) : Type 0 where
  pub one_view : v.app_hidden ≡ not v.login_hidden
  pub one_panel : (name : Panel) × ((p : Panel) → v.panel_hidden p ≡ not (panel_eq p name))

pub initial_view-IsWhole : IsWhole initial_view
initial_view-IsWhole = record { one_view = refl; one_panel = (devices, λ p. refl) }

pub show_login-IsWhole : (v : View) → IsWhole v → IsWhole (show_login v)
unfolding show_login
show_login-IsWhole v w = record { one_view = refl; one_panel = w.one_panel }

pub show_app-IsWhole : (v : View) → IsWhole v → IsWhole (show_app v)
unfolding show_app
show_app-IsWhole v w = record { one_view = refl; one_panel = w.one_panel }

pub switch_view-IsWhole : (name : Panel) (v : View) → IsWhole v → IsWhole (switch_view name v)
unfolding switch_view
switch_view-IsWhole name v w = record { one_view = w.one_view; one_panel = (name, λ p. refl) }

pub clear_error-IsWhole : (v : View) → IsWhole v → IsWhole (clear_error v)
unfolding clear_error
clear_error-IsWhole v w = record { one_view = w.one_view; one_panel = w.one_panel }

pub show_error-IsWhole : (message : Text) (v : View) → IsWhole v → IsWhole (show_error message v)
unfolding show_error
show_error-IsWhole message v w = record { one_view = w.one_view; one_panel = w.one_panel }
