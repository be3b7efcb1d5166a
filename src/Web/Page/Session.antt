-- ===== src/Web/Page/Session.antt =====
-- Sessions and panels of internal/server/web/app.js: `bootstrap`, `doLogin`, `doLogout` and
-- `switchPanel`.
use screwlogger.Base.{not, none, some, [], ◌==◌, if◌then◌else◌, codes}
use screwlogger.Web.Net.{Response, get, post, password_body}
use screwlogger.Web.View.{
  Panel, devices, rules, keys, dashboards, show_app, switch_view, clear_error, show_error,
}
use screwlogger.Web.Page.State.{Page, api, login_page, bootstrapped, logged_in, logged_out}
use screwlogger.Web.Page.Devices.{load_devices}
use screwlogger.Web.Page.Rules.{load_rules}
use screwlogger.Web.Page.Keys.{load_keys}
use screwlogger.Web.Page.Dashboards.{load_dashboards}

-- `showApp(); loadDevices();`
abbrev pub enter_page : Page → Page
enter_page p = load_devices (record p { view = show_app p.view })

-- `bootstrap`
unfoldable pub bootstrap : Page → Page
bootstrap p = api get (codes "/admin/api/devices") none bootstrapped p

unfoldable pub on_bootstrapped : Response → Page → Page
unfolding load_devices
on_bootstrapped res p = if res.status == 401 then login_page p else enter_page p

-- `doLogin`
unfoldable pub do_login : Page → Page
do_login p =
    api post (codes "/admin/login") (some (password_body p.forms.password)) logged_in
      (record p { view = clear_error p.view })

unfoldable pub on_logged_in : Response → Page → Page
unfolding load_devices
on_logged_in res p =
    if res.status == 401
    then record p { view = show_error (codes "Invalid password") p.view }
    else if not res.ok
    then record p { view = show_error (codes "Login failed") p.view }
    else enter_page (record p { forms = record p.forms { password = [] } })

-- `doLogout`
unfoldable pub do_logout : Page → Page
do_logout p = api post (codes "/admin/logout") none logged_out p

unfoldable pub on_logged_out : Response → Page → Page
on_logged_out res p = login_page p

-- The last four statements of `switchPanel`.
unfoldable pub load_panel : Panel → Page → Page
load_panel devices p = load_devices p
load_panel rules p = load_rules p
load_panel keys p = load_keys p
load_panel dashboards p = load_dashboards p

-- `switchPanel`
unfoldable pub switch_panel : Panel → Page → Page
unfolding load_panel
switch_panel name p = load_panel name (record p { view = switch_view name p.view })
