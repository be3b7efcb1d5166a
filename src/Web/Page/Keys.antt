-- ===== src/Web/Page/Keys.antt =====
-- The API keys panel of internal/server/web/app.js: `loadKeys`, `createKey` and `revokeKey`, each
-- with the callback of its answer.
use screwlogger.Base.{
  Bool, false, not, none, some, List, [], ◌∷◌, if◌then◌else◌, is_empty, Text, codes, concat,
}
use screwlogger.Web.Wire.{Key}
use screwlogger.Web.Net.{Response, get, post, label_body, keys_of, key_of}
use screwlogger.Web.Uri.{trim}
use screwlogger.Web.Page.State.{
  Page, Table, no_rows, filled, api, toast, if_authed, show_secret, got_keys, key_revoked,
  key_created,
}
use screwlogger.Web.Page.Devices.{with_uri}

-- `loadKeys`
unfoldable pub load_keys : Page → Page
load_keys p = api get (codes "/admin/api/keys") none got_keys p

abbrev pub key_rows : List Key → Table Key
key_rows [] = no_rows
key_rows (k ∷ ks) = filled (k ∷ ks)

-- The rest of the callback, for an answer that `authed` lets through.
unfoldable pub then_keys : Response → Page → Page
then_keys res p = record p { keys_table = key_rows (keys_of res.payload) }

unfoldable pub on_keys : Response → Page → Page
unfolding if_authed then_keys
on_keys res = if_authed res (then_keys res)

-- `createKey`
unfoldable pub create_key : Page → Page
create_key p =
    let label = trim p.forms.key_label in
    if is_empty label
    then p
    else api post (codes "/admin/api/keys") (some (label_body label)) (key_created label) p

-- The rest of the callback, for an answer that `authed` lets through.
unfoldable pub then_key_created : Text → Response → Page → Page
unfolding load_keys show_secret
then_key_created label res p =
    show_secret (concat (codes "API key for " ∷ label ∷ [])) (key_of res.payload)
      (load_keys (record p { forms = record p.forms { key_label = [] } }))

unfoldable pub on_key_created : Text → Response → Page → Page
unfolding if_authed then_key_created
on_key_created label res = if_authed res (then_key_created label res)

-- `revokeKey`; the flag is the answer to `confirm`.
unfoldable pub revoke_key : Bool → Text → Page → Page
revoke_key confirmed prefix p =
    if not confirmed
    then p
    else with_uri prefix
        (λ e.
          api post (concat (codes "/admin/api/keys/" ∷ e ∷ codes "/revoke" ∷ [])) none key_revoked)
        p

-- The rest of the callback, for an answer that `authed` lets through.
unfoldable pub then_key_revoked : Page → Page
unfolding load_keys
then_key_revoked p = load_keys (toast (codes "API key revoked") false p)

unfoldable pub on_key_revoked : Response → Page → Page
unfolding if_authed then_key_revoked
on_key_revoked res = if_authed res (then_key_revoked)
