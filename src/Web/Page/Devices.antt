-- ===== src/Web/Page/Devices.antt =====
-- The devices panel of internal/server/web/app.js: `loadDevices`, `deleteDevice`, `startRename` with
-- its inner functions, `revokeDevice` and `enrollDevice`. A function that sends a request is
-- followed by the callback of its answer.
use screwlogger.Base.{
  ℕ, Bool, true, false, not, ◌||◌, none, some, List, [], ◌∷◌, ◌++◌, map, if◌then◌else◌, length,
  get_elem?, set, is_empty, Text, codes, concat, text_eq,
}
use screwlogger.Web.Wire.{Device}
use screwlogger.Web.Net.{Response, get, post, put, delete, name_body, devices_of, token_of}
use screwlogger.Web.Uri.{encode_uri_component, trim}
use screwlogger.Web.Page.State.{
  Page, Table, no_rows, filled, DeviceRow, api, toast, if_authed, show_secret, got_devices,
  device_deleted, device_revoked, device_renamed, device_enrolled,
}

-- Nothing happens where `encodeURIComponent` throws.
abbrev pub with_uri : Text → (Text → Page → Page) → Page → Page
with_uri s send p = elim (encode_uri_component s) [ none ↦ p | some e ↦ send e p ]

-- `loadDevices`
unfoldable pub load_devices : Page → Page
load_devices p = api get (codes "/admin/api/devices") none got_devices p

abbrev fresh : Device → DeviceRow
fresh d = record { device = d; form = none }

abbrev pub device_rows : List Device → Table DeviceRow
device_rows [] = no_rows
device_rows (d ∷ ds) = filled (map fresh (d ∷ ds))

-- The rest of the callback, for an answer that `authed` lets through.
unfoldable pub then_devices : Response → Page → Page
then_devices res p = record p { devices_table = device_rows (devices_of res.payload) }

unfoldable pub on_devices : Response → Page → Page
unfolding if_authed then_devices
on_devices res = if_authed res (then_devices res)

-- `deleteDevice`; the flag is the answer to `confirm`.
unfoldable pub delete_device : Bool → Text → Page → Page
delete_device confirmed id p =
    if not confirmed
    then p
    else with_uri id
        (λ e. api delete (concat (codes "/admin/api/devices/" ∷ e ∷ [])) none device_deleted) p

-- The rest of the callback, for an answer that `authed` lets through.
unfoldable pub then_device_deleted : Page → Page
unfolding load_devices
then_device_deleted p = load_devices (toast (codes "Device deleted") false p)

unfoldable pub on_device_deleted : Response → Page → Page
unfolding if_authed then_device_deleted
on_device_deleted res = if_authed res (then_device_deleted)

-- `revokeDevice`
unfoldable pub revoke_device : Bool → Text → Page → Page
revoke_device confirmed id p =
    if not confirmed
    then p
    else with_uri id
        (λ e.
          api post (concat (codes "/admin/api/devices/" ∷ e ∷ codes "/revoke" ∷ [])) none
            device_revoked)
        p

-- The rest of the callback, for an answer that `authed` lets through.
unfoldable pub then_device_revoked : Page → Page
unfolding load_devices
then_device_revoked p = load_devices (toast (codes "Device revoked") false p)

unfoldable pub on_device_revoked : Response → Page → Page
unfolding if_authed then_device_revoked
on_device_revoked res = if_authed res (then_device_revoked)

-- `enrollDevice`
unfoldable pub enroll_device : Page → Page
enroll_device p =
    let name = trim p.forms.enroll_name in
    if is_empty name
    then p
    else api post (codes "/admin/api/devices") (some (name_body name)) (device_enrolled name) p

-- The rest of the callback, for an answer that `authed` lets through.
unfoldable pub then_device_enrolled : Text → Response → Page → Page
unfolding load_devices show_secret
then_device_enrolled name res p =
    show_secret (concat (codes "Device token for " ∷ name ∷ [])) (token_of res.payload)
      (load_devices (record p { forms = record p.forms { enroll_name = [] } }))

unfoldable pub on_device_enrolled : Text → Response → Page → Page
unfolding if_authed then_device_enrolled
on_device_enrolled name res = if_authed res (then_device_enrolled name res)

-- The rows with the row of that number changed to show the form of that number.
abbrev pub edit_row : ℕ → DeviceRow → ℕ → Page → Page
edit_row i row n p = record p {
  devices_table = elim p.devices_table [
    | filled rows ↦ filled (set rows i (record row { form = some n }))
    | other ↦ other
  ];
  renames = p.renames ++ record { device = row.device; input = row.device.name; done = false } ∷ [];
}

-- `startRename` on a row: nothing happens if the row is being renamed already.
unfoldable pub start_rename : ℕ → DeviceRow → Page → Page
start_rename i row p = elim row.form [ some _ ↦ p | none ↦ edit_row i row (length p.renames) p ]

-- `finish`, for the form of that number.
unfoldable pub finish : ℕ → Page → Page
unfolding load_devices
finish n p = elim (get_elem? p.renames n) [
  | none ↦ p
  | some r ↦
      if r.done
      then p
      else load_devices (record p { renames = set p.renames n (record r { done = true }) })
]

-- `submit`, for the form of that number.
unfoldable pub submit : ℕ → Page → Page
unfolding finish
submit n p = elim (get_elem? p.renames n) [
  | none ↦ p
  | some r ↦
      let name = trim r.input in
      if is_empty name || text_eq name r.device.name
      then finish n p
      else with_uri r.device.id
          (λ e.
            api put (concat (codes "/admin/api/devices/" ∷ e ∷ codes "/name" ∷ []))
              (some (name_body name)) (device_renamed n))
          p
]

-- The rest of the callback, for an answer that `authed` lets through.
unfoldable pub then_device_renamed : ℕ → Page → Page
unfolding finish
then_device_renamed n p = finish n (toast (codes "Device renamed") false p)

unfoldable pub on_device_renamed : ℕ → Response → Page → Page
unfolding if_authed then_device_renamed
on_device_renamed n res = if_authed res (then_device_renamed n)
