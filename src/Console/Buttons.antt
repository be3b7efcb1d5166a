-- ===== src/Console/Buttons.antt =====
-- The buttons of a device and the guards of the server: `loadDevices` of internal/server/web/app.js and
-- `handleDeviceDelete` of internal/server/admin_api.go.
use screwlogger.Base.{
  ℕ, ◌≡◌, refl, ap, ◌∙◌, ◌⊎◌, inl, inr, true, false, not, some, List, map, arith, Bool-cases,
  Option-cases, get_elem?, Text, codes, text_eq,
}
use screwlogger.Console.Listed.{by_id-listed}
use screwlogger.Server.Site.Fits.{FitsSchema}
use mathlib.Core.Path.{subst}
use screwlogger.Console.{wire_device}
use screwlogger.Console.Revoked.{Later, Later-Settled, is_settled}
use screwlogger.Web.Rows.{device_buttons, revoke, delete, is_revoked}
use screwlogger.Web.Rows.Buttons.{enabled, enabled-device_buttons}
use screwlogger.Server.Store.{Device, by_id, deleted, delete_device}
use screwlogger.Server.Devices.{DeviceResponse, device_response, device_status, list_devices}
use screwlogger.Server.Sessions.{succeeded, failed}
use screwlogger.Server.QueryApi.{devices_query, devices_reply, handle_query}
use screwlogger.Server.Site.{
  Libraries, Chance, Site, query_get, queried, done, device_delete, handle_admin, unix_of,
}

listed_rows :
    (libs : Libraries) (asked : ℕ) (chance : Chance) (site : Site) (rows : List DeviceResponse)
    → handle_admin libs asked chance (query_get devices_query) site
      ≡ (succeeded (queried (devices_reply rows)), site)
    → rows ≡ map (device_response (unix_of asked)) (list_devices site.store.devices)
unfolding handle_admin handle_query
listed_rows libs asked chance site rows e = ground (arith, e)

is_revoked_lem :
    (t : ℕ) (d : Device) → is_revoked (wire_device (device_response t d)) ≡ is_settled (some d)
unfolding device_status text_eq
is_revoked_lem t d = elim (Option-cases d.revoked_at) [
  | inl e ↦ ground (arith, e)
  | inr (at, e) ↦ ground (arith, e)
]

row_buttons :
    (t : ℕ) (d : Device)
    → (enabled delete (device_buttons (wire_device (device_response t d))) ≡ is_settled (some d))
      × (enabled revoke (device_buttons (wire_device (device_response t d)))
          ≡ not (is_settled (some d)))
row_buttons t d =
    let (_, off, offered) = enabled-device_buttons (wire_device (device_response t d)) in
    (offered ∙ is_revoked_lem t d, off ∙ ap not (is_revoked_lem t d))

settled_deletion :
    (libs : Libraries) (now : ℕ) (chance : Chance) (id : Text) (site : Site)
    → is_settled (by_id id site.store.devices) ≡ true
    → (handle_admin libs now chance (device_delete id) site
        ≡ (succeeded done, record site { store = deleted id site.store }))
      ⊎ (handle_admin libs now chance (device_delete id) site
          ≡ (failed 404 (codes "unknown device"), site))
unfolding handle_admin delete_device
settled_deletion libs now chance id site h = elim (Option-cases (by_id id site.store.devices)) [
  | inl e ↦ inr (rw e refl)
  | inr (d, e) ↦ elim (Option-cases d.revoked_at) [
    | inl f ↦ absurd (ground (arith, h, e, f))
    | inr (at, f) ↦ inl (rw (e, f) refl)
  ]
]

active_deletion :
    (libs : Libraries) (now : ℕ) (chance : Chance) (d : Device) (site : Site)
    → by_id d.id site.store.devices ≡ some d
    → is_settled (some d) ≡ false
    → handle_admin libs now chance (device_delete d.id) site
      ≡ (failed 409 (codes "device is not revoked"), site)
unfolding handle_admin delete_device
active_deletion libs now chance d site e h = elim (Option-cases d.revoked_at) [
  | inl f ↦ rw (e, f) refl
  | inr (at, f) ↦ absurd (ground (arith, h, f))
]

-- The buttons of a row and the guards of the server agree, in a server whose tables fit the schema, for
-- every device in the answer to a query for the devices. If the row offers "Delete", it does not offer
-- "Revoke", and after any later requests, of which no enrolment draws the identifier of the device, the
-- server deletes the device with its heartbeats, or answers 404 because it is gone: never 409. If the
-- row does not offer "Delete", it offers "Revoke", and the server answers a deletion with 409.
pub deletion_agrees :
    (libs : Libraries) (asked now : ℕ) (chance other : Chance) (site later : Site)
    (rows : List DeviceResponse) (n : ℕ) (row : DeviceResponse)
    → FitsSchema site
    → handle_admin libs asked chance (query_get devices_query) site
      ≡ (succeeded (queried (devices_reply rows)), site)
    → get_elem? rows n ≡ some row
    → Later libs row.id site later
    → ((enabled delete (device_buttons (wire_device row)) ≡ true)
        × (enabled revoke (device_buttons (wire_device row)) ≡ false)
        × ((handle_admin libs now other (device_delete row.id) later
              ≡ (succeeded done, record later { store = deleted row.id later.store }))
            ⊎ (handle_admin libs now other (device_delete row.id) later
                ≡ (failed 404 (codes "unknown device"), later))))
      ⊎ ((enabled delete (device_buttons (wire_device row)) ≡ false)
          × (enabled revoke (device_buttons (wire_device row)) ≡ true)
          × (handle_admin libs now other (device_delete row.id) site
              ≡ (failed 409 (codes "device is not revoked"), site)))
deletion_agrees libs asked now chance other site later rows n row fits answer listed run =
    let t = unix_of asked in
    let (d, same, found) =
      by_id-listed (device_response t) n row site.store.devices fits.store_fits.devices_key (
        subst (λ l. get_elem? l n ≡ some row) (listed_rows libs asked chance site rows answer)
          listed) in
    let (offered, off) = row_buttons t d in
    let known = ap is_settled found in
    let after = subst (λ r. Later libs r.id site later) same run in
    elim (Bool-cases (is_settled (some d))) [
      | inl h ↦ inl (
        rw same (offered ∙ h),
        rw same (off ∙ ap not h),
        rw same (
            settled_deletion libs now other d.id later
              (Later-Settled libs d.id site later after (known ∙ h))),
      )
      | inr h ↦ inr (
        rw same (offered ∙ h),
        rw same (off ∙ ap not h),
        rw same (active_deletion libs now other d site found h),
      )
    ]
