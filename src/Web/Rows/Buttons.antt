-- ===== src/Web/Rows/Buttons.antt =====
-- Which buttons a device's row offers.
use screwlogger.Base.{◌≡◌, Bool, true, false, not, ◌&&◌, ◌||◌, List, [], ◌∷◌, arith}
use screwlogger.Web.Wire.{Device}
use screwlogger.Web.Rows.{Action, rename, revoke, delete, Button, device_buttons, is_revoked}

abbrev action_eq : Action → Action → Bool
action_eq rename rename = true
action_eq revoke revoke = true
action_eq delete delete = true
action_eq _ _ = false

-- Whether a list of buttons has one for the action that can be pressed.
unfoldable pub enabled : Action → List Button → Bool
enabled a [] = false
enabled a (x ∷ xs) = action_eq x.action a && not x.disabled || enabled a xs

-- A device can be renamed in any state, revoked as long as it is not, and deleted only after that.
pub enabled-device_buttons :
    (d : Device)
    → (enabled rename (device_buttons d) ≡ true)
      × (enabled revoke (device_buttons d) ≡ not (is_revoked d))
      × (enabled delete (device_buttons d) ≡ is_revoked d)
unfolding enabled device_buttons
enabled-device_buttons d = ground arith
