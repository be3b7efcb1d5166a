-- ===== src/Console.antt =====
-- The page and the server together: the rows that the page makes of the devices that `handleDevices`
-- of internal/server/query_api.go lists.
pub mod Revoked
pub mod Listed
pub mod Buttons
mod Examples
use screwlogger.Server.Devices.{DeviceResponse}
use screwlogger.Base.{[], Text}
use screwlogger.Web.Wire.{Device}
use screwlogger.Web.Uri.Reading.{between, decode_utf8}

-- The bytes of a Go string as the page has them: UTF-8 that is decoded to code units of UTF-16.
abbrev pub decoded : Text → Text
decoded s = decode_utf8 between s

-- What the page reads of an entry of the answer, by the names of its fields. The identifier and the
-- status go unchanged: they are hexadecimal digits and one of three words, in ASCII.
abbrev pub wire_device : DeviceResponse → Device
wire_device r = record {
  id = r.id;
  name = decoded r.name;
  last_seen = r.last_seen;
  status = r.status;
}
