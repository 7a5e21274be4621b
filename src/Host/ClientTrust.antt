-- ===== src/Host/ClientTrust.antt =====
-- src/host/client_trust.cpp: the trusted clients under root.named_devices of Sunshine's state. The
-- references into the tree are read-and-replace here: `child` reads, `set` writes back.
use arcade_launcher_stream_e.Base.{
  Bytes, codes, Bool, true, false, ◌||◌, [], if◌then◌else◌, Option, some, bytes_eq, is_empty,
}
pub mod Trusts
pub mod Texts
use arcade_launcher_stream_e.Json.{
  Value, Items, str, obj, arr, no_fields, no_items, item, find, set, get_str, push_item,
}
use arcade_launcher_stream_e.Json.Dump.{dump}
use arcade_launcher_stream_e.Json.Parser.{parse}
use arcade_launcher_stream_e.Json.Floats.{Floats}

abbrev pub object_or_new : Option Value → Value
object_or_new (some (obj fs)) = obj fs
object_or_new _ = obj no_fields

-- `child_object`: the object under `key`, or a new one.
unfoldable pub child_object : Value → Bytes → Value
child_object parent key = object_or_new (find parent key)

abbrev pub items_or_new : Option Value → Items
items_or_new (some (arr xs)) = xs
items_or_new _ = no_items

-- `child_array`: the elements of the array under `key`, or none.
unfoldable pub child_array : Value → Bytes → Items
child_array parent key = items_or_new (find parent key)

-- `parse_state`; the empty text does not parse either
unfoldable pub parse_state : ⦃fl : Floats⦄ → Bytes → Value
parse_state text = object_or_new (parse text)

-- Whether an element of the array has this certificate.
unfoldable pub any_cert : Bytes → Items → Bool
any_cert cert no_items = false
any_cert cert (item d xs) = bytes_eq (get_str d (codes "cert") []) cert || any_cert cert xs

-- The array under root.named_devices; it is empty if a step of the path is missing.
unfoldable pub named_devices : Value → Items
named_devices doc = child_array (child_object doc (codes "root")) (codes "named_devices")

unfoldable pub has_trusted_client : ⦃fl : Floats⦄ → Bytes → Bytes → Bool
has_trusted_client text cert =
    if is_empty cert then false else any_cert cert (named_devices (parse_state text))

-- The entry that is appended for a client.
unfoldable pub device : Bytes → Bytes → Bytes → Value
device name cert uuid =
    set
      (set (set (set (obj no_fields) (codes "name") (str name)) (codes "cert") (str cert))
        (codes "uuid") (str uuid))
      (codes "enabled") (str (codes "true"))

-- The document with these devices under root.named_devices.
unfoldable pub with_devices : Value → Items → Value
with_devices doc xs =
    set doc (codes "root") (set (child_object doc (codes "root")) (codes "named_devices") (arr xs))

-- `add_trusted_client` on the parsed document
unfoldable pub trust_in : Value → Bytes → Bytes → Bytes → Value
trust_in doc name cert uuid =
    let devices = named_devices doc in
    if any_cert cert devices
    then with_devices doc devices
    else with_devices doc (push_item devices (device name cert uuid))

unfoldable pub add_trusted_client : ⦃fl : Floats⦄ → Bytes → Bytes → Bytes → Bytes → Bytes
add_trusted_client text name cert uuid = dump (trust_in (parse_state text) name cert uuid)
