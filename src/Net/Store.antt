-- ===== src/Net/Store.antt =====
-- The paired hosts of `IdentityStore`, src/net/identity_store.cpp. The file hosts.json is its text,
-- `none` when it cannot be read; `write_hosts` gives the text that goes to the file.
use arcade_launcher_stream_e.Json.Dump.{dump}
use arcade_launcher_stream_e.Json.Parser.{parse}
use arcade_launcher_stream_e.Json.Floats.{Floats}
use arcade_launcher_stream_e.Json.{
  Value, Items, get_str, item, arr, set, no_items, is_object, obj, no_fields, str,
}
use arcade_launcher_stream_e.Base.{
  Bytes, codes, not, List, [], ◌∷◌, ◌==◌, if◌then◌else◌, Option, none, some, length, bytes_eq,
  is_empty,
}
pub mod Hosts

pub record PairedHost : Type 0 where
  pub address : Bytes
  pub name : Bytes
  pub server_cert_pem : Bytes

-- One entry of the file.
unfoldable pub read_host : Value → PairedHost
read_host v = record {
  address = get_str v (codes "address") [];
  name = get_str v (codes "name") [];
  server_cert_pem = get_str v (codes "serverCert") [];
}

-- The loop of `read_hosts`
unfoldable pub read_entries : Items → List PairedHost
read_entries no_items = []
read_entries (item v xs) =
    let rest = read_entries xs in
    if not (is_object v)
    then rest
    else if is_empty (get_str v (codes "address") [])
    then rest
    else read_host v ∷ rest

unfoldable pub read_parsed : Option Value → List PairedHost
read_parsed (some (arr xs)) = read_entries xs
read_parsed _ = []

-- `read_hosts`: a file that is missing or malformed is an empty registry.
unfoldable pub read_hosts : ⦃fl : Floats⦄ → Option Bytes → List PairedHost
read_hosts none = []
read_hosts (some text) = read_parsed (parse text)

unfoldable pub host_value : PairedHost → Value
host_value h =
    set (set (set (obj no_fields) (codes "address") (str h.address)) (codes "name") (str h.name))
      (codes "serverCert") (str h.server_cert_pem)

unfoldable pub host_items : List PairedHost → Items
host_items [] = no_items
host_items (h ∷ hosts) = item (host_value h) (host_items hosts)

unfoldable pub write_hosts : ⦃fl : Floats⦄ → List PairedHost → Bytes
write_hosts hosts = dump (arr (host_items hosts))

-- The loop of `upsert_host`, and the append behind it when nothing was replaced.
unfoldable pub upsert : PairedHost → List PairedHost → List PairedHost
upsert host [] = host ∷ []
upsert host (h ∷ hosts) =
    if bytes_eq h.address host.address then host ∷ hosts else h ∷ upsert host hosts

-- What an operation does to the file: whether it writes, and the text.
unfoldable pub upsert_host : ⦃fl : Floats⦄ → PairedHost → Option Bytes → Option Bytes
upsert_host host file =
    if is_empty host.address then none else some (write_hosts (upsert host (read_hosts file)))

unfoldable pub find_in : Bytes → List PairedHost → Option PairedHost
find_in address [] = none
find_in address (h ∷ hosts) = if bytes_eq h.address address then some h else find_in address hosts

unfoldable pub find_host : ⦃fl : Floats⦄ → Bytes → Option Bytes → Option PairedHost
find_host address file = find_in address (read_hosts file)

-- `std::remove_if` and `erase`
unfoldable pub without : Bytes → List PairedHost → List PairedHost
without address [] = []
without address (h ∷ hosts) =
    let rest = without address hosts in if bytes_eq h.address address then rest else h ∷ rest

unfoldable pub remove_host : ⦃fl : Floats⦄ → Bytes → Option Bytes → Option Bytes
remove_host address file =
    let hosts = read_hosts file in
    let left = without address hosts in
    if length left == length hosts then none else some (write_hosts left)
