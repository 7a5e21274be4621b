-- ===== src/Net/Store/Hosts.antt =====
-- What the registry answers after it was changed.
use arcade_launcher_stream_e.Json.Maps.{keys_sorted}
use arcade_launcher_stream_e.Json.Access.{find-set}
use arcade_launcher_stream_e.Json.{str_or, get_str, is_object, set, set_field, no_items}
use arcade_launcher_stream_e.Json.RoundTrip.{is_portable, parse-dump, are_portable}
use arcade_launcher_stream_e.Json.Floats.{Floats, Ieee}
use arcade_launcher_stream_e.Net.Store.{
  PairedHost, read_host, host_value, read_entries, host_items, read_parsed, read_hosts, upsert,
  without, get_str, is_object, Items, Value, parse, write_hosts, find_in, remove_host, set, item,
  arr, upsert_host, find_host,
}
use arcade_launcher_stream_e.Base.{
  ◌≤◌, Bytes, codes, Bool, true, false, not, ◌&&◌, List, [], ◌∷◌, if◌then◌else◌, Option, none, some,
  ◌≡◌, ◌↔◌, refl, ◌∙◌, inl, inr, arith, length, Bool-cases, bytes_eq, bytes_eq_iff, is_empty,
  bytes_lt,
}

unfoldable pub addressed : List PairedHost → Bool
addressed [] = true
addressed (h ∷ hosts) = not (is_empty h.address) && addressed hosts

read_host-host_value : (h : PairedHost) → read_host (host_value h) ≡ h
unfolding read_host host_value get_str bytes_eq str_or
read_host-host_value h = simp find-set refl

address-host_value : (h : PairedHost) → get_str (host_value h) (codes "address") [] ≡ h.address
unfolding host_value get_str bytes_eq str_or
address-host_value h = simp find-set refl

is_object-host_value : (h : PairedHost) → is_object (host_value h) ≡ true
unfolding host_value is_object set
is_object-host_value h = refl

read_entries-host_items :
    (hosts : List PairedHost) → addressed hosts ≡ true → read_entries (host_items hosts) ≡ hosts
unfolding read_entries host_items addressed
read_entries-host_items [] p = refl
read_entries-host_items (h ∷ hosts) p =
    let named : is_empty h.address ≡ false = ground arith in
    rw (
      is_object-host_value h,
      address-host_value h,
      named,
      read_host-host_value h,
      read_entries-host_items hosts (ground arith),
    )

are_portable-host_items :
    ⦃fl : Floats⦄ (hosts : List PairedHost) → are_portable (host_items hosts) ≡ true
unfolding host_items is_portable host_value set set_field bytes_eq bytes_lt keys_sorted
are_portable-host_items [] = refl
are_portable-host_items (h ∷ hosts) = are_portable-host_items hosts

addressed-read_entries : (xs : Items) → addressed (read_entries xs) ≡ true
unfolding addressed read_entries read_host
addressed-read_entries no_items = refl
addressed-read_entries (item v xs) = ground (arith, addressed-read_entries xs)

addressed-read_parsed : (o : Option Value) → addressed (read_parsed o) ≡ true
unfolding read_parsed
addressed-read_parsed (some (arr xs)) = addressed-read_entries xs
addressed-read_parsed none = unfold addressed in refl
addressed-read_parsed (some _) = unfold addressed in refl

addressed-read_hosts : ⦃fl : Floats⦄ (file : Option Bytes) → addressed (read_hosts file) ≡ true
unfolding read_hosts
addressed-read_hosts none = unfold addressed in refl
addressed-read_hosts (some text) = addressed-read_parsed (parse text)

-- Hosts that are written to the file are read back, when each of them has an address.
pub read_hosts-write_hosts :
    ⦃fl : Floats⦄ (laws : Ieee fl) (hosts : List PairedHost)
    → addressed hosts ≡ true
    → read_hosts (some (write_hosts hosts)) ≡ hosts
unfolding read_hosts write_hosts
read_hosts-write_hosts laws hosts h =
    rw
      (parse-dump laws (arr (host_items hosts))
        (unfold is_portable in are_portable-host_items hosts))
      (unfold read_parsed in read_entries-host_items hosts h)

addressed-upsert :
    (host : PairedHost) (hosts : List PairedHost)
    → is_empty host.address ≡ false
    → addressed hosts ≡ true
    → addressed (upsert host hosts) ≡ true
unfolding addressed upsert
addressed-upsert host [] e h = ground arith
addressed-upsert host (x ∷ hosts) e h = ground (arith, addressed-upsert host hosts)

addressed-without :
    (address : Bytes) (hosts : List PairedHost)
    → addressed hosts ≡ true
    → addressed (without address hosts) ≡ true
unfolding addressed without
addressed-without address [] h = refl
addressed-without address (x ∷ hosts) h = ground (arith, addressed-without address hosts)

find_in-upsert :
    (host : PairedHost) (hosts : List PairedHost) (address : Bytes)
    → find_in address (upsert host hosts)
      ≡ (if bytes_eq host.address address then some host else find_in address hosts)
unfolding upsert find_in
find_in-upsert host [] address = refl
find_in-upsert host (h ∷ hosts) address = elim (Bool-cases (bytes_eq h.address host.address)) [
  | inl e ↦
      let same = (bytes_eq_iff h.address host.address).0 e in
      rw e (elim (Bool-cases (bytes_eq host.address address)) [
        | inl q ↦ rw q
        | inr q ↦ rw (q, same, q)
      ])
  | inr e ↦
      rw (e, find_in-upsert host hosts address)
        (elim (Bool-cases (bytes_eq host.address address)) [
          | inl q ↦
              let other : bytes_eq h.address address ≡ false =
                rw (← (bytes_eq_iff host.address address).0 q, e) in
              rw (q, other)
          | inr q ↦ rw q
        ])
]

find_in-without :
    (gone : Bytes) (hosts : List PairedHost) (address : Bytes)
    → find_in address (without gone hosts)
      ≡ (if bytes_eq gone address then none else find_in address hosts)
unfolding without find_in
find_in-without gone [] address = ground arith
find_in-without gone (h ∷ hosts) address =
    let ih = find_in-without gone hosts address in
    elim (Bool-cases (bytes_eq h.address gone)) [
      | inl e ↦
          let same = (bytes_eq_iff h.address gone).0 e in
          rw (e, ih)
            (elim (Bool-cases (bytes_eq gone address)) [ inl q ↦ rw q | inr q ↦ rw (q, same, q) ])
      | inr e ↦ rw e (elim (Bool-cases (bytes_eq gone address)) [
        | inl q ↦
            let other : bytes_eq h.address address ≡ false =
              rw (← (bytes_eq_iff gone address).0 q, e) in
            rw (q, other) (ih ∙ rw q)
        | inr q ↦ rw (q, ih, q)
      ])
    ]

some-injective : {a b : Bytes} → ◌≡◌ {A = Option Bytes} (some a) (some b) → a ≡ b
some-injective h = cc

upsert_host-some :
    ⦃fl : Floats⦄ (host : PairedHost) (file : Option Bytes) (text : Bytes)
    → upsert_host host file ≡ some text
    → (is_empty host.address ≡ false) × (text ≡ write_hosts (upsert host (read_hosts file)))
unfolding upsert_host
upsert_host-some host file text h = ground arith

-- After `upsert_host` has written, `find_host` finds the new host under its address and what it
-- found before under every other, for doubles that obey the laws.
pub find_host-upsert_host :
    ⦃fl : Floats⦄ (laws : Ieee fl) (host : PairedHost) (file : Option Bytes) (text address : Bytes)
    → upsert_host host file ≡ some text
    → find_host address (some text)
      ≡ (if bytes_eq host.address address then some host else find_host address file)
unfolding find_host
find_host-upsert_host laws host file text address h =
    let (named, wrote) = upsert_host-some host file text h in
    rw
      (
        wrote,
        read_hosts-write_hosts laws (upsert host (read_hosts file))
            (addressed-upsert host (read_hosts file) named (addressed-read_hosts file)),
      )
      (find_in-upsert host (read_hosts file) address)

remove_host-some :
    ⦃fl : Floats⦄ (gone : Bytes) (file : Option Bytes) (text : Bytes)
    → remove_host gone file ≡ some text
    → text ≡ write_hosts (without gone (read_hosts file))
unfolding remove_host
remove_host-some gone file text h = ground arith

-- After `remove_host` has written, `find_host` finds nothing under the address that was removed, and
-- what it found before under every other, for doubles that obey the laws.
pub find_host-remove_host :
    ⦃fl : Floats⦄ (laws : Ieee fl) (gone : Bytes) (file : Option Bytes) (text address : Bytes)
    → remove_host gone file ≡ some text
    → find_host address (some text)
      ≡ (if bytes_eq gone address then none else find_host address file)
unfolding find_host
find_host-remove_host laws gone file text address h =
    rw
      (
        remove_host-some gone file text h,
        read_hosts-write_hosts laws (without gone (read_hosts file))
            (addressed-without gone (read_hosts file) (addressed-read_hosts file)),
      )
      (find_in-without gone (read_hosts file) address)

length-without-le :
    (gone : Bytes) (hosts : List PairedHost) → length (without gone hosts) ≤ length hosts
unfolding without
length-without-le gone [] = omega arith
length-without-le gone (h ∷ hosts) = ground (arith, length-without-le gone hosts)

length-without :
    (gone : Bytes) (hosts : List PairedHost)
    → (length (without gone hosts) ≡ length hosts) ↔ (find_in gone hosts ≡ none)
unfolding without find_in
length-without gone [] = ground arith
length-without gone (h ∷ hosts) =
    ground (arith, length-without-le gone hosts, length-without gone hosts)

-- `remove_host` leaves the file alone exactly when no host has that address.
pub remove_host-none_iff :
    ⦃fl : Floats⦄ (gone : Bytes) (file : Option Bytes)
    → (remove_host gone file ≡ none) ↔ (find_host gone file ≡ none)
unfolding remove_host find_host
remove_host-none_iff gone file = ground (arith, length-without gone (read_hosts file))
