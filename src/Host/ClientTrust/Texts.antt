-- ===== src/Host/ClientTrust/Texts.antt =====
-- The same at the level of the state file's text, where `dump` and `parse` come between.
use arcade_launcher_stream_e.Json.Maps.{keys_sorted}
use arcade_launcher_stream_e.Host.ClientTrust.{
  any_cert, named_devices, child_object, child_array, with_devices, device, trust_in,
  has_trusted_client, object_or_new, items_or_new, add_trusted_client, parse_state,
}
use arcade_launcher_stream_e.Base.{
  Bytes, codes, true, false, ◌||◌, Option, none, some, ◌≡◌, refl, inl, inr, Bool-cases, bytes_eq,
  is_empty, bytes_lt,
}
use arcade_launcher_stream_e.Json.{Value, Items, find, set, arr, obj, set_field}
use arcade_launcher_stream_e.Json.Portable.{are_portable-push_item, is_portable-set, find-portable}
use arcade_launcher_stream_e.Json.RoundTrip.{is_portable, parse-dump, are_portable}
use arcade_launcher_stream_e.Json.Floats.{Floats, Ieee}
use arcade_launcher_stream_e.Json.Parser.{parse}
use arcade_launcher_stream_e.Host.ClientTrust.Trusts.{
  any_cert-trust_in, trust_in_known, trust_in_new, object_or_new-set,
}

module _ ⦃fl : Floats⦄ where
  child_object-is_portable :
      (v : Value) (key : Bytes) → is_portable v ≡ true → is_portable (child_object v key) ≡ true
  unfolding child_object
  child_object-is_portable v key h = of_child (find v key) (λ w e. find-portable v w key h e)
    where
      of_child :
          (o : Option Value)
          → ((w : Value) → o ≡ some w → is_portable w ≡ true)
          → is_portable (object_or_new o) ≡ true
      of_child (some (obj fs)) k = k (obj fs) refl
      of_child none k = unfold is_portable keys_sorted in refl
      of_child (some _) k = unfold is_portable keys_sorted in refl

  child_array-are_portable :
      (v : Value) (key : Bytes) → is_portable v ≡ true → are_portable (child_array v key) ≡ true
  unfolding child_array is_portable
  child_array-are_portable v key h = of_child (find v key) (λ w e. find-portable v w key h e)
    where
      of_child :
          (o : Option Value)
          → ((w : Value) → o ≡ some w → is_portable w ≡ true)
          → are_portable (items_or_new o) ≡ true
      of_child (some (arr xs)) k = k (arr xs) refl
      of_child none k = refl
      of_child (some _) k = refl

  is_portable-with_devices :
      (doc : Value) (xs : Items)
      → is_portable doc ≡ true
      → are_portable xs ≡ true
      → is_portable (with_devices doc xs) ≡ true
  unfolding with_devices
  is_portable-with_devices doc xs h k = is_portable-set doc _ (codes "root") h (
      is_portable-set (child_object doc (codes "root")) (arr xs) (codes "named_devices")
        (child_object-is_portable doc (codes "root") h) (unfold is_portable in k))

  is_portable-device : (name cert uuid : Bytes) → is_portable (device name cert uuid) ≡ true
  unfolding device is_portable set set_field bytes_eq bytes_lt keys_sorted
  is_portable-device name cert uuid = refl

  pub is_portable-trust_in :
      (doc : Value) (name cert uuid : Bytes)
      → is_portable doc ≡ true
      → is_portable (trust_in doc name cert uuid) ≡ true
  is_portable-trust_in doc name cert uuid h =
      let known : are_portable (named_devices doc) ≡ true =
        unfold named_devices in
        child_array-are_portable (child_object doc (codes "root")) (codes "named_devices")
          (child_object-is_portable doc (codes "root") h) in
      elim (Bool-cases (any_cert cert (named_devices doc))) [
        | inl e ↦ rw (trust_in_known doc name cert uuid e) (is_portable-with_devices doc _ h known)
        | inr e ↦ rw (trust_in_new doc name cert uuid e) (
            is_portable-with_devices doc _ h (
              are_portable-push_item (named_devices doc) (device name cert uuid) known
                (is_portable-device name cert uuid)))
      ]

object_or_new-trust_in :
    (o : Option Value) (name cert uuid : Bytes)
    → object_or_new (some (trust_in (object_or_new o) name cert uuid))
      ≡ trust_in (object_or_new o) name cert uuid
object_or_new-trust_in o name cert uuid =
    elim (Bool-cases (any_cert cert (named_devices (object_or_new o)))) [
      | inl e ↦
          rw (trust_in_known (object_or_new o) name cert uuid e)
            (unfold with_devices in object_or_new-set o (codes "root") _)
      | inr e ↦
          rw (trust_in_new (object_or_new o) name cert uuid e)
            (unfold with_devices in object_or_new-set o (codes "root") _)
    ]

-- The new state text parses to the document that was dumped.
pub parse_state-add_trusted_client :
    ⦃fl : Floats⦄ (laws : Ieee fl) (text name cert uuid : Bytes)
    → is_portable (parse_state text) ≡ true
    → parse_state (add_trusted_client text name cert uuid)
      ≡ trust_in (parse_state text) name cert uuid
unfolding parse_state add_trusted_client
parse_state-add_trusted_client laws text name cert uuid h =
    rw (parse-dump laws _ (is_portable-trust_in (object_or_new (parse text)) name cert uuid h))
      (object_or_new-trust_in (parse text) name cert uuid)

-- The state text that `add_trusted_client` makes trusts the new certificate and those that were
-- trusted, and no other. The old state must hold no number that JSON text does not carry, and the
-- certificate asked for must not be empty.
pub has_trusted_client-add_trusted_client :
    ⦃fl : Floats⦄ (laws : Ieee fl) (text name cert uuid other : Bytes)
    → is_portable (parse_state text) ≡ true
    → is_empty other ≡ false
    → has_trusted_client (add_trusted_client text name cert uuid) other
      ≡ (has_trusted_client text other || bytes_eq cert other)
unfolding has_trusted_client
has_trusted_client-add_trusted_client laws text name cert uuid other h ne =
    rw (ne, parse_state-add_trusted_client laws text name cert uuid h)
      (any_cert-trust_in (parse_state text) name cert uuid other)
