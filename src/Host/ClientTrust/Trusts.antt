-- ===== src/Host/ClientTrust/Trusts.antt =====
-- Adding a client makes it trusted, keeps the others, and changes nothing the second time.
use arcade_launcher_stream_e.Base.{
  Bytes, codes, Bool, true, false, ◌||◌, [], Option, none, some, ◌≡◌, refl, ◌∙◌, inl, inr, arith,
  Bool-cases, bytes_eq, bytes_eq_refl, bytes_eq_iff, bytes_lt,
}
use arcade_launcher_stream_e.Json.Portable.{set-set}
use arcade_launcher_stream_e.Json.Access.{find-set_self, find-set_ne}
use arcade_launcher_stream_e.Host.ClientTrust.{
  any_cert, device, named_devices, trust_in, get_str, with_devices, child_object, child_array,
  object_or_new, arr, obj,
}
use arcade_launcher_stream_e.Json.{
  Value, Items, item, no_items, push_item, find, set, str_or, find_field, set_field, get_str,
}

any_cert-push_item :
    (cert : Bytes) (xs : Items) (d : Value)
    → any_cert cert (push_item xs d)
      ≡ (any_cert cert xs || bytes_eq (get_str d (codes "cert") []) cert)
unfolding any_cert push_item
any_cert-push_item cert no_items d = ground arith
any_cert-push_item cert (item e xs) d = ground (arith, any_cert-push_item cert xs d)

get_str-device : (name cert uuid : Bytes) → get_str (device name cert uuid) (codes "cert") [] ≡ cert
unfolding device get_str str_or find find_field set set_field bytes_eq bytes_lt
get_str-device name cert uuid = refl

pub object_or_new-set :
    (o : Option Value) (k : Bytes) (w : Value)
    → object_or_new (some (set (object_or_new o) k w)) ≡ set (object_or_new o) k w
unfolding set
object_or_new-set none k w = refl
object_or_new-set (some (obj fs)) k w = refl
object_or_new-set (some _) k w = refl

child_object-with_devices :
    (doc : Value) (xs : Items)
    → child_object (with_devices doc xs) (codes "root")
      ≡ set (child_object doc (codes "root")) (codes "named_devices") (arr xs)
unfolding with_devices child_object
child_object-with_devices doc xs =
    rw
      (find-set_self doc
        (set (object_or_new (find doc (codes "root"))) (codes "named_devices") (arr xs))
        (codes "root"))
      (object_or_new-set (find doc (codes "root")) (codes "named_devices") (arr xs))

named_devices-with_devices : (doc : Value) (xs : Items) → named_devices (with_devices doc xs) ≡ xs
unfolding named_devices child_array
named_devices-with_devices doc xs = rw (
  child_object-with_devices doc xs,
  find-set_self (child_object doc (codes "root")) (arr xs) (codes "named_devices"),
)

with_devices_root :
    (doc : Value) (ys : Items) (root : Value)
    → child_object doc (codes "root") ≡ root
    → with_devices doc ys ≡ set doc (codes "root") (set root (codes "named_devices") (arr ys))
unfolding with_devices
with_devices_root doc ys root e = rw e

set-with_devices :
    (doc : Value) (xs ys : Items)
    → set (with_devices doc xs) (codes "root") (
        set
          (set (child_object doc (codes "root")) (codes "named_devices") (arr xs))
          (codes "named_devices")
          (arr ys))
      ≡ with_devices doc ys
unfolding with_devices
set-with_devices doc xs ys =
    rw (set-set (child_object doc (codes "root")) (arr ys) (arr xs) (codes "named_devices")) (
      set-set doc (set (child_object doc (codes "root")) (codes "named_devices") (arr ys))
        (set (child_object doc (codes "root")) (codes "named_devices") (arr xs)) (codes "root"))

with_devices_twice :
    (doc : Value) (xs ys : Items) → with_devices (with_devices doc xs) ys ≡ with_devices doc ys
with_devices_twice doc xs ys =
    with_devices_root (with_devices doc xs) ys _ (child_object-with_devices doc xs)
    ∙ set-with_devices doc xs ys

or_false : (b : Bool) → b ≡ (b || false)
or_false true = refl
or_false false = refl

pub trust_in_known :
    (doc : Value) (name cert uuid : Bytes)
    → any_cert cert (named_devices doc) ≡ true
    → trust_in doc name cert uuid ≡ with_devices doc (named_devices doc)
unfolding trust_in
trust_in_known doc name cert uuid h = rw h

pub trust_in_new :
    (doc : Value) (name cert uuid : Bytes)
    → any_cert cert (named_devices doc) ≡ false
    → trust_in doc name cert uuid
      ≡ with_devices doc (push_item (named_devices doc) (device name cert uuid))
unfolding trust_in
trust_in_new doc name cert uuid h = rw h

-- The certificates trusted in a document are the one added and those trusted before.
pub any_cert-trust_in :
    (doc : Value) (name cert uuid other : Bytes)
    → any_cert other (named_devices (trust_in doc name cert uuid))
      ≡ (any_cert other (named_devices doc) || bytes_eq cert other)
any_cert-trust_in doc name cert uuid other = elim (Bool-cases (any_cert cert (named_devices doc))) [
  | inl e ↦
      rw (trust_in_known doc name cert uuid e, named_devices-with_devices doc (named_devices doc))
        (elim (Bool-cases (bytes_eq cert other)) [
          | inl same ↦ rw (← (bytes_eq_iff cert other).0 same, e)
          | inr new ↦ rw new (or_false _)
        ])
  | inr e ↦ rw (
    trust_in_new doc name cert uuid e,
    named_devices-with_devices doc (push_item (named_devices doc) (device name cert uuid)),
    any_cert-push_item other (named_devices doc) (device name cert uuid),
    get_str-device name cert uuid,
  )
]

or_true : (b : Bool) → (b || true) ≡ true
or_true true = refl
or_true false = refl

any_cert-trust_in_self :
    (doc : Value) (name cert uuid : Bytes)
    → any_cert cert (named_devices (trust_in doc name cert uuid)) ≡ true
any_cert-trust_in_self doc name cert uuid =
    any_cert-trust_in doc name cert uuid cert
    ∙ rw (bytes_eq_refl cert) (or_true (any_cert cert (named_devices doc)))

with_devices_settled :
    (doc : Value) (ys : Items)
    → with_devices (with_devices doc ys) (named_devices (with_devices doc ys)) ≡ with_devices doc ys
with_devices_settled doc ys = rw (named_devices-with_devices doc ys) (with_devices_twice doc ys ys)

trust_in_settled :
    (doc : Value) (name cert uuid : Bytes)
    → with_devices (trust_in doc name cert uuid) (named_devices (trust_in doc name cert uuid))
      ≡ trust_in doc name cert uuid
trust_in_settled doc name cert uuid = elim (Bool-cases (any_cert cert (named_devices doc))) [
  | inl e ↦ rw (trust_in_known doc name cert uuid e) (with_devices_settled doc _)
  | inr e ↦ rw (trust_in_new doc name cert uuid e) (with_devices_settled doc _)
]

-- Trusting a certificate again gives the same document, whatever name and id come with it.
pub trust_in_again :
    (doc : Value) (name name' cert uuid uuid' : Bytes)
    → trust_in (trust_in doc name cert uuid) name' cert uuid' ≡ trust_in doc name cert uuid
trust_in_again doc name name' cert uuid uuid' =
    trust_in_known (trust_in doc name cert uuid) name' cert uuid'
      (any_cert-trust_in_self doc name cert uuid)
    ∙ trust_in_settled doc name cert uuid

find-with_devices :
    (doc : Value) (xs : Items) (key : Bytes)
    → bytes_eq (codes "root") key ≡ false
    → find (with_devices doc xs) key ≡ find doc key
unfolding with_devices
find-with_devices doc xs key h = find-set_ne doc _ (codes "root") key h

find_root-with_devices :
    (doc : Value) (xs : Items) (key : Bytes)
    → bytes_eq (codes "named_devices") key ≡ false
    → find (child_object (with_devices doc xs) (codes "root")) key
      ≡ find (child_object doc (codes "root")) key
find_root-with_devices doc xs key h =
    rw (child_object-with_devices doc xs)
      (find-set_ne (child_object doc (codes "root")) (arr xs) (codes "named_devices") key h)

-- Every key of the document but "root" keeps its value when a client is trusted.
pub find-trust_in :
    (doc : Value) (name cert uuid key : Bytes)
    → bytes_eq (codes "root") key ≡ false
    → find (trust_in doc name cert uuid) key ≡ find doc key
find-trust_in doc name cert uuid key h = elim (Bool-cases (any_cert cert (named_devices doc))) [
  | inl e ↦ rw (trust_in_known doc name cert uuid e) (find-with_devices doc _ key h)
  | inr e ↦ rw (trust_in_new doc name cert uuid e) (find-with_devices doc _ key h)
]

-- Under "root", every key but "named_devices" keeps its value when a client is trusted.
pub find_root-trust_in :
    (doc : Value) (name cert uuid key : Bytes)
    → bytes_eq (codes "named_devices") key ≡ false
    → find (child_object (trust_in doc name cert uuid) (codes "root")) key
      ≡ find (child_object doc (codes "root")) key
find_root-trust_in doc name cert uuid key h =
    elim (Bool-cases (any_cert cert (named_devices doc))) [
      | inl e ↦ rw (trust_in_known doc name cert uuid e) (find_root-with_devices doc _ key h)
      | inr e ↦ rw (trust_in_new doc name cert uuid e) (find_root-with_devices doc _ key h)
    ]
