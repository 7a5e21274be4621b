-- ===== src/Json/RoundTrip.antt =====
-- What `dump` prints, `parse` reads back. Each lemma reads one printed piece, with any rest behind.
use arcade_launcher_stream_e.Json.Text.RoundTrip.{parse_str-escape}
use arcade_launcher_stream_e.Base.{
  ℕ, zero, suc, ◌+◌, ◌*◌, ◌<◌, Bytes, Bool, true, false, ◌&&◌, [], ◌∷◌, ◌++◌, if◌then◌else◌, Option,
  none, some, ◌≡◌, refl, ◌∙◌, arith, length, length-append, append_assoc, append-nil, is_empty,
  is_digit,
}
use arcade_launcher_stream_e.Base.Result.{ok, ◌>>=◌, failed}
use arcade_launcher_stream_e.Json.{
  Value, Items, Fields, null, bool, num, str, arr, obj, no_items, item, no_fields, field, push_item,
  set_field,
}
use arcade_launcher_stream_e.Json.Dump.{dump, dump_items, dump_fields, escape, dump_num}
use arcade_launcher_stream_e.Json.Floats.{Floats, Ieee, is_number_text, is_number_byte}
use arcade_launcher_stream_e.Json.Maps.{keys_sorted, insert_fields, insert_fields-sorted}
use arcade_launcher_stream_e.Json.Numbers.{
  is_portable_num, stops, number-dump_num, is_number_text-dump_num,
}
use arcade_launcher_stream_e.Json.Parser.{
  ws, value, array_next, object_loop, object_next, starts, parse, parse_result, finish, number,
  accepted,
}

-- The values that JSON text carries: maps are sorted, as every std::map is, and every number is
-- finite and not -0.0.
unfoldable mutual
  pub is_portable : ⦃fl : Floats⦄ → Value → Bool
  is_portable (num x) = is_portable_num x
  is_portable (arr xs) = are_portable xs
  is_portable (obj fs) = keys_sorted fs && fields_portable fs
  is_portable null = true
  is_portable (bool b) = true
  is_portable (str s) = true

  pub are_portable : ⦃fl : Floats⦄ → Items → Bool
  are_portable no_items = true
  are_portable (item v xs) = is_portable v && are_portable xs

  pub fields_portable : ⦃fl : Floats⦄ → Fields → Bool
  fields_portable no_fields = true
  fields_portable (field k v fs) = is_portable v && fields_portable fs

-- Items pushed in order.
abbrev push_items : Items → Items → Items
push_items acc no_items = acc
push_items acc (item v xs) = push_items (push_item acc v) xs

push_items_item :
    (w : Value) (acc xs : Items) → push_items (item w acc) xs ≡ item w (push_items acc xs)
unfolding push_item
push_items_item w acc no_items = refl
push_items_item w acc (item v xs) = push_items_item w (push_item acc v) xs

push_items_nil : (xs : Items) → push_items no_items xs ≡ xs
unfolding push_item
push_items_nil no_items = refl
push_items_nil (item v xs) = push_items_item v no_items xs ∙ rw (push_items_nil xs)

-- What `value` does with a text that starts with no white space, by its first byte.
abbrev Plain : Bytes → Type 0
Plain s = (ws s ≡ s) × (starts b']' s ≡ false) × (starts b'}' s ≡ false)

module _ ⦃fl : Floats⦄ (laws : Ieee fl) where
  Plain-number : (t rest : Bytes) → is_number_text t ≡ true → Plain (t ++ rest)
  unfolding is_number_text is_digit ws starts
  Plain-number [] rest h = cc
  Plain-number (c ∷ t) rest h = ground arith

  Plain-dump : (v : Value) (rest : Bytes) → is_portable v ≡ true → Plain (dump v ++ rest)
  unfolding dump ws starts is_portable escape
  Plain-dump (num x) rest h = Plain-number (dump_num x) rest (is_number_text-dump_num laws x h)
  Plain-dump (bool true) rest h = (refl, refl, refl)
  Plain-dump (bool false) rest h = (refl, refl, refl)
  Plain-dump null rest h = (refl, refl, refl)
  Plain-dump (str s) rest h = (refl, refl, refl)
  Plain-dump (arr xs) rest h = (refl, refl, refl)
  Plain-dump (obj fs) rest h = (refl, refl, refl)

  value-number :
      (t rest : Bytes) (f : ℕ)
      → is_number_text t ≡ true
      → value (suc f) (t ++ rest) ≡ number (t ++ rest)
  unfolding is_number_text is_digit value
  value-number [] rest f h = cc
  value-number (c ∷ t) rest f h = ground arith

  abbrev ReadsValue : Value → Type 0
  ReadsValue v =
      is_portable v ≡ true
      → (rest : Bytes) → stops rest ≡ true
      → (f : ℕ) → 3 * length (dump v) < f
      → value f (dump v ++ rest) ≡ ok (v, rest)

  abbrev ReadsItems : Items → Type 0
  ReadsItems xs =
      are_portable xs ≡ true
      → (acc : Items) (rest : Bytes) (f : ℕ) → 3 * length (dump_items false xs) < f
      → array_next f acc (dump_items false xs ++ (b']' ∷ rest)) ≡ ok (push_items acc xs, rest)

  abbrev ReadsFields : Fields → Type 0
  ReadsFields fs =
      fields_portable fs ≡ true
      → (acc : Fields) (rest : Bytes) (f : ℕ) → 3 * length (dump_fields false fs) < f
      → object_next f acc (dump_fields false fs ++ (b'}' ∷ rest)) ≡ ok (insert_fields acc fs, rest)

  -- Behind a comma, one more member is read.
  array_next_comma :
      (f : ℕ) (acc : Items) (s : Bytes)
      → array_next (suc (suc f)) acc (b',' ∷ s)
        ≡ (value f s >>= λ (w, rest). array_next f (push_item acc w) rest)
  unfolding value
  array_next_comma f acc s = refl

  object_loop_member :
      (f : ℕ) (acc : Fields) (k s : Bytes)
      → object_loop (suc f) acc (escape k ++ (b':' ∷ s))
        ≡ (value f s >>= λ (w, rest). object_next f (set_field k w acc) rest)
  unfolding value
  object_loop_member f acc k s =
      let plain : ws (escape k ++ (b':' ∷ s)) ≡ escape k ++ (b':' ∷ s) = unfold escape ws in refl in
      rw (plain, parse_str-escape k (b':' ∷ s))

  object_next_comma :
      (f : ℕ) (acc : Fields) (k s : Bytes)
      → object_next (suc (suc f)) acc (b',' ∷ (escape k ++ (b':' ∷ s)))
        ≡ (value f s >>= λ (w, rest). object_next f (set_field k w acc) rest)
  unfolding value
  object_next_comma f acc k s = object_loop_member f acc k s

  stops-items : (xs : Items) (rest : Bytes) → stops (dump_items false xs ++ (b']' ∷ rest)) ≡ true
  unfolding stops dump is_number_byte is_digit
  stops-items no_items rest = refl
  stops-items (item v xs) rest = refl

  stops-fields : (fs : Fields) (rest : Bytes) → stops (dump_fields false fs ++ (b'}' ∷ rest)) ≡ true
  unfolding stops dump is_number_byte is_digit
  stops-fields no_fields rest = refl
  stops-fields (field k v fs) rest = refl

  Reads-item : (v : Value) (xs : Items) → ReadsValue v → ReadsItems xs → ReadsItems (item v xs)
  unfolding dump is_portable
  Reads-item v xs ih ihs p acc rest zero h = absurd (omega arith)
  Reads-item v xs ih ihs p acc rest (suc zero) h = absurd (omega arith)
  Reads-item v xs ih ihs p acc rest (suc (suc f)) h =
      let longer = length-append {0} (dump v) (dump_items false xs) in
      let behind = dump_items false xs ++ (b']' ∷ rest) in
      let first = ih (ground arith) behind (stops-items xs rest) f (omega (arith, longer)) in
      let later = ihs (ground arith) (push_item acc v) rest f (omega (arith, longer)) in
      simp append_assoc (array_next_comma f acc (dump v ++ behind) ∙ rw first later)

  Reads-field :
      (k : Bytes) (v : Value) (fs : Fields)
      → ReadsValue v
      → ReadsFields fs
      → ReadsFields (field k v fs)
  unfolding dump is_portable
  Reads-field k v fs ih ihs p acc rest zero h = absurd (omega arith)
  Reads-field k v fs ih ihs p acc rest (suc zero) h = absurd (omega arith)
  Reads-field k v fs ih ihs p acc rest (suc (suc f)) h =
      let longer = length-append {0} (escape k) (b':' ∷ (dump v ++ dump_fields false fs)) in
      let longer' = length-append {0} (dump v) (dump_fields false fs) in
      let behind = dump_fields false fs ++ (b'}' ∷ rest) in
      let first =
        ih (ground arith) behind (stops-fields fs rest) f (omega (arith, longer, longer')) in
      let later = ihs (ground arith) (set_field k v acc) rest f (omega (arith, longer, longer')) in
      simp append_assoc (object_next_comma f acc k (dump v ++ behind) ∙ rw first later)

  Reads-num : (x : ℕ) → ReadsValue (num x)
  unfolding is_portable dump
  Reads-num x p rest k zero h = elim h [ ]
  Reads-num x p rest k (suc f) h =
      value-number (dump_num x) rest f (is_number_text-dump_num laws x p)
      ∙ number-dump_num laws x rest p k

  Reads-str : (s : Bytes) → ReadsValue (str s)
  unfolding dump value escape
  Reads-str s p rest k zero h = elim h [ ]
  Reads-str s p rest k (suc f) h = rw (parse_str-escape s rest)

  Reads-null : ReadsValue null
  unfolding dump value
  Reads-null p rest k zero h = elim h [ ]
  Reads-null p rest k (suc f) h = refl

  Reads-bool : (b : Bool) → ReadsValue (bool b)
  unfolding dump value
  Reads-bool b p rest k zero h = elim h [ ]
  Reads-bool true p rest k (suc f) h = refl
  Reads-bool false p rest k (suc f) h = refl

  value_bracket :
      (t : Bytes) (f : ℕ)
      → ws t ≡ t
      → starts b']' t ≡ false
      → value (suc f) (b'[' ∷ t)
        ≡ (array_next (suc f) no_items (b',' ∷ t) >>= λ (xs, rest). ok (arr xs, rest))
  unfolding value
  value_bracket t f p q = rw (p, q)

  value_brace :
      (t : Bytes) (f : ℕ)
      → ws t ≡ t
      → starts b'}' t ≡ false
      → value (suc f) (b'{' ∷ t)
        ≡ (object_next (suc f) no_fields (b',' ∷ t) >>= λ (fs, rest). ok (obj fs, rest))
  unfolding value
  value_brace t f p q = rw (p, q)

  -- The first member of an array is read as one behind a comma is.
  Reads-arr : (xs : Items) → ReadsItems xs → ReadsValue (arr xs)
  unfolding dump is_portable
  Reads-arr xs ih p rest k zero h = elim h [ ]
  Reads-arr no_items ih p rest k (suc f) h = unfold value in refl
  Reads-arr (item v xs) ih p rest k (suc f) h =
      let behind = dump_items false xs ++ (b']' ∷ rest) in
      let (spaced, closed, _) = Plain-dump v behind (ground arith) in
      let longer = length-append {0} (dump v ++ dump_items false xs) (b']' ∷ []) in
      let read = ih p no_items rest (suc f) (omega (arith, longer)) in
      let read' = simp (append_assoc, push_items_nil) at read in
      simp append_assoc (value_bracket (dump v ++ behind) f spaced closed ∙ rw read')

  Reads-obj : (fs : Fields) → ReadsFields fs → ReadsValue (obj fs)
  unfolding dump is_portable
  Reads-obj fs ih p rest k zero h = elim h [ ]
  Reads-obj no_fields ih p rest k (suc f) h = unfold value in refl
  Reads-obj (field j v fs) ih p rest k (suc f) h =
      let behind = b':' ∷ (dump v ++ (dump_fields false fs ++ (b'}' ∷ rest))) in
      let spaced : ws (escape j ++ behind) ≡ escape j ++ behind = unfold escape ws in refl in
      let closed : starts b'}' (escape j ++ behind) ≡ false = unfold escape starts in refl in
      let longer =
        length-append {0} (escape j ++ (b':' ∷ (dump v ++ dump_fields false fs))) (b'}' ∷ []) in
      let sorted = insert_fields-sorted (field j v fs) (ground arith) in
      let read = rw sorted at (ih (ground arith) no_fields rest (suc f) (omega (arith, longer))) in
      let read' = simp append_assoc at read in
      simp append_assoc (value_brace (escape j ++ behind) f spaced closed ∙ rw read')

  Reads-no_items : ReadsItems no_items
  unfolding dump value
  Reads-no_items p acc rest zero h = elim h [ ]
  Reads-no_items p acc rest (suc f) h = refl

  Reads-no_fields : ReadsFields no_fields
  unfolding dump value
  Reads-no_fields p acc rest zero h = elim h [ ]
  Reads-no_fields p acc rest (suc f) h = refl

  value-Reads : (v : Value) → ReadsValue v
  value-Reads v = elim v as ReadsValue ReadsItems ReadsFields [
    | num x ↦ Reads-num x
    | str s ↦ Reads-str s
    | arr (xs → ih) ↦ Reads-arr xs ih
    | obj (fs → ih) ↦ Reads-obj fs ih
    | null ↦ Reads-null
    | bool b ↦ Reads-bool b
    | no_items ↦ Reads-no_items
    | item (w → ih) (xs → ihs) ↦ Reads-item w xs ih ihs
    | no_fields ↦ Reads-no_fields
    | field k (w → ih) (fs → ihs) ↦ Reads-field k w fs ih ihs
  ]

  finish_cases :
      (v : Value) (b : Bool)
      → ◌≡◌ {A = Option Value} (accepted (if b then ok v else failed)) (if b then some v else none)
  finish_cases v true = refl
  finish_cases v false = refl

  parse_result-dump :
      (v : Value) (rest : Bytes)
      → is_portable v ≡ true
      → stops rest ≡ true
      → parse_result (dump v ++ rest) ≡ finish (v, rest)
  unfolding parse_result
  parse_result-dump v rest p k = rw (
      value-Reads v p rest k (3 * length (dump v ++ rest) + 3)
        (omega (arith, length-append {0} (dump v) rest)))

-- `parse` returns the value that a text was dumped from, for doubles that obey the laws and a value
-- whose maps are in order and whose numbers are finite and not -0.0.
pub parse-dump :
    ⦃fl : Floats⦄ (laws : Ieee fl) (v : Value) → is_portable v ≡ true → parse (dump v) ≡ some v
unfolding parse
parse-dump laws v p =
    let whole = rw append-nil at (parse_result-dump laws v [] p (unfold stops in refl)) in
    rw (whole, parse) (unfold finish is_empty ws in refl)

-- Behind a dumped value, `parse` allows nothing but white space, where the text that follows does
-- not go on with a number; the conditions on the value and the doubles are those of `parse-dump`.
pub parse-dump_append :
    ⦃fl : Floats⦄ (laws : Ieee fl) (v : Value) (rest : Bytes)
    → is_portable v ≡ true
    → stops rest ≡ true
    → parse (dump v ++ rest) ≡ (if is_empty (ws rest) then some v else none)
unfolding parse
parse-dump_append laws v rest p k =
    rw (parse_result-dump laws v rest p k, parse)
      (unfold finish in finish_cases laws v (is_empty (ws rest)))
