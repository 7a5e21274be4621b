-- ===== src/Ipc/Server/Responses.antt =====
-- What the loop of `run` answers to one message.
use arcade_launcher_stream_e.Base.{
  ℕ, codes, Bool, true, false, ◌&&◌, [], if◌then◌else◌, none, some, ◌≡◌, ◌↔◌, sym, ◌∙◌, inl, inr,
  arith, Bool-cases, bytes_eq, is_empty, pos, bytes_lt, subst, Bytes, ◌⊎◌, Option, ◌∷◌, ◌++◌,
  bytes_eq_iff, refl,
}
use arcade_launcher_stream_e.Json.{
  Value, bool, str, find, set, set_field, find_field, get_str, get_num, is_object,
}
use arcade_launcher_stream_e.Json.Floats.{Floats}
use arcade_launcher_stream_e.Ipc.Server.{
  Reply, Handlers, response, process, dispatch, find_handler, number_of, params_of, empty_object,
  Handler, obj, no_fields,
}

-- The object under "error".
abbrev pub error_object : Reply → Value
error_object reply =
    set (set empty_object (codes "code") (str reply.code)) (codes "message") (str reply.message)

-- A `res` frame that carries the id, and a result or an error, never both.
pub record Answers ⦃fl : Floats⦄ (id : ℕ) (reply : Reply) (res : Value) : Type 0 where
  pub kind : find res (codes "kind") ≡ some (str (codes "res"))
  pub id_echoed : find res (codes "id") ≡ some (number_of id)
  pub ok : find res (codes "ok") ≡ some (bool (is_empty reply.code))
  pub result : find res (codes "result") ≡ (if is_empty reply.code then some reply.result else none)
  pub error :
      find res (codes "error") ≡ (if is_empty reply.code then none else some (error_object reply))

response-Answers : ⦃fl : Floats⦄ (id : ℕ) (reply : Reply) → Answers id reply (response id reply)
unfolding response find set set_field find_field bytes_eq bytes_lt
response-Answers id reply = elim (Bool-cases (is_empty reply.code)) [
  | inl e ↦ record { kind = rw e; id_echoed = rw e; ok = rw e; result = rw e; error = rw e }
  | inr e ↦ record { kind = rw e; id_echoed = rw e; ok = rw e; result = rw e; error = rw e }
]

-- A message that `run` must answer.
unfoldable pub is_request : Value → Bool
is_request msg = is_object msg && bytes_eq (get_str msg (codes "kind") []) (codes "req")

-- The id of a request, as `run` reads it.
unfoldable pub request_id : ⦃fl : Floats⦄ → Value → ℕ
request_id ⦃fl⦄ msg = fl.to_u64 (get_num msg (codes "id") (fl.of_ℤ (pos 0)))

-- The reply to a request: its handler's, on the request's parameters, or the error for a method
-- that has none.
unfoldable pub reply_to : {S : Type 0} → Handlers S → Value → S → Reply × S
reply_to hs msg s =
    let method = get_str msg (codes "method") [] in
    dispatch (find_handler hs method) method (params_of (find msg (codes "params"))) s

-- Which handler is registered under a method: the one of the first entry with that name, or none.
pub data Registered {S : Type 0} (method : Bytes) : Handlers S → Option (Handler S) → Type 0 where
  none_left :
      {hs : Handlers S} {o : Option (Handler S)} → hs ≡ [] → o ≡ none → Registered method hs o
  first :
      {hs : Handlers S} {o : Option (Handler S)} (key : Bytes) (h : Handler S) (rest : Handlers S)
      → hs ≡ (key, h) ∷ rest
      → key ≡ method
      → o ≡ some h
      → Registered method hs o
  later :
      {hs : Handlers S} {o : Option (Handler S)} (key : Bytes) (h : Handler S) (rest : Handlers S)
      → hs ≡ (key, h) ∷ rest
      → ¬ (key ≡ method)
      → Registered method rest o
      → Registered method hs o

-- The parameters: what the message has under "params", or the empty object.
pub Parameters : Value → Value → Type 0
Parameters msg params =
    (find msg (codes "params") ≡ some params)
    ⊎ ((find msg (codes "params") ≡ none) × (params ≡ obj no_fields))

pub data Replies {S : Type 0} (hs : Handlers S) (msg : Value) (s : S) (reply : Reply) (s' : S)
    : Type 0 where
  handled :
      (h : Handler S) (params : Value)
      → Registered (get_str msg (codes "method") []) hs (some h)
      → Parameters msg params
      → (reply, s') ≡ h params s
      → Replies hs msg s reply s'
  unsupported :
      Registered (get_str msg (codes "method") []) hs none
      → reply.code ≡ codes "unsupported_method"
      → reply.message ≡ codes "unknown method: " ++ get_str msg (codes "method") []
      → s' ≡ s
      → Replies hs msg s reply s'

find_handler-Registered :
    {S : Type 0} (hs : Handlers S) (method : Bytes) → Registered method hs (find_handler hs method)
unfolding find_handler
find_handler-Registered [] method = none_left refl refl
find_handler-Registered ((key, h) ∷ hs) method = elim (Bool-cases (bytes_eq key method)) [
  | inl e ↦ first key h hs refl ((bytes_eq_iff key method).0 e) (rw e refl)
  | inr e ↦
      let other : ¬ (key ≡ method) = λ same. cc ((bytes_eq_iff key method).1 same, e) in
      later key h hs refl other (rw e (find_handler-Registered hs method))
]

params_of-Parameters : (msg : Value) → Parameters msg (params_of (find msg (codes "params")))
unfolding Parameters
params_of-Parameters msg = from (find msg (codes "params"))
  where
    from :
        (o : Option Value) → (o ≡ some (params_of o)) ⊎ ((o ≡ none) × (params_of o ≡ obj no_fields))
    from none = inr (refl, refl)
    from (some v) = inl refl

reply_to-Replies :
    {S : Type 0} (hs : Handlers S) (msg : Value) (s : S)
    → Replies hs msg s (reply_to hs msg s).0 (reply_to hs msg s).1
unfolding reply_to
reply_to-Replies {S} hs msg s = from (find_handler hs method) (find_handler-Registered hs method)
  where
    method : Bytes
    method = get_str msg (codes "method") []

    params : Value
    params = params_of (find msg (codes "params"))

    from :
        (o : Option (Handler S))
        → Registered method hs o
        → Replies hs msg s (dispatch o method params s).0 (dispatch o method params s).1
    from none r = unfold dispatch in unsupported r refl refl refl
    from (some h) r = unfold dispatch in handled h params r (params_of-Parameters msg) refl

module _ ⦃fl : Floats⦄ {S : Type 0} (hs : Handlers S) where
  pub process_request :
      (msg : Value) (s : S)
      → is_request msg ≡ true
      → process hs (some msg) s
        ≡ (some (response (request_id msg) (reply_to hs msg s).0), (reply_to hs msg s).1)
  unfolding process is_request request_id reply_to
  process_request msg s h = ground arith

  process_other :
      (msg : Value) (s : S) → is_request msg ≡ false → process hs (some msg) s ≡ (none, s)
  unfolding process is_request
  process_other msg s h = ground arith

  process-reply_to :
      (msg res : Value) (s s' : S)
      → process hs (some msg) s ≡ (some res, s')
      → (is_request msg ≡ true)
        × Answers (request_id msg) (reply_to hs msg s).0 res
        × (s' ≡ (reply_to hs msg s).1)
  process-reply_to msg res s s' h = elim (Bool-cases (is_request msg)) [
    | inl e ↦
        let made = sym (process_request msg s e) ∙ h in
        (
          e,
          subst (Answers (request_id msg) (reply_to hs msg s).0) (cc made)
              (response-Answers (request_id msg) (reply_to hs msg s).0),
          cc made,
        )
    | inr e ↦ absurd (cc (process_other msg s e, h))
  ]

  -- A message that gets an answer is a request. Its reply is what the handler that is registered
  -- under its method makes of its parameters, or of the empty object where it has none, with the
  -- state that the handler leaves; or the error "unsupported_method" that names the method, with the
  -- state as it was, where no handler is registered under it. The answer carries the id and the reply.
  pub process-Answers :
      (msg res : Value) (s s' : S)
      → process hs (some msg) s ≡ (some res, s')
      → (is_request msg ≡ true)
        × ((reply : Reply) × Replies hs msg s reply s' × Answers (request_id msg) reply res)
  process-Answers msg res s s' h =
      let (asked, answers, left) = process-reply_to msg res s s' h in
      (asked, ((reply_to hs msg s).0, rw left (reply_to-Replies hs msg s), answers))

  -- A JSON message gets no answer exactly when it is no request, and then the state stays.
  pub process-none_iff :
      (msg : Value) (s s' : S)
      → (process hs (some msg) s ≡ (none, s')) ↔ ((is_request msg ≡ false) × (s' ≡ s))
  process-none_iff msg s s' = elim (Bool-cases (is_request msg)) [
    | inl e ↦ (λ h. cc (process_request msg s e, h), λ h. cc (e, h.0))
    | inr e ↦ (λ h. (e, cc (process_other msg s e, h)), λ h. process_other msg s e ∙ cc (h.1))
  ]
