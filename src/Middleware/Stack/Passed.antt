-- ===== src/Middleware/Stack/Passed.antt =====
-- Which requests the stack of cmd/server.go passes to their handler, and how each ends.
use syndi.Common.{
  ◌≡◌, ◌≢◌, refl, ◌⊎◌, inl, inr, [], Text, codes, ℤ, text_eq, text_eq_iff, Bool-cases, arith,
}
use syndi.Middleware.AccessKey.{Gate, abort, access_key, access_key-next_iff, access_key-cases}
use syndi.Middleware.Stack.{
  Request, Gin, Outcome, returned, panicked, Handler, recovered, recovery, started, logged, logger,
  access_gate, preflight, prepared, origin_or_any, header, with_middleware,
}

-- A request that needs no key, or has it: in its parameter, or in its header if the parameter is
-- absent or empty.
abbrev pub IsAdmitted : Text → Request → Type 0
IsAdmitted key r =
    (key ≡ [])
    ⊎ (r.path ≡ codes "/status")
    ⊎ (r.query_key ≡ key)
    ⊎ ((r.query_key ≡ []) × (r.header_key ≡ key))

access_key-Gate :
    (key : Text) (r : Request)
    → (IsAdmitted key r × (access_key key r.path r.query_key r.header_key ≡ Gate.next))
      ⊎ ((¬ IsAdmitted key r)
          × (access_key key r.path r.query_key r.header_key
              ≡ abort (codes "invalid or missing access key")))
access_key-Gate key r =
    let iff = access_key-next_iff key r.path r.query_key r.header_key in
    elim (access_key-cases key r.path r.query_key r.header_key) [
      | inl e ↦ inl (iff.0 e, e)
      | inr e ↦ inr (λ h. absurd (cc (e, iff.1 h)), e)
    ]

module _ {C : Type 0} (gin : Gin C) (key : Text) (cache_ttl : ℤ) (allow_origin : Text) (r : Request)
    (handler : Handler C) (c : C) where
  -- The context that the handler is called with.
  abbrev pub handed : C
  handed = prepared gin r cache_ttl (origin_or_any allow_origin) (started gin r c)

  -- How a request can end, by the context after it.
  pub data Served : C → Type 0 where
    refused :
        (¬ IsAdmitted key r)
        → Served (
            logged gin r
              (gin.abort_with_error 401 (codes "invalid or missing access key") (started gin r c)))
    allowed :
        IsAdmitted key r
        → r.method ≡ codes "OPTIONS"
        → Served (logged gin r (preflight gin r (origin_or_any allow_origin) (started gin r c)))
    answered :
        (after : C)
        → IsAdmitted key r
        → r.method ≢ codes "OPTIONS"
        → handler handed ≡ returned after
        → Served (logged gin r after)
    failed :
        (value : Text) (after : C)
        → IsAdmitted key r
        → r.method ≢ codes "OPTIONS"
        → handler handed ≡ panicked value after
        → Served (recovered gin r value after)

  Outcome-cases :
      (o : Outcome C)
      → ((after : C) × (o ≡ returned after))
        ⊎ ((value : Text) × (after : C) × (o ≡ panicked value after))
  Outcome-cases (returned after) = inl (after, refl)
  Outcome-cases (panicked value after) = inr (value, after, refl)

  -- A request always ends with a context. One that is not admitted is logged with the answer 401, and
  -- its handler is not called. An admitted preflight is logged with the answer 204, its handler not
  -- called either. Another admitted request is handed to its handler, and then logged if the handler
  -- returns, or answered 500 and logged as a panic alone if it panics.
  pub with_middleware-Served :
      (after : C) × (with_middleware gin r key cache_ttl allow_origin handler c ≡ returned after)
      × Served after
  unfolding with_middleware recovery logger access_gate header
  with_middleware-Served = elim (access_key-Gate key r) [
    | inr (no_key, e) ↦ (_, ground (arith, e), refused no_key)
    | inl (key_given, e) ↦ elim (Bool-cases (text_eq r.method (codes "OPTIONS"))) [
      | inl m ↦ (_, ground (arith, e, m), allowed key_given ((text_eq_iff _ _).0 m))
      | inr m ↦
          let other : r.method ≢ codes "OPTIONS" =
            λ h. absurd (cc (m, (text_eq_iff r.method (codes "OPTIONS")).1 h)) in
          elim (Outcome-cases (handler handed)) [
            | inl (after, h) ↦ (_, ground (arith, e, m, h), answered after key_given other h)
            | inr (value, after, h) ↦
                (_, ground (arith, e, m, h), failed value after key_given other h)
          ]
    ]
  ]
