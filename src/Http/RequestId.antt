-- ===== src/Http/RequestId.antt =====
-- About `request_context` and the exception handlers of app/main.py: the correlation id of an answer.
use Prim.Native.String.{count, ◌++◌ as str_append}
use text.Mathlib.TextLemmas.{nil-append, cons-append, length-append}
use lead_generation_api_zyla.Prelude.{
  String, true, ◌≡◌, refl, find, some, ◌==◌, ◌⊎◌, eqb, Bool-cases, inl, inr, arith,
}
use lead_generation_api_zyla.Errors.{
  app, authentication, authorization, provider_request, provider_configuration, value_error,
  rate_limit_exceeded, idempotency_conflict, idempotency_in_progress, response_error, unexpected,
}
use lead_generation_api_zyla.Env.{Env}
use lead_generation_api_zyla.Http.{
  are_id_chars, is_request_id, request_id_of, Failure, raised, validation, http_exception, handle,
  is_outer, failed_request,
}

are_id_chars-append :
    (s t : String)
    → are_id_chars s ≡ true
    → are_id_chars t ≡ true
    → are_id_chars (str_append s t) ≡ true
unfolding are_id_chars
are_id_chars-append String.[] t hs ht = rw (nil-append t) ht
are_id_chars-append (String.◌∷◌ c s) t hs ht =
    rw (cons-append c s t) (ground (arith, are_id_chars-append s t))

generated :
    (hex : String)
    → are_id_chars hex ≡ true
    → count hex ≡ 32
    → is_request_id (str_append "req_" hex) ≡ true
unfolding are_id_chars
generated hex h n =
    let chars = are_id_chars-append "req_" hex refl h in
    let size : count (str_append "req_" hex) ≡ 36 = omega (arith, length-append "req_" hex) in
    rw (chars, size) refl

request_id_of-safe :
    (hex supplied : String)
    → are_id_chars hex ≡ true
    → count hex ≡ 32
    → is_request_id (request_id_of hex supplied) ≡ true
request_id_of-safe hex supplied h n = elim (Bool-cases (is_request_id supplied)) [
  | inl e ↦ rw (e, e) refl
  | inr e ↦ rw e (generated hex h n)
]

-- what every answer to a failure has
pub record CarriesId (env : Env) (hex supplied : String) (failure : Failure) : Type 0 where
  pub in_body : is_request_id (failed_request env hex supplied failure).body.request_id ≡ true
  pub in_header :
      (find (λ h. h.0 == "X-Request-Id") (failed_request env hex supplied failure).headers
        ≡ some ("X-Request-Id", (failed_request env hex supplied failure).body.request_id))
      ⊎ (is_outer failure ≡ true)

module _ (env : Env) (hex supplied : String) (h : are_id_chars hex ≡ true)
    (n : count hex ≡ 32) where
  -- Whatever `X-Request-Id` a client sends and however its request fails, where the uuid drawn is 32 id
  -- characters: the body of the answer has an id of 1 to 128 letters, digits, dots, dashes and
  -- underscores, and so has, as the same, the header of that name, unless the exception is one that no
  -- handler but that of Exception takes.
  pub failures-CarriesId : (failure : Failure) → CarriesId env hex supplied failure
  unfolding failed_request handle
  failures-CarriesId (raised (app e)) = record {
    in_body = request_id_of-safe hex supplied h n;
    in_header = inl refl;
  }
  failures-CarriesId (raised (authentication m)) = record {
    in_body = request_id_of-safe hex supplied h n;
    in_header = inl refl;
  }
  failures-CarriesId (raised (authorization m)) = record {
    in_body = request_id_of-safe hex supplied h n;
    in_header = inl refl;
  }
  failures-CarriesId (raised (provider_request m)) = record {
    in_body = request_id_of-safe hex supplied h n;
    in_header = inl refl;
  }
  failures-CarriesId (validation fields) = record {
    in_body = request_id_of-safe hex supplied h n;
    in_header = inl refl;
  }
  failures-CarriesId (raised (provider_configuration m)) = record {
    in_body = request_id_of-safe hex supplied h n;
    in_header = inr refl;
  }
  failures-CarriesId (raised (value_error m)) = record {
    in_body = request_id_of-safe hex supplied h n;
    in_header = inr refl;
  }
  failures-CarriesId (raised (rate_limit_exceeded k)) = record {
    in_body = request_id_of-safe hex supplied h n;
    in_header = inr refl;
  }
  failures-CarriesId (raised idempotency_conflict) = record {
    in_body = request_id_of-safe hex supplied h n;
    in_header = inr refl;
  }
  failures-CarriesId (raised idempotency_in_progress) = record {
    in_body = request_id_of-safe hex supplied h n;
    in_header = inr refl;
  }
  failures-CarriesId (raised (response_error m)) = record {
    in_body = request_id_of-safe hex supplied h n;
    in_header = inr refl;
  }
  failures-CarriesId (raised (unexpected m)) = record {
    in_body = request_id_of-safe hex supplied h n;
    in_header = inr refl;
  }
  failures-CarriesId (http_exception status detail) = elim (Bool-cases (eqb status 401)) [
    | inl e ↦ record { in_body = request_id_of-safe hex supplied h n; in_header = rw e (inl refl) }
    | inr e ↦ record { in_body = request_id_of-safe hex supplied h n; in_header = rw e (inl refl) }
  ]
