-- ===== src/Web/GuardLaws.antt =====
-- What the middlewares of the debug page let through.
use svc_lb_mux.Prelude.{
  Bool, true, false, not, ◌&&◌, Option, none, some, [], ◌∷◌, ite, if_pos, if_neg, subst,
  if◌then◌else◌, Str, codes, Str-discrete, after_prefix, partition, is_empty, ◌≡◌, ◌≢◌, ◌⊎◌, refl,
  ap, ◌∙◌, inl, inr,
}
use svc_lb_mux.Prelude.Dict.{Dict, get, setdefault}
use svc_lb_mux.Prelude.Dict.Laws.{get-setdefault}
use svc_lb_mux.Web.Guard.{
  WebRequest, WebResponse, is_ascii, compare_digest, is_password, are_credentials, is_basic,
  header_of, check_auth, unauthorized, auth_middleware, security_headers, set_headers,
  security_middleware, serve, with_headers,
}

-- The value that counts: the first one, or else the second one.
abbrev pub or_default : Option Str → Option Str → Option Str
or_default none default = default
or_default (some value) default = some value

-- A header that the response does not have gets the first default of its name.
get-set_headers :
    (headers defaults : Dict Str Str) (name : Str)
    → get Str-discrete (set_headers headers defaults) name
      ≡ or_default (get Str-discrete headers name) (get Str-discrete defaults name)
unfolding set_headers get
get-set_headers headers [] name = by_value (get Str-discrete headers name)
  where
    by_value : (o : Option Str) → o ≡ or_default o none
    by_value none = refl
    by_value (some v) = refl
get-set_headers headers ((n, v) ∷ defaults) name =
    get-set_headers (setdefault Str-discrete headers n v) defaults name
    ∙ rw (get-setdefault Str-discrete headers n v name) (
        by_value (get Str-discrete headers name) (Str-discrete n name)
          (get Str-discrete defaults name))
  where
    by_value :
        (o : Option Str) (d : Dec (n ≡ name)) (later : Option Str)
        → or_default (elim o [ none ↦ ite d (some v) none | some w ↦ some w ]) later
          ≡ or_default o (ite d (some v) later)
    by_value none (yes e) later = refl
    by_value none (no ne) later = refl
    by_value (some w) d later = refl

module _ (auth_token : Str) (b64decode : Str → Option Str) where
  -- The request carries the token as the password of its Basic credentials.
  abbrev pub HasToken : WebRequest → Type 0
  HasToken request =
      (encoded : Str) × (credentials : Str) × (user : Str) × (after_prefix (codes "Basic ")
          (header_of request.authorization)
        ≡ some encoded)
      × (b64decode encoded ≡ some credentials)
      × (partition (b':' ∷ []) credentials ≡ some (user, auth_token))

  digest-eq : (a b : Str) → compare_digest a b ≡ true → a ≡ b
  digest-eq a b h = by_tests (is_ascii a) (is_ascii b) (Str-discrete a b) h
    where
      by_tests : (p q : Bool) (d : Dec (a ≡ b)) → (p && q && ite d true false) ≡ true → a ≡ b
      by_tests true true (yes e) h = e
      by_tests true true (no ne) h = cc
      by_tests true false d h = cc
      by_tests false q d h = cc

  digest_refl : (a : Str) → is_ascii a ≡ true → compare_digest a a ≡ true
  digest_refl a h = rw (h, if_pos (Str-discrete a a) refl true false)

  digest_ascii : (a b : Str) → compare_digest a b ≡ true → is_ascii b ≡ true
  digest_ascii a b h = by_tests (is_ascii a) (is_ascii b) h
    where
      by_tests : (p q : Bool) → (p && q && ite (Str-discrete a b) true false) ≡ true → q ≡ true
      by_tests true true h = refl
      by_tests true false h = cc
      by_tests false q h = cc

  basic-HasToken :
      (request : WebRequest) (header : Option Str)
      → after_prefix (codes "Basic ") (header_of request.authorization) ≡ header
      → is_basic auth_token b64decode header ≡ true
      → HasToken request × (is_ascii auth_token ≡ true)
  basic-HasToken request none found h = cc
  basic-HasToken request (some encoded) found h = by_text (b64decode encoded) refl h
    where
      by_halves :
          (credentials : Str) (halves : Option (Str × Str))
          → b64decode encoded ≡ some credentials
          → partition (b':' ∷ []) credentials ≡ halves
          → is_password auth_token halves ≡ true
          → HasToken request × (is_ascii auth_token ≡ true)
      by_halves credentials none decoded parts h = cc
      by_halves credentials (some (user, password)) decoded parts h = (
        (
          encoded,
          credentials,
          user,
          found,
          decoded,
          parts ∙ ap (λ p. some (user, p)) (digest-eq password auth_token h),
        ),
        digest_ascii password auth_token h,
      )

      by_text :
          (o : Option Str)
          → b64decode encoded ≡ o
          → are_credentials auth_token o ≡ true
          → HasToken request × (is_ascii auth_token ≡ true)
      by_text none decoded h = cc
      by_text (some credentials) decoded h =
          by_halves credentials (partition (b':' ∷ []) credentials) decoded refl h

  HasToken-check_auth :
      (request : WebRequest)
      → is_ascii auth_token ≡ true
      → HasToken request
      → check_auth auth_token b64decode request ≡ true
  unfolding check_auth
  HasToken-check_auth request ascii (encoded, credentials, user, found, decoded, parts) =
      by_token (is_empty auth_token)
    where
      basic :
          is_basic auth_token b64decode
            (after_prefix (codes "Basic ") (header_of request.authorization))
          ≡ true
      basic =
          ap (is_basic auth_token b64decode) found
          ∙ ap (are_credentials auth_token) decoded
          ∙ ap (is_password auth_token) parts
          ∙ digest_refl auth_token ascii

      by_token :
          (b : Bool)
          → (if not b
              then is_basic auth_token b64decode
                  (after_prefix (codes "Basic ") (header_of request.authorization))
              else true)
            ≡ true
      by_token true = refl
      by_token false = basic

-- The headers that the server promises, with their values.
abbrev pub promised_headers : Dict Str Str
promised_headers =
    (codes "Cache-Control", codes "no-store")
    ∷ (codes "Referrer-Policy", codes "no-referrer")
    ∷ (codes "X-Content-Type-Options", codes "nosniff")
    ∷ (codes "X-Frame-Options", codes "DENY")
    ∷ (codes "Permissions-Policy", codes "camera=(), geolocation=(), microphone=()")
    ∷ []

-- The response to a request without the token.
abbrev pub refusal : {Content : Type 0} → (Str → Content) → WebResponse Content
refusal text_content = record {
  content = text_content (codes "Unauthorized - authentication required");
  status_code = 401;
  headers =
      (codes "WWW-Authenticate", codes "Basic realm=\"Service LoadBalancer Multiplexer Debug UI\"")
      ∷ [];
}

module _ {S Content : Type 0} where
  -- What is served stands for an outcome: an exception passes; a response keeps its content and its
  -- status, and under the name of each header it keeps its value, or else has the promised one.
  abbrev pub StandsFor :
      Option (WebResponse Content) × S → Option (WebResponse Content) × S → Type 0
  StandsFor (none, after) (served, after') = (served ≡ none) × (after' ≡ after)
  StandsFor (some response, after) (served, after') =
      ((r : WebResponse Content) × (served ≡ some r)
        × (r.content ≡ response.content)
        × (r.status_code ≡ response.status_code)
        × ((name : Str)
            → get Str-discrete r.headers name
              ≡ or_default (get Str-discrete response.headers name)
                  (get Str-discrete promised_headers name)))
      × (after' ≡ after)

  with_headers-StandsFor :
      (call_next : WebRequest → S → Option (WebResponse Content) × S)
      (outcome : Option (WebResponse Content) × S)
      → StandsFor outcome (with_headers call_next outcome)
  with_headers-StandsFor call_next (none, after) = (refl, refl)
  with_headers-StandsFor call_next (some response, after) = (
    (
      record response { headers = set_headers response.headers security_headers },
      refl,
      refl,
      refl,
      get-set_headers response.headers security_headers,
    ),
    refl,
  )

module _ {S Content : Type 0} (text_content : Str → Content) (auth_token : Str)
    (b64decode : Str → Option Str) (handle : WebRequest → S → Option (WebResponse Content) × S)
    (request : WebRequest) (state : S) where
  -- The handler may answer the request: it is for the health check, no token is configured, or it
  -- carries the token, which is ASCII.
  abbrev pub IsAllowed : Type 0
  IsAllowed =
      (request.path ≡ codes "/healthz")
      ⊎ (is_empty auth_token ≡ true)
      ⊎ HasToken auth_token b64decode request × (is_ascii auth_token ≡ true)

  -- How a request is served.
  abbrev pub IsGuarded : Option (WebResponse Content) × S → Type 0
  IsGuarded served =
      (IsAllowed → StandsFor (handle request state) served)
      × (request.path ≢ codes "/healthz"
          → is_empty auth_token ≡ false
          → HasToken auth_token b64decode request × (is_ascii auth_token ≡ true)
            ⊎ StandsFor (some (refusal text_content), state) served)

  allowed-check_auth :
      request.path ≢ codes "/healthz" → IsAllowed → check_auth auth_token b64decode request ≡ true
  unfolding check_auth
  allowed-check_auth ne (inl health) = absurd (ne health)
  allowed-check_auth ne (inr (inl open_page)) = rw open_page refl
  allowed-check_auth ne (inr (inr (has_token, ascii))) =
      unfold check_auth in HasToken-check_auth auth_token b64decode request ascii has_token

  auth_middleware-IsAllowed :
      IsAllowed
      → auth_middleware text_content auth_token b64decode handle request state
        ≡ handle request state
  unfolding auth_middleware
  auth_middleware-IsAllowed allowed = by_path (Str-discrete request.path (codes "/healthz"))
    where
      by_path :
          (d : Dec (request.path ≡ codes "/healthz"))
          → (if ite d true false
              then handle request state
              else if check_auth auth_token b64decode request
              then handle request state
              else (some (unauthorized text_content auth_token b64decode handle), state))
            ≡ handle request state
      by_path (yes e) = refl
      by_path (no ne) = rw (allowed-check_auth ne allowed) refl

  auth_middleware-HasToken :
      request.path ≢ codes "/healthz"
      → is_empty auth_token ≡ false
      → HasToken auth_token b64decode request × (is_ascii auth_token ≡ true)
        ⊎ (auth_middleware text_content auth_token b64decode handle request state
            ≡ (some (refusal text_content), state))
  unfolding auth_middleware check_auth
  auth_middleware-HasToken ne enabled = by_check (check_auth auth_token b64decode request) refl
    where
      by_check :
          (checked : Bool)
          → check_auth auth_token b64decode request ≡ checked
          → HasToken auth_token b64decode request × (is_ascii auth_token ≡ true)
            ⊎ ((if ite (Str-discrete request.path (codes "/healthz")) true false
                  then handle request state
                  else if checked
                  then handle request state
                  else (some (unauthorized text_content auth_token b64decode handle), state))
                ≡ (some (refusal text_content), state))
      by_check true h = inl (
          basic-HasToken auth_token b64decode request
            (after_prefix (codes "Basic ") (header_of request.authorization)) refl
            (rw enabled at h))
      by_check false h =
          inr (rw (if_neg (Str-discrete request.path (codes "/healthz")) ne true false) refl)

-- A request for the health check, or without a configured token, or with the token, which is ASCII, as
-- the password of Basic credentials, is answered as the handler answers it: with its content, its
-- status, its headers, and the promised values of the security headers that it has not set; what the
-- handler raises passes, without a response. Any other request is answered with the refusal 401 and
-- the security headers, and the handler does not run.
pub serve-IsGuarded :
    {S Content : Type 0} (text_content : Str → Content) (auth_token : Str)
    (b64decode : Str → Option Str) (handle : WebRequest → S → Option (WebResponse Content) × S)
    (request : WebRequest) (state : S)
    → IsGuarded text_content auth_token b64decode handle request state
        (serve text_content auth_token b64decode handle request state)
unfolding serve security_middleware
serve-IsGuarded text_content auth_token b64decode handle request state =
    let inner = auth_middleware text_content auth_token b64decode handle in
    let stands = with_headers-StandsFor inner (inner request state) in
    (
      λ allowed.
          subst (λ o. StandsFor o (with_headers inner (inner request state)))
            (auth_middleware-IsAllowed text_content auth_token b64decode handle request state
              allowed)
            stands,
      λ ne enabled.
          elim (auth_middleware-HasToken text_content auth_token b64decode handle request state ne
            enabled) [
              | inl has_token ↦ inl has_token
              | inr refused ↦ inr (
                  subst (λ o. StandsFor o (with_headers inner (inner request state))) refused
                    stands)
            ],
    )
