-- ===== src/Web/Guard.antt =====
-- The middlewares of the debug page: `src/debug_auth.py` and `src/debug_security.py`, in the order in
-- which `create_app` of `src/debug_routes.py` adds them. The handler behind them is a parameter that
-- may change a state and may raise, which is `none`; so is the decoding of base64 and UTF-8, which may
-- fail, and the content of a response with a text.
use svc_lb_mux.Prelude.{
  ℕ, Bool, true, false, not, ◌&&◌, Option, none, some, [], ◌∷◌, ltb, ite, if◌then◌else◌, Str, codes,
  Str-discrete, after_prefix, partition, is_empty,
}
use svc_lb_mux.Prelude.Dict.{Dict, setdefault}

-- A request, as the middlewares read it.
pub record WebRequest : Type 0 where
  pub path : Str
  pub authorization : Option Str

pub record WebResponse (Content : Type 0) : Type 0 where
  pub content : Content
  pub status_code : ℕ
  pub headers : Dict Str Str

abbrev pub is_ascii : Str → Bool
is_ascii [] = true
is_ascii (c ∷ s) = let rest = is_ascii s in if ltb c 128 then rest else false

-- `hmac.compare_digest` on texts, which raises where one is not ASCII; `check_auth` takes this for no.
abbrev pub compare_digest : Str → Str → Bool
compare_digest a b = is_ascii a && is_ascii b && ite (Str-discrete a b) true false

-- `request.headers.get("Authorization", "")`
abbrev pub header_of : Option Str → Str
header_of none = []
header_of (some s) = s

module _ (auth_token : Str) where
  -- `AUTH_ENABLED`
  abbrev pub auth_enabled : Bool
  auth_enabled = not (is_empty auth_token)

  -- the password behind the first colon
  abbrev pub is_password : Option (Str × Str) → Bool
  is_password none = false
  is_password (some (_, password)) = compare_digest password auth_token

  abbrev pub are_credentials : Option Str → Bool
  are_credentials none = false
  are_credentials (some credentials) = is_password (partition (b':' ∷ []) credentials)

module _ (auth_token : Str) (b64decode : Str → Option Str) where
  abbrev pub is_basic : Option Str → Bool
  is_basic none = false
  is_basic (some encoded) = are_credentials auth_token (b64decode encoded)

  -- `check_auth`
  unfoldable pub check_auth : WebRequest → Bool
  check_auth request =
      if auth_enabled auth_token
      then is_basic (after_prefix (codes "Basic ") (header_of request.authorization))
      else true

module _ {S Content : Type 0} (text_content : Str → Content) (auth_token : Str)
    (b64decode : Str → Option Str)
    (call_next : WebRequest → S → Option (WebResponse Content) × S) where
  abbrev pub unauthorized : WebResponse Content
  unauthorized = record {
    content = text_content (codes "Unauthorized - authentication required");
    status_code = 401;
    headers =
        (
          codes "WWW-Authenticate",
          codes "Basic realm=\"Service LoadBalancer Multiplexer Debug UI\"",
        )
        ∷ [];
  }

  -- `auth_middleware`
  unfoldable pub auth_middleware : WebRequest → S → Option (WebResponse Content) × S
  unfolding check_auth
  auth_middleware request state =
      if ite (Str-discrete request.path (codes "/healthz")) true false
      then call_next request state
      else if check_auth auth_token b64decode request
      then call_next request state
      else (some unauthorized, state)

-- `SECURITY_HEADERS`
abbrev pub security_headers : Dict Str Str
security_headers =
    (codes "Cache-Control", codes "no-store")
    ∷ (codes "Referrer-Policy", codes "no-referrer")
    ∷ (codes "X-Content-Type-Options", codes "nosniff")
    ∷ (codes "X-Frame-Options", codes "DENY")
    ∷ (codes "Permissions-Policy", codes "camera=(), geolocation=(), microphone=()")
    ∷ []

-- the loop of `security_middleware`
unfoldable pub set_headers : Dict Str Str → Dict Str Str → Dict Str Str
set_headers headers [] = headers
set_headers headers ((name, value) ∷ defaults) =
    set_headers (setdefault Str-discrete headers name value) defaults

module _ {S Content : Type 0} (call_next : WebRequest → S → Option (WebResponse Content) × S) where
  abbrev pub with_headers : Option (WebResponse Content) × S → Option (WebResponse Content) × S
  with_headers (none, after) = (none, after)
  with_headers (some response, after) =
      (some (record response { headers = set_headers response.headers security_headers }), after)

  -- `security_middleware`; an exception of what it calls passes through it
  unfoldable pub security_middleware : WebRequest → S → Option (WebResponse Content) × S
  unfolding set_headers
  security_middleware request state = with_headers (call_next request state)

-- `create_app`: the middleware that is added last runs first.
unfoldable pub serve :
    {S Content : Type 0}
    → (Str → Content)
    → Str
    → (Str → Option Str)
    → (WebRequest → S → Option (WebResponse Content) × S)
    → WebRequest
    → S
    → Option (WebResponse Content) × S
unfolding auth_middleware security_middleware
serve text_content auth_token b64decode handle =
    security_middleware (auth_middleware text_content auth_token b64decode handle)
