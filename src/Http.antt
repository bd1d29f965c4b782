-- ===== src/Http.antt =====
-- shared/httpx/errors.go, and what the source uses of the gin framework: the request, the values
-- that the middleware sets on the context, and the response. A middleware takes the rest of the
-- chain, which `c.Next()` runs, as its argument; one that aborts does not call it.
pub mod Keeping
use chain_pulse.Prelude.{
  ℕ, ◌≡◌, ap, String, Bool, List, [], Option, none, some, ◌==◌, if◌then◌else◌,
}
use chain_pulse.Identity.{Identity}
use chain_pulse.Scope.{Scope}

-- The values that encoding/json is given: structs and gin.H, with their tags.
mutual
  pub data Json : Type 0 where
    null : Json
    text : String → Json
    number : ℕ → Json
    boolean : Bool → Json
    object : Fields → Json
    array : Items → Json

  pub data Fields : Type 0 where
    end : Fields
    field : String → Json → Fields → Fields

  pub data Items : Type 0 where
    nil : Items
    cons : Json → Items → Items

-- The tag `omitempty` on a string.
abbrev pub omit_empty : String → String → Fields → Fields
omit_empty name value rest = if value == "" then rest else field name (text value) rest

pub data Body : Type 0 where
  json : Json → Body
  raw : String → String → Body
  no_body : Body

pub record Response : Type 0 where
  pub status : ℕ
  pub body : Body
  pub headers : List (String × String)

pub record Context : Type 0 where
  pub method : String
  -- The pattern of the route, as c.FullPath() gives it.
  pub full_path : String
  pub path : String
  pub header : String → String
  pub query : String → String
  pub param_id : String
  -- The body of the request.
  pub payload : String
  -- The values under identity.GinKey, httpx.RequestIDKey, policy.CtxDecisionKey,
  -- policy.CtxRuleKey and "ratelimit_fallback".
  pub identity : Option Identity
  pub request_id : Option String
  pub policy_decision : Option String
  pub policy_rule : Option String
  pub ratelimit_fallback : Bool
  -- The context of the request.
  pub scope : Scope

-- What a handler leaves: the state of the server, the context and the response.
pub record Outcome (W : Type 0) : Type 0 where
  pub world : W
  pub context : Context
  pub response : Response

abbrev pub Handler : Type 0 → Type 0
Handler W = Context → W → Outcome W

-- The part of the server's state that a component keeps.
pub record Part (W S : Type 0) : Type 0 where
  pub view : W → S
  pub put : S → W → W
  pub view-put : (s : S) (w : W) → view (put s w) ≡ s

pub record ErrorDetail : Type 0 where
  pub code : String
  pub message : String
  pub request_id : String

abbrev pub code_unauthorized : String
code_unauthorized = "unauthorized"

abbrev pub code_forbidden : String
code_forbidden = "forbidden"

abbrev pub code_rate_limited : String
code_rate_limited = "rate_limited"

abbrev pub code_conflict : String
code_conflict = "conflict"

abbrev pub code_bad_request : String
code_bad_request = "bad_request"

abbrev pub code_internal : String
code_internal = "internal_error"

abbrev pub code_idempotency : String
code_idempotency = "idempotency_key_required"

-- ErrorBody as JSON
abbrev pub error_body : ErrorDetail → Json
error_body d = object (
    field "error"
      (object (
        field "code" (text d.code)
          (field "message" (text d.message) (omit_empty "request_id" d.request_id end))))
      end)

-- `v, _ := c.Get(…)` with `s, _ := v.(string)`
abbrev pub or_empty : Option String → String
or_empty none = ""
or_empty (some s) = s

module _ {W : Type 0} where
  -- c.JSON, c.Status and c.Data
  abbrev pub reply : W → Context → ℕ → Body → Outcome W
  reply w c status body = record {
    world = w;
    context = c;
    response = record { status = status; body = body; headers = [] };
  }

  -- Abort
  unfoldable pub abort : ℕ → String → String → Handler W
  abort status code message c w = reply w c status (
      json (
        error_body (record { code = code; message = message; request_id = or_empty c.request_id })))

  unfoldable pub unauthorized : String → Handler W
  unfolding abort
  unauthorized = abort 401 code_unauthorized

  unfoldable pub forbidden : String → Handler W
  unfolding abort
  forbidden = abort 403 code_forbidden

  unfoldable pub bad_request : String → Handler W
  unfolding abort
  bad_request = abort 400 code_bad_request

  unfoldable pub internal : String → Handler W
  unfolding abort
  internal = abort 500 code_internal

  abbrev pub with_actor : Option Identity → (Identity → Handler W) → Handler W
  with_actor none k = unauthorized "authentication required"
  with_actor (some actor) k = k actor

  -- The check that every handler behind the authentication begins with: identity.FromGin, and 401
  -- if the context holds no identity.
  unfoldable pub require_actor : (Identity → Handler W) → Handler W
  require_actor k c w = with_actor c.identity k c w

  pub require_actor_lem :
      (k : Identity → Handler W) (c : Context) (w : W) (actor : Identity)
      → c.identity ≡ some actor
      → require_actor k c w ≡ k actor c w
  unfolding require_actor
  require_actor_lem k c w actor e = ap (λ o. with_actor o k c w) e
