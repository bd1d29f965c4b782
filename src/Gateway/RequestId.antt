-- ===== src/Gateway/RequestId.antt =====
-- internal/gateway/middleware/requestid.go
use chain_pulse.Prelude.{String, ◌==◌, [], ◌∷◌, some, if◌then◌else◌}
use chain_pulse.Http.{Context, Handler, Outcome}
use chain_pulse.Logger.{Logger, with_attributes}
use chain_pulse.Scope.{with_logger}

abbrev pub with_response_header : {W : Type 0} → String → String → Outcome W → Outcome W
with_response_header name value o = record o {
  response = record o.response { headers = (name, value) ∷ o.response.headers };
}

-- The client's identifier, or the fresh one.
abbrev pub rid_of : String → Context → String
rid_of uuid c = if c.header "X-Request-ID" == "" then uuid else c.header "X-Request-ID"

-- What RequestID sets on the context.
abbrev pub with_request_id : Logger → String → Context → Context
with_request_id base rid c = record c {
  request_id = some rid;
  scope = with_logger (with_attributes (("request_id", rid) ∷ []) base) c.scope;
}

-- RequestID; `uuid` is the identifier that it mints.
unfoldable pub request_id : {W : Type 0} → Logger → String → Handler W → Handler W
request_id base uuid next c w =
    with_response_header "X-Request-ID" (rid_of uuid c)
      (next (with_request_id base (rid_of uuid c) c) w)
