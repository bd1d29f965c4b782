-- ===== src/Gateway/Router/Logged.antt =====
-- The access log of internal/gateway/router.go.
use mathlib.Core.List.{append_assoc, append-nil}
use chain_pulse.Prelude.{String, true, ◌≡◌, refl, sym, ap, ◌∙◌, List, [], ◌∷◌, ◌++◌, All}
use chain_pulse.Logger.{Logger, writes_info, info_written}
use chain_pulse.Scope.{logger_of}
use chain_pulse.Http.{Context, Handler, Outcome}
use chain_pulse.Http.Keeping.{Keeps}
use chain_pulse.Gateway.RequestId.{rid_of, with_request_id}
use chain_pulse.Gateway.AccessLog.{AccessLine, Observed, access_line}
use chain_pulse.Gateway.Deps.{Server, Deps, Arrival}
use chain_pulse.Gateway.Router.{observed, new_router}
use chain_pulse.Gateway.Router.Keeping.{IsStable}
use chain_pulse.Gateway.Router.Chains.{IsKept, of_every_endpoint}

-- The attributes that every line about a request begins with.
abbrev pub correlated : Logger → String → List (String × String)
correlated base rid = base.attributes ++ ("request_id", rid) ∷ []

-- A context that a chain has got from a request, and what its logger would write.
record IsTraced (base : Logger) (rid : String) (request c : Context) : Type 0 where
  method : c.method ≡ request.method
  route : c.full_path ≡ request.full_path
  path : c.path ≡ request.path
  level : (logger_of c.scope).level ≡ base.level
  more : List (String × String)
  attributes : (logger_of c.scope).attributes ≡ correlated base rid ++ more

-- One line came on top of the log: it tells the request and the status of its response, and carries the
-- identifier that the response carries as well.
pub record IsLoggedOnce {W : Type 0} (base : Logger) (uuid : String) (c : Context)
    (before : List AccessLine) (o : Outcome (Observed W)) : Type 0 where
  pub line : AccessLine
  pub written : o.world.access ≡ line ∷ before
  pub tells_status : line.status ≡ o.response.status
  pub tells_method : line.method ≡ c.method
  pub tells_route : line.route ≡ c.full_path
  pub tells_path : line.path ≡ c.path
  pub more : List (String × String)
  pub correlates : line.attributes ≡ correlated base (rid_of uuid c) ++ more
  pub headers : List (String × String)
  pub answers : o.response.headers ≡ ("X-Request-ID", rid_of uuid c) ∷ headers

IsTraced-IsStable :
    {W : Type 0} (base : Logger) (rid : String) (request : Context)
    → IsStable {W = W} (λ c w. IsTraced base rid request c)
IsTraced-IsStable base rid request = record {
  identified = λ c w id q. record {
    method = q.method;
    route = q.route;
    path = q.path;
    level = q.level;
    more =
        q.more ++ ("tenant_id", id.tenant_id) ∷ ("actor_id", id.user_id) ∷ ("role", id.role) ∷ [];
    attributes =
        ap
          (λ xs.
            xs ++ ("tenant_id", id.tenant_id) ∷ ("actor_id", id.user_id) ∷ ("role", id.role) ∷ [])
          q.attributes
        ∙ append_assoc (correlated base rid) q.more _;
  };
  noted_too = λ c w q. record {
    method = q.method;
    route = q.route;
    path = q.path;
    level = q.level;
    more = q.more;
    attributes = q.attributes;
  };
  decided = λ c w d q. record {
    method = q.method;
    route = q.route;
    path = q.path;
    level = q.level;
    more = q.more;
    attributes = q.attributes;
  };
}

module _ {F S : Type 0} (d : Deps F S) (a : Arrival) where
  abbrev pub IsObserved : Handler (Observed (Server S)) → Type 0
  IsObserved h =
      (c : Context) (w : Observed (Server S)) → IsLoggedOnce d.logger a.uuid c w.access (h c w)

  -- The request's identifier, and the request.
  abbrev Traced : String × Context → Context → Server S → Type 0
  Traced (rid, request) c w = IsTraced d.logger rid request c

  Traced-IsKept : (i : String × Context) → IsKept d a (Traced i)
  Traced-IsKept (rid, request) = record {
    stable = IsTraced-IsStable d.logger rid request;
    redis_free = λ s c w q. q;
    windows_free = λ l c w q. q;
    calls_free = λ n c w q. q;
    audited = λ line c w q. q;
    stored = λ t c w e q. q;
  }

  module _ (loud : writes_info d.logger.level ≡ true) where
    observed-IsObserved :
        (next : Handler (Server S))
        → ((i : String × Context) → Keeps (Traced i) next)
        → IsObserved (observed d a next)
    unfolding observed
    observed-IsObserved next keeps c w =
        let rid = rid_of a.uuid c in
        let o = next (with_request_id d.logger rid c) w.inner in
        let q : IsTraced d.logger rid c o.context =
          keeps (rid, c) (with_request_id d.logger rid c) w.inner
            (record {
              method = refl;
              route = refl;
              path = refl;
              level = refl;
              more = [];
              attributes = sym (append-nil (correlated d.logger rid));
            }) in
        record {
          line = access_line _ o;
          written =
              info_written (logger_of o.context.scope) _ w.access (ap writes_info q.level ∙ loud);
          tells_status = refl;
          tells_method = q.method;
          tells_route = q.route;
          tells_path = q.path;
          more = q.more;
          correlates = q.attributes;
          headers = o.response.headers;
          answers = refl;
        }

    -- With a logger that writes at INFO, every endpoint of the router adds exactly one line to the access
    -- log for every request and on every path through its chain (401, 429, 400, 403, a replay, an error
    -- or the handler's answer): it tells the method, the pattern and the path of the request and the
    -- status of the response, and carries the request identifier that the response carries.
    pub new_router-IsLoggedOnce :
        All
          (λ e.
            (c : Context) (w : Observed (Server S))
            → IsLoggedOnce d.logger a.uuid c w.access (e.handler c w))
          (new_router d a)
    new_router-IsLoggedOnce =
        of_every_endpoint d a Traced Traced-IsKept IsObserved observed-IsObserved
