-- ===== src/Api/Tests.antt =====
-- A request to the whole API and its retry, over a Redis in memory and a topic that is a list.
use cloud_ops_manager.Common.{
  ℕ, Option-cases, inl, inr, Bool, String, ◌≡◌, refl, Option, some, none, List, [], ◌∷◌, Result, ok,
  err, lookup, insert, str_eq_iff, arith, true, false,
}
use cloud_ops_manager.Text.{Text, codes}
use cloud_ops_manager.Domain.Model.{ProvisionRequest}
use cloud_ops_manager.Http.Writer.{World, Handler, returned, Headers, header_get, header_set}
use cloud_ops_manager.Http.Writer.{set_header}
use cloud_ops_manager.Http.Middleware.{standard_headers}
use cloud_ops_manager.Http.Router.{day}
use cloud_ops_manager.Http.Router.Laws.Passing.{identified, shared}
use cloud_ops_manager.Idempotency.RedisStore.{
  reserve, after_set_nx, to_record, key_prefix, complete, complete_existing, get, complete_script,
  reservation,
}
use cloud_ops_manager.Http.Writer.Laws.{Received}
use cloud_ops_manager.Http.Response.Laws.{json_headers}
use cloud_ops_manager.Http.Metrics.{Gauge, Histogram}
use cloud_ops_manager.Http.Router.{Routes}
use cloud_ops_manager.Http.Idempotency.Laws.Captured.{replayed_value}
use cloud_ops_manager.Http.Idempotency.Laws.Slots.{IsKeyed}
use cloud_ops_manager.Idempotency.RedisStore.Server.{Redis, RedisLaws}
use cloud_ops_manager.Idempotency.RedisStore.Memory.{Db, find, set_nx, server, server-RedisLaws}
use cloud_ops_manager.Api.{Parts, api, ServesProvision}
use cloud_ops_manager.Api.Route.{IsProvision, arrived}
use cloud_ops_manager.Idempotency.Store.{IdempotencyRecord}
use cloud_ops_manager.Api.First.{reserves, IsFirst, accepted_document, held}
use cloud_ops_manager.Api.Retry.{IsDeployed, retry_publishes_once}

-- The slots, and what was published.
abbrev Ground : Type 0
Ground = Db × List ProvisionRequest

abbrev redis : Redis Ground Db
redis = record {
  time = λ s. server.time s.0;
  view = λ s. server.view s.0;
  find = server.find;
  put = server.put;
  del = server.del;
  set_nx = λ k v ttl s. let (a, d) = server.set_nx k v ttl s.0 in (a, (d, s.1));
  get = λ k s. let (a, d) = server.get k s.0 in (a, (d, s.1));
  eval = λ f s. let (a, d) = server.eval f s.0 in (a, (d, s.1));
  unmarshal = server.unmarshal;
}

redis_lem : RedisLaws redis
redis_lem = record {
  find-put = server-RedisLaws.find-put;
  find-del = server-RedisLaws.find-del;
  set_nx_new = λ k v ttl s. server-RedisLaws.set_nx_new k v ttl s.0;
  set_nx_old = λ k v ttl s. server-RedisLaws.set_nx_old k v ttl s.0;
  set_nx_atomic = λ k v ttl s. server-RedisLaws.set_nx_atomic k v ttl s.0;
  set_nx_elsewhere = λ k j v ttl s. server-RedisLaws.set_nx_elsewhere k j v ttl s.0;
  get_reads = λ k s. server-RedisLaws.get_reads k s.0;
  unmarshal_same = server-RedisLaws.unmarshal_same;
  get_keeps = λ k s. server-RedisLaws.get_keeps k s.0;
  eval_runs = λ f s. server-RedisLaws.eval_runs f s.0;
  eval_atomic = λ f s. server-RedisLaws.eval_atomic f s.0;
}

abbrev gauge : Gauge Ground
gauge = record { add_one = λ m s. s; add_minus_one = λ m s. s }

abbrev histogram : Histogram Ground
histogram took attributes s = s

abbrev quiet_handler : Handler Ground
quiet_handler w = (returned, w)

-- ServeMux, for one path: the handler that is registered, or none.
abbrev serve_one : Option (Handler Ground) → Handler Ground
serve_one none w = (returned, w)
serve_one (some h) w =
    h (record w { request = record w.request { pattern = "POST /v1/provision" } })

abbrev serve_mux : Routes Ground → Handler Ground
serve_mux rs = serve_one (lookup "POST /v1/provision" rs)

serve_mux_lem : ServesProvision serve_mux
serve_mux_lem rs h w there method path = rw there refl

abbrev payments : ProvisionRequest
payments = record {
  request_id = codes "chosen by the client";
  application = record {
    name = codes "payments-api";
    template = codes "dotnet";
    owner = codes "team";
    description = [];
  };
  resources = [];
  requested_by = codes "ann";
}

decode : Result String Text → Option ProvisionRequest
decode (ok body) = some payments
decode (err e) = none

abbrev parts : Parts Ground Db
parts = record {
  redis = redis;
  around = record {
    gauge = some gauge;
    histogram = some histogram;
    took = 3;
    logged_took = 2;
    stack = "";
    new_uuid = λ s. ("u-1", s);
    valid_uuid = λ s. true;
    hash = λ s. "h";
  };
  others = record {
    provision = quiet_handler;
    health_check = quiet_handler;
    sign_up = quiet_handler;
    sign_in = quiet_handler;
    confirm_sign_up = quiet_handler;
    swagger_ui = quiet_handler;
  };
  beyond = λ c. c;
  decode = decode;
  check = λ r. [];
  marshal = λ r. ok (codes "{}");
  publish = λ r s. (ok tt, (s.0, r ∷ s.1));
  provision_uuid = λ s. (codes "p-1", s);
  serve_mux = serve_mux;
  allowed_origins = [];
  ttl = 0;
  metrics_handler = none;
}

abbrev topic : Ground → List ProvisionRequest
topic s = s.1

deployed : IsDeployed parts topic gauge histogram
deployed = record {
  gauged = refl;
  timed = refl;
  serves = serve_mux_lem;
  redis = redis_lem;
  apart = record {
    up = λ m s. (refl, refl);
    down = λ m s. (refl, refl);
    recorded = λ took attributes s. (refl, refl);
    request_ids = λ s. (refl, refl);
    provision_ids = λ s. (refl, refl);
    publishing = λ r s. refl;
    setting = λ k v ttl s. refl;
    getting = λ k s. refl;
    evaluating = λ f s. refl;
  };
}

abbrev post : Ground → World Ground
post s = record {
  request = record {
    method = "POST";
    path = "/v1/provision";
    pattern = "";
    headers = ("X-Idempotency-Key", "k" ∷ []) ∷ [];
    body = ok (codes "{}");
  };
  writer = record { layers = []; base = record { headers = []; sent = none; body = [] } };
  env = s;
  logs = [];
  now = "t";
}

post-IsProvision : (s : Ground) → IsProvision (post s)
post-IsProvision s = record {
  method = refl;
  path = refl;
  fresh = record { plain = tt; unsent = refl; blank = refl };
  map = record { distinct = tt; values = tt };
}

post-IsKeyed : (s : Ground) → IsKeyed (λ k. true) (post s) (codes "{}")
unfolding header_get lookup
post-IsKeyed s = record {
  keyed = λ e. ground (arith, str_eq_iff "k" "");
  valid = refl;
  read = refl;
}

abbrev first_post : World Ground
first_post = post ([], [])

is_first : IsFirst parts payments (arrived parts gauge first_post) (codes "{}")
unfolding decode arrived identified shared standard_headers header_get header_set set_header lookup
    insert reserve after_set_nx server to_record key_prefix complete complete_existing get
    complete_script find
is_first = record {
  slot = some (to_record "k" (reservation redis "h" 0 day));
  created = refl;
  publishes = record { decodes = refl; valid = refl; taken = refl };
  completed = refl;
}

-- The Redis in memory reads every slot.
reserves_lem :
    (k h : String) (ttl : ℕ) (s : Ground)
    → (b : Option IdempotencyRecord × Bool) × ((reserve redis k h ttl s).0 ≡ ok b)
unfolding reserve after_set_nx get server set_nx
reserves_lem k h ttl s = elim (Option-cases (find s.0 (key_prefix k))) [
  | inl free ↦ ((some (to_record k (reservation redis h 0 ttl)), true), rw (free, set_nx) refl)
  | inr (e, taken) ↦ ((some (to_record k e), false), rw (taken, set_nx) (rw taken refl))
]

-- The retry finds the world as the first request left it.
abbrev second_post : World Ground
second_post = post (api parts first_post).1.env

abbrev second_reserves :
    (b : Option IdempotencyRecord × Bool) × ((reserves parts
        (arrived parts gauge second_post)
        (codes "{}")).0
      ≡ ok b)
second_reserves = reserves_lem _ _ _ _

retry_publishes_once_example :
    let a = arrived parts gauge first_post in
    let document = accepted_document parts (held parts a (codes "{}")) ∷ [] in
    (hs : Headers) × ((api parts first_post).0 ≡ returned)
    × Received 202 (json_headers a.writer) document (api parts first_post).1.writer
    × (topic (api parts first_post).1.env ≡ record payments { request_id = codes "p-1" } ∷ [])
    × ((api parts second_post).0 ≡ returned)
    × Received 202 hs document (api parts second_post).1.writer
    × ((k : String)
        → header_get k hs
          ≡ replayed_value
              (json_headers a.writer)
              (arrived parts gauge second_post).writer.base.headers
              k)
    × (topic (api parts second_post).1.env ≡ topic second_post.env)
unfolding reserve server lookup arrived shared identified header_get header_set insert
retry_publishes_once_example =
    retry_publishes_once parts topic gauge histogram deployed payments first_post second_post
      (codes "{}") second_reserves.0 (post-IsProvision _) (post-IsKeyed _) is_first
      (post-IsProvision _) (post-IsKeyed _) refl refl second_reserves.1
