-- ===== src/Http/Router/Tests.antt =====
-- A provision handler that panics, under the router.
use cloud_ops_manager.Common.{
  ℕ, zero, suc, String, ◌≡◌, refl, Bool, true, false, Option, some, none, List, [], ◌∷◌, ◌++◌,
  str_eq, str_eq_refl, if◌then◌else◌, Result, ok, arith,
}
use cloud_ops_manager.Http.Writer.{
  World, Request, Writer, Handler, Exit, returned, panicked, status_recorder, error_json,
}
use cloud_ops_manager.Http.Writer.Laws.{Received}
use cloud_ops_manager.Http.Response.Laws.{json_headers}
use cloud_ops_manager.Http.Middleware.{panic_entry, request_entry, is_unlogged}
use cloud_ops_manager.Http.Metrics.{Attribute, Gauge, Histogram}
use cloud_ops_manager.Http.Metrics.Laws.{GaugeLaws}
use cloud_ops_manager.Http.Router.{
  RouterConfig, Endpoints, Surroundings, Routes, routes, new_router_with_config,
  default_router_config,
}
use cloud_ops_manager.Http.Router.Laws.{Returns, Leaves, router_balanced}
use cloud_ops_manager.Http.Router.Laws.Panic.{
  router_recovers, entered, below_recovery, internal_error, measured,
}

-- What the gauge shows for each method, and the measurements.
abbrev Meter : Type 0
Meter = (String → ℕ) × List (List Attribute)

abbrev less_one : ℕ → ℕ
less_one zero = 0
less_one (suc n) = n

abbrev gauge : Gauge Meter
gauge = record {
  add_one = λ m s. (λ k. if str_eq m k then suc (s.0 k) else s.0 k, s.1);
  add_minus_one = λ m s. (λ k. if str_eq m k then less_one (s.0 k) else s.0 k, s.1);
}

abbrev histogram : Histogram Meter
histogram took attributes s = (s.0, s.1 ++ attributes ∷ [])

abbrev active : String → Meter → ℕ
active m s = s.0 m

gauge_lem : GaugeLaws gauge active
gauge_lem = record {
  up = λ m s. ground (arith, str_eq_refl m);
  down = λ m n s h. rw (str_eq_refl m) (rw h refl);
  up_other = λ m k s h. rw h refl;
  down_other = λ m k s h. rw h refl;
}

abbrev around : Surroundings Meter
around = record {
  gauge = some gauge;
  histogram = some histogram;
  took = 3;
  logged_took = 2;
  stack = "goroutine 1";
  new_uuid = λ s. ("u-1", s);
  valid_uuid = λ s. true;
  hash = λ s. "";
}

abbrev ok_handler : Handler Meter
ok_handler w = (returned, w)

abbrev ends : Endpoints Meter
ends = record {
  provision = λ w. (panicked "boom", w);
  health_check = ok_handler;
  sign_up = ok_handler;
  sign_in = ok_handler;
  confirm_sign_up = ok_handler;
  swagger_ui = ok_handler;
}

-- The first route takes every request.
abbrev serve_mux : Routes Meter → Handler Meter
serve_mux [] w = (returned, w)
serve_mux ((pattern, h) ∷ rs) w = h w

abbrev config : RouterConfig Meter
config = default_router_config

abbrev start : World Meter
start = record {
  request = record {
    method = "POST";
    path = "/v1/provision";
    pattern = "";
    headers = ("X-Request-Id", "r-1" ∷ []) ∷ [];
    body = ok [];
  };
  writer = record { layers = []; base = record { headers = []; sent = none; body = [] } };
  env = (λ k. 0, []);
  logs = [];
  now = "t";
}

router_balanced_example :
    Returns (new_router_with_config around ends serve_mux config)
    × Leaves active (new_router_with_config around ends serve_mux config)
unfolding routes
router_balanced_example =
    router_balanced around ends serve_mux config gauge histogram active refl refl gauge_lem
      (λ attributes s k. refl) (λ s k. refl) (λ w k. refl)

-- What the route has done when it panics.
abbrev panicking : World Meter
panicking =
    (below_recovery around config.allowed_origins (serve_mux (routes around ends config))
      (entered gauge start)).1

router_recovers_example :
    let (exit, done) = new_router_with_config around ends serve_mux config start in
    (exit ≡ returned)
    × Received 500
        (json_headers panicking.writer)
        (error_json (internal_error panicking) ∷ [])
        done.writer
    × (done.logs
        ≡ panicking.logs
          ++ panic_entry "goroutine 1" "boom" panicking.request
            ∷ request_entry 2 panicking.request 500
            ∷ [])
    × (done.env ≡ measured gauge histogram "POST" 3 500 panicking)
unfolding routes cloud_ops_manager.Http.Middleware.request_context_middleware
    cloud_ops_manager.Http.Middleware.standard_headers_middleware
    cloud_ops_manager.Http.Middleware.cors_middleware cloud_ops_manager.Http.Writer.header_get
    cloud_ops_manager.Common.lookup cloud_ops_manager.Http.Writer.header_set
    cloud_ops_manager.Common.insert cloud_ops_manager.Http.Writer.set_header
    cloud_ops_manager.Http.Middleware.standard_headers
router_recovers_example =
    router_recovers around ends serve_mux config gauge histogram "boom" [] start panicking refl refl
      refl refl (record { plain = tt; unsent = refl; blank = refl }) refl
