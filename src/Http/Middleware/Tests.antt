-- ===== src/Http/Middleware/Tests.antt =====
-- The middleware around concrete handlers.
use cloud_ops_manager.Common.{◌+◌, ℕ, ◌≡◌, refl, String, [], ◌∷◌, ok, none}
use cloud_ops_manager.Text.{codes}
use cloud_ops_manager.Http.Writer.{World, Request, Writer, Handler, panicked, status_recorder}
use cloud_ops_manager.Http.Writer.Laws.{IsFresh}
use cloud_ops_manager.Http.Middleware.{pattern_path}

abbrev fresh_writer : Writer
fresh_writer = record {
  layers = status_recorder 200 ∷ [];
  base = record { headers = []; sent = none; body = [] };
}

fresh : IsFresh fresh_writer
fresh = record { plain = tt; unsent = refl; blank = refl }

abbrev preflight_request : Request
preflight_request = record {
  method = "OPTIONS";
  path = "/v1/provision";
  pattern = "";
  headers = ("Origin", "https://x.io" ∷ []) ∷ [];
  body = ok [];
}

abbrev start : World ℕ
start = record {
  request = preflight_request;
  writer = fresh_writer;
  env = 0;
  logs = [];
  now = "noon";
}

abbrev fails : Handler ℕ
fails w = (panicked "boom", record w { env = 1 })

abbrev new_uuid : ℕ → String × ℕ
new_uuid n = ("u-1", n + 1)

routed : pattern_path (codes "POST /v1/provision") ≡ codes "/v1/provision"
unfolding pattern_path
routed = refl
