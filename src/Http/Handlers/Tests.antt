-- ===== src/Http/Handlers/Tests.antt =====
-- The handlers at a concrete request.
use cloud_ops_manager.Common.{
  lookup, ◌≡◌, refl, String, lookup, Option, some, none, List, [], ◌∷◌, Result, ok, err,
}
use cloud_ops_manager.Text.{Text, codes}
use cloud_ops_manager.Domain.Errors.{GoError}
use cloud_ops_manager.Domain.Model.{ProvisionRequest}
use cloud_ops_manager.Http.Writer.{header_get, World, Request, Writer, status_recorder}
use cloud_ops_manager.Http.Writer.Laws.{IsFresh, Received}
use cloud_ops_manager.Http.Response.Laws.{json_headers}
use cloud_ops_manager.Http.Validation.{FieldError}
use cloud_ops_manager.Http.Handlers.{header_get, get_request_id, provision}
use cloud_ops_manager.Http.Handlers.Provision.{
  provision_accepts, provision_ignores_id, document_of, with_body,
}

abbrev payments : ProvisionRequest
payments = record {
  request_id = codes "chosen by the client";
  application = record {
    name = codes "payments-api";
    template = codes "dotnet";
    owner = codes "team";
    description = [];
  };
  resources = [];
  requested_by = codes "ann";
}

decode : Result String Text → Option ProvisionRequest
decode (ok []) = some (record payments { request_id = codes "another" })
decode (ok (c ∷ body)) = some payments
decode (err e) = none

abbrev no_complaint : {T : Type 0} → T → List FieldError
no_complaint t = []

-- The environment is the list of what was published.
abbrev publish :
    ProvisionRequest → List ProvisionRequest → Result GoError Unit × List ProvisionRequest
publish r sent = (ok tt, r ∷ sent)

abbrev new_uuid : List ProvisionRequest → Text × List ProvisionRequest
new_uuid sent = (codes "u-1", sent)

abbrev marshal : ProvisionRequest → Result GoError Text
marshal r = ok (codes "{}")

abbrev fresh_writer : Writer
fresh_writer = record {
  layers = status_recorder 200 ∷ [];
  base = record { headers = []; sent = none; body = [] };
}

fresh : IsFresh fresh_writer
fresh = record { plain = tt; unsent = refl; blank = refl }

abbrev post : Request
post = record {
  method = "POST";
  path = "/v1/provision";
  pattern = "";
  headers = ("X-Request-Id", "r-1" ∷ []) ∷ [];
  body = ok (codes "{}");
}

abbrev start : World (List ProvisionRequest)
start = record { request = post; writer = fresh_writer; env = []; logs = []; now = "" }

provision_accepts_example :
    let done = (provision marshal publish new_uuid (λ c. c) decode no_complaint start).1 in
    (done.env ≡ record payments { request_id = codes "u-1" } ∷ [])
    × Received 202
        (json_headers fresh_writer)
        (document_of "" "r-1" (codes "u-1") (ok tt) ∷ [])
        done.writer
unfolding decode get_request_id header_get lookup
provision_accepts_example =
    provision_accepts marshal publish new_uuid (λ c. c) decode no_complaint payments start fresh
      refl refl

provision_ignores_id_example :
    let result = provision marshal publish new_uuid (λ c. c) decode no_complaint start in
    provision marshal publish new_uuid
      (λ c. c)
      decode
      no_complaint
      (with_body marshal publish new_uuid (ok []) start)
    ≡ (result.0, with_body marshal publish new_uuid (ok []) result.1)
unfolding decode
provision_ignores_id_example =
    provision_ignores_id marshal publish new_uuid (λ c. c) decode no_complaint payments
      (codes "another") (ok []) start refl refl refl refl
