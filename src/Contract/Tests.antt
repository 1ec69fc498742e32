-- ===== src/Contract/Tests.antt =====
-- An accepted request whose template is blank, and the lists of two tags.
use cloud_ops_manager.Common.{
  ℕ, String, ◌≡◌, refl, sym, map, Bool, true, false, not, List, [], ◌∷◌, ◌++◌, ◌↔◌, zero, suc,
  Option, some, none, Result, ok, err, null, any, leb, length, if◌then◌else◌, Bool-cases, inl, inr,
  arith,
}
use cloud_ops_manager.Text.{upper_rune, Text, codes, text_eq}
use cloud_ops_manager.Domain.Errors.{GoError, other}
use cloud_ops_manager.Domain.Model.{Resource, ProvisionRequest}
use cloud_ops_manager.Domain.ValueObjects.{new_resource_type, new_cloud_provider}
use cloud_ops_manager.Http.Validation.{FieldError, validate_application_name}
use cloud_ops_manager.Contract.{
  field_valid, Tag, required, appname, min, max, oneof, Validator, request_valid, carried,
  carried_resource, resource_types,
}
use cloud_ops_manager.Contract.Understood.{accepted_is_understood, append_message}
use cloud_ops_manager.Contract.Types.{types_match}
use cloud_ops_manager.Contract.Delivered.{
  accepted_are_processed, Progress, opening, all_written, closing, next, ended,
}
use cloud_ops_manager.Provisioner.Kafka as Consumer
use cloud_ops_manager.Publish.{KafkaMessage, publish_kafka}
use cloud_ops_manager.Publish.Carriers.{Carrier}
use cloud_ops_manager.Http.Writer.{World, Writer, status_recorder}
use cloud_ops_manager.Http.Writer.Laws.{IsFresh, Received}
use cloud_ops_manager.Http.Response.Laws.{json_headers}
use cloud_ops_manager.Http.Handlers.{provision, get_request_id}
use cloud_ops_manager.Http.Handlers.Provision.{document_of}
use cloud_ops_manager.Provisioner.Dispatch.{dispatch}
use cloud_ops_manager.Provisioner.Request.{ParseError, Request, parse}

-- A validator.
abbrev passes : Tag → Text → Bool
passes required s = not (null s)
passes appname s = validate_application_name s
passes (min n) s = leb n (length s)
passes (max n) s = leb (length s) n
passes (oneof ts) s = any (λ t. text_eq (codes t) s) ts

abbrev refused : FieldError
refused = record { field = codes "Request"; tag = "invalid"; param = []; value = [] }

abbrev verdict : Bool → List FieldError
verdict true = []
verdict false = refused ∷ []

abbrev check : ProvisionRequest → List FieldError
check r = verdict (request_valid passes r)

verdict_iff : (b : Bool) → (verdict b ≡ []) ↔ (b ≡ true)
verdict_iff true = ground arith
verdict_iff false = ground arith

validator : Validator check passes
validator = record {
  checks = λ r. verdict_iff (request_valid passes r);
  required_lem = λ s. refl;
  min_lem = λ n s. refl;
  max_lem = λ n s. refl;
  oneof_lem = λ ts s. refl;
  appname_lem = λ s. refl;
}

-- A codec that takes requests without resources: the texts in their order, each character one
-- higher, and 0 behind each text.
write_text : Text → Text → Text
write_text [] rest = 0 ∷ rest
write_text (c ∷ s) rest = suc c ∷ write_text s rest

read_text : Text → Text × Text
read_text [] = ([], [])
read_text (zero ∷ s) = ([], s)
read_text (suc c ∷ s) = let (t, rest) = read_text s in (c ∷ t, rest)

read-write_text : (t rest : Text) → read_text (write_text t rest) ≡ (t, rest)
unfolding read_text write_text
read-write_text [] rest = refl
read-write_text (c ∷ t) rest = rw (read-write_text t rest) refl

abbrev written : ProvisionRequest → Text
written r = write_text r.request_id (
    write_text r.application.name (
      write_text r.application.template (
        write_text r.application.owner
          (write_text r.application.description (write_text r.requested_by [])))))

marshal : ProvisionRequest → Result GoError Text
marshal r = if null r.resources then ok (written r) else err (other (codes "no resources, please"))

unmarshal : Text → Result Unit Request
unmarshal body =
    let (id, s₁) = read_text body in
    let (name, s₂) = read_text s₁ in
    let (template, s₃) = read_text s₂ in
    let (owner, s₄) = read_text s₃ in
    let (description, s₅) = read_text s₄ in
    let (by, s₆) = read_text s₅ in
    ok (record {
      request_id = id;
      application = record {
        name = name;
        template = template;
        owner = owner;
        description = description;
      };
      resources = [];
      requested_by = by;
    })

unmarshal-written :
    (r : ProvisionRequest) → unmarshal (written r) ≡ ok (record (carried r) { resources = [] })
unfolding unmarshal
unmarshal-written r = simp (read-write_text) refl

no_resources : (rs : List Resource) → null rs ≡ true → map carried_resource rs ≡ []
no_resources [] h = refl
no_resources (r ∷ rs) h = cc

json : (r : ProvisionRequest) (body : Text) → marshal r ≡ ok body → unmarshal body ≡ ok (carried r)
unfolding marshal
json r body h = elim (Bool-cases (null r.resources)) [
  | inl e ↦
      let same : written r ≡ body = ground arith in
      rw (sym same) (rw (no_resources r.resources e) (unmarshal-written r))
  | inr e ↦ ground arith
]

-- Its template is one space.
abbrev blank_template : ProvisionRequest
blank_template = record {
  request_id = [];
  application = record {
    name = codes "payments-api";
    template = codes " ";
    owner = codes "team";
    description = [];
  };
  resources = [];
  requested_by = codes "ann";
}

abbrev decode : Result String Text → Option ProvisionRequest
decode body = some blank_template

abbrev new_uuid : List KafkaMessage → Text × List KafkaMessage
new_uuid topic = (codes "u-1", topic)

abbrev inject : List KafkaMessage → Carrier → Carrier
inject topic c = c

abbrev explain : ParseError Unit → Text
explain e = []

abbrev fresh_writer : Writer
fresh_writer = record {
  layers = status_recorder 200 ∷ [];
  base = record { headers = []; sent = none; body = [] };
}

fresh : IsFresh fresh_writer
fresh = record { plain = tt; unsent = refl; blank = refl }

abbrev start : World (List KafkaMessage)
start = record {
  request = record {
    method = "POST";
    path = "/v1/provision";
    pattern = "";
    headers = ("X-Request-Id", "r-1" ∷ []) ∷ [];
    body = ok [];
  };
  writer = fresh_writer;
  env = [];
  logs = [];
  now = "";
}

abbrev sent_body : Text
sent_body = written (record blank_template { request_id = codes "u-1" })

accepted_is_understood_example :
    let publish = publish_kafka marshal inject append_message in
    let done = (provision marshal publish new_uuid (λ c. c) decode check start).1 in
    let message : KafkaMessage = record {
      key = codes "payments-api";
      value = sent_body;
      headers = [];
    } in
    (done.env ≡ message ∷ [])
    × Received 202
        (json_headers fresh_writer)
        (document_of "" (get_request_id start.request) (codes "u-1") (ok tt) ∷ [])
        done.writer
    × ((dispatch explain unmarshal sent_body (record { spans = []; logs = [] })).0 ≡ false)
    × ((parse unmarshal sent_body
          ≡ ok (carried (record blank_template { request_id = codes "u-1" })))
        ↔ (true ≡ false))
unfolding marshal request_valid field_valid validate_application_name
    cloud_ops_manager.Text.Regex.matches cloud_ops_manager.Provisioner.Request.is_blank
    cloud_ops_manager.Text.Trim.trim cloud_ops_manager.Text.is_space
accepted_is_understood_example =
    accepted_is_understood check passes validator marshal unmarshal json inject new_uuid (λ c. c)
      decode explain blank_template start sent_body (record { spans = []; logs = [] }) fresh refl
      refl refl refl

types_match_example :
    ((passes (oneof resource_types) (codes "SQS") ≡ true)
      ↔ (new_resource_type (codes "SQS") ≡ ok (codes "SQS")))
    × (new_cloud_provider (λ c. c) (codes "Azure") ≡ ok (codes "AZURE"))
unfolding text_eq upper_rune
types_match_example = types_match check passes validator (λ c. c) (codes "SQS") (codes "Azure") refl

-- Two accepted requests, and a reader that has their messages and then stops.
abbrev dotnet : ProvisionRequest
dotnet = record blank_template {
  application = record blank_template.application { template = codes "dotnet" };
}

abbrev accepted : List (ProvisionRequest × Text)
accepted = (dotnet, codes "u-1") ∷ (dotnet, codes "u-2") ∷ []

abbrev message_of : ℕ → Text → Consumer.KafkaMessage
message_of offset id = record {
  offset = offset;
  value = written (record dotnet { request_id = id });
}

abbrev messages : List Consumer.KafkaMessage
messages = message_of 0 (codes "u-1") ∷ message_of 1 (codes "u-2") ∷ []

fetch : List Consumer.KafkaMessage → Result Text Consumer.KafkaMessage × List Consumer.KafkaMessage
fetch [] = (err (codes "context canceled"), [])
fetch (m ∷ ms) = (ok m, ms)

abbrev reader : Consumer.Reader (List Consumer.KafkaMessage)
reader = record {
  cancelled = null;
  fetch = fetch;
  commit = λ m s. (ok tt, s);
  close = λ s. (ok tt, s);
}

abbrev cfg : Consumer.KafkaConfig
cfg = record { brokers = []; topic = codes "t"; group_id = codes "g" }

abbrev consumer : Consumer.World (List Consumer.KafkaMessage)
consumer = record {
  env = messages;
  sink = record { logs = []; spans = [] };
  span_errors = [];
  received = 0;
  processed = 0;
  failed = 0;
}

abbrev in_work : List Request
in_work =
    carried (record dotnet { request_id = codes "u-1" })
    ∷ carried (record dotnet { request_id = codes "u-2" })
    ∷ []

accepted_are_processed_example :
    (w' : Consumer.World (List Consumer.KafkaMessage)) × (answer : Result Text Unit)
    × (Consumer.run_kafka reader unmarshal explain 3 cfg consumer ≡ some w')
    × Progress consumer in_work (opening cfg ++ (all_written messages in_work ++ closing answer)) w'
unfolding marshal request_valid field_valid validate_application_name
    cloud_ops_manager.Text.Regex.matches cloud_ops_manager.Provisioner.Request.is_blank
    cloud_ops_manager.Text.Trim.trim cloud_ops_manager.Text.is_space fetch
accepted_are_processed_example =
    accepted_are_processed check passes validator marshal unmarshal json explain reader accepted
      messages cfg consumer ((refl, refl, refl, refl), ((refl, refl, refl, refl), tt))
      (next refl refl refl (next refl refl refl (ended refl)))
