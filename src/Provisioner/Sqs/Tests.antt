-- ===== src/Provisioner/Sqs/Tests.antt =====
-- The SQS consumer at a concrete queue.
use cloud_ops_manager.Common.{
  ℕ, ◌+◌, ◌-◌, ◌≡◌, refl, ◌↔◌, String, true, false, some, List, [], ◌∷◌, Result, ok, err, ◌==◌, any,
  str_eq, if◌then◌else◌,
}
use cloud_ops_manager.Text.{Text, codes, text_eq, is_space}
use cloud_ops_manager.Text.Trim.{trim}
use cloud_ops_manager.Provisioner.Request.{Request, ParseError, parse, missing_fields, is_blank}
use cloud_ops_manager.Provisioner.Request.Laws.{parse_iff, parse_missing}
use cloud_ops_manager.Provisioner.Dispatch.{dispatch}
use cloud_ops_manager.Provisioner.Sqs.{
  Client, World, Message, process, process_all, received, poll, run_sqs,
}
use cloud_ops_manager.Provisioner.Sqs.Batch.{env-process_all, delete_all, understood}
use cloud_ops_manager.Provisioner.Sqs.Run.{run_sqs_total}

abbrev payments : Request
payments = record {
  request_id = codes "r-1";
  application = record {
    name = codes "payments";
    template = codes "dotnet";
    owner = codes "team";
    description = [];
  };
  resources = [];
  requested_by = codes "ann";
}

abbrev nameless : Request
nameless = record payments {
  application = record {
    name = codes " ";
    template = codes "dotnet";
    owner = codes "team";
    description = [];
  };
}

-- A decoder that knows two bodies.
unmarshal : Text → Result Text Request
unmarshal body =
    if text_eq body (codes "good")
    then ok payments
    else if text_eq body (codes "nameless")
    then ok nameless
    else err (codes "invalid character")

explain : ParseError Text → Text
explain e = codes "cannot parse"

-- A queue of messages, the number of polls after which the context is cancelled, and the handles
-- that were deleted.
record Queue : Type 0 where
  waiting : List Message
  polls_left : ℕ
  gone : List Text

abbrev client : Client Queue
client = record {
  cancelled = λ q. q.polls_left == 0;
  receive = λ q. (ok q.waiting, record q { waiting = []; polls_left = q.polls_left - 1 });
  delete = λ h q. (ok tt, record q { gone = h ∷ q.gone });
}

abbrev message : String → String → Message
message id body = record { message_id = codes id; body = codes body; receipt_handle = codes id }

abbrev messages : List Message
messages = message "m1" "good" ∷ message "m2" "nameless" ∷ message "m3" "{" ∷ []

abbrev start : World Queue
start = record {
  env = record { waiting = messages; polls_left = 1; gone = [] };
  sink = record { logs = []; spans = [] };
  received = 0;
  processed = 0;
  failed = 0;
}

parse_iff_example : (parse unmarshal (codes "good") ≡ ok payments) ↔ (
    (unmarshal (codes "good") ≡ ok payments)
    × (is_blank (codes "r-1") ≡ false)
    × (is_blank (codes "payments") ≡ false)
    × (is_blank (codes "dotnet") ≡ false))
parse_iff_example = parse_iff unmarshal (codes "good") payments

parse_missing_example :
    (any (str_eq "request_id") ("application.name" ∷ []) ≡ is_blank (codes "r-1"))
    × (any (str_eq "application.name") ("application.name" ∷ []) ≡ is_blank (codes " "))
    × (any (str_eq "application.template") ("application.name" ∷ []) ≡ is_blank (codes "dotnet"))
unfolding parse missing_fields is_blank trim is_space unmarshal text_eq
parse_missing_example =
    parse_missing unmarshal (codes "nameless") nameless ("application.name" ∷ []) refl refl

env-process_all_example :
    (process_all client unmarshal explain messages start).env
    ≡ delete_all client (understood unmarshal messages) start.env
env-process_all_example = env-process_all client unmarshal explain messages start

deletes_the_good :
    (delete_all client (understood unmarshal messages) start.env).gone ≡ codes "m1" ∷ []
unfolding parse missing_fields is_blank trim is_space unmarshal text_eq
deletes_the_good = refl

run_sqs_total_example :
    (w' : World Queue) × (run_sqs client unmarshal explain 2 (codes "q") start ≡ some w')
    × (client.cancelled w'.env ≡ true)
    × (w'.processed + w'.failed + start.received ≡ start.processed + start.failed + w'.received)
unfolding poll received process_all process dispatch parse missing_fields is_blank trim is_space
    unmarshal text_eq
run_sqs_total_example = run_sqs_total client unmarshal explain 1 (codes "q") start refl
