-- ===== src/Provisioner/Dispatch.antt =====
-- services/provisioner/internal/consumer/dispatch.go
-- The log and the spans are lists that grow at the end.
use cloud_ops_manager.Common.{
  String, Bool, true, false, ◌++◌, List, [], ◌∷◌, Result, ok, err, length, if◌then◌else◌,
}
use cloud_ops_manager.Text.{Text}
use cloud_ops_manager.Logging.{Entry, entry, text, number, texts, Field, field, error, info}
use cloud_ops_manager.Provisioner.Request.{
  Request, ParseError, ScaffoldWork, InfraWork, parse, split, has_work, resource_types,
}

pub record Span : Type 0 where
  pub name : String
  pub attributes : List Field

-- What a consumer writes beside the queue: log entries and spans.
pub record Sink : Type 0 where
  pub logs : List Entry
  pub spans : List Span

abbrev pub log : Entry → Sink → Sink
log e s = record s { logs = s.logs ++ e ∷ [] }

abbrev pub add_span : Span → Sink → Sink
add_span p s = record s { spans = s.spans ++ p ∷ [] }

unfoldable pub scaffold_entry : ScaffoldWork → Entry
scaffold_entry w = entry info "scaffold work" (
    field "request_id" (text w.request_id)
    ∷ field "application_name" (text w.application_name)
    ∷ field "template" (text w.template)
    ∷ field "owner" (text w.owner)
    ∷ [])

unfoldable pub infra_entry : InfraWork → Entry
unfolding has_work resource_types
infra_entry w =
    if has_work w
    then entry info "infrastructure work" (
        field "request_id" (text w.request_id)
        ∷ field "application_name" (text w.application_name)
        ∷ field "resource_count" (number (length w.resources))
        ∷ field "resource_types" (texts (resource_types w))
        ∷ [])
    else entry info "no infrastructure work" (
        field "request_id" (text w.request_id)
        ∷ field "application_name" (text w.application_name)
        ∷ [])

unfoldable pub split_span : Request → Span
split_span r =
    let (scaffold, infra) = split r in
    record {
      name = "SplitProvisionRequest";
      attributes =
          field "provision.request_id" (text r.request_id)
          ∷ field "provision.application" (text scaffold.application_name)
          ∷ field "provision.template" (text scaffold.template)
          ∷ field "provision.resource_count" (number (length infra.resources))
          ∷ [];
    }

module _ {E : Type 0} (message : ParseError E → Text) where
  unfoldable pub dispatch_parsed : Text → Result (ParseError E) Request → Sink → Bool × Sink
  dispatch_parsed body (err e) s = (
    false,
    log
        (entry error "could not understand provision request"
          (field "error" (text (message e)) ∷ field "body" (text body) ∷ []))
        s,
  )
  dispatch_parsed body (ok request) s =
      let (scaffold, infra) = split request in
      (
        true,
        log (infra_entry infra) (log (scaffold_entry scaffold) (add_span (split_span request) s)),
      )

  -- `message` is the text of an error.
  unfoldable pub dispatch : (Text → Result E Request) → Text → Sink → Bool × Sink
  unfolding dispatch_parsed
  dispatch unmarshal body = dispatch_parsed body (parse unmarshal body)
