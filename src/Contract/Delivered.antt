-- ===== src/Contract/Delivered.antt =====
-- From the API's answer to the provisioner's work: what RunKafka of
-- services/provisioner/internal/consumer/kafka.go makes of the messages of accepted requests.
use cloud_ops_manager.Common.{
  inr, inl, null, Bool-cases, ℕ, Bool, suc, ◌+◌, ◌≡◌, refl, ap, ◌∙◌, sym, true, false, some, List,
  [], ◌∷◌, ◌++◌, if◌then◌else◌, null, Bool-cases, inl, inr, Result, ok, err, arith, map, length,
  append_assoc, append-nil,
}
use cloud_ops_manager.Text.{Text}
use cloud_ops_manager.Domain.Errors.{GoError}
use cloud_ops_manager.Domain.Model.{ProvisionRequest}
use cloud_ops_manager.Logging.{Entry, entry, field, text, number, texts, info, warn}
use cloud_ops_manager.Provisioner.Request.{
  Request, ParseError, is_blank, parse, split, has_work, resource_types,
}
use cloud_ops_manager.Provisioner.Dispatch.{
  Span, split_span, dispatch, dispatch_parsed, scaffold_entry, infra_entry,
}
use cloud_ops_manager.Provisioner.Kafka.{
  KafkaMessage, KafkaConfig, Reader, World, process, fetched, round, run_loop, run_kafka, started,
  finish, closed,
}
use cloud_ops_manager.Http.Validation.{FieldError}
use cloud_ops_manager.Contract.{Tag, Validator, carried}
use cloud_ops_manager.Contract.Understood.{name_not_blank, dispatch_lem}

-- The work of a request, as the provisioner hands it over: an entry for the scaffold, one for the
-- resources, and the span of the split. They are written out here from the request alone.
abbrev pub scaffold_work : Request → Entry
scaffold_work r = entry info "scaffold work" (
    field "request_id" (text r.request_id)
    ∷ field "application_name" (text r.application.name)
    ∷ field "template" (text r.application.template)
    ∷ field "owner" (text r.application.owner)
    ∷ [])

abbrev pub infra_work : Request → Entry
infra_work r =
    if null r.resources
    then entry info "no infrastructure work" (
        field "request_id" (text r.request_id)
        ∷ field "application_name" (text r.application.name)
        ∷ [])
    else entry info "infrastructure work" (
        field "request_id" (text r.request_id)
        ∷ field "application_name" (text r.application.name)
        ∷ field "resource_count" (number (length r.resources))
        ∷ field "resource_types" (texts (map (λ x. x.resource_type) r.resources))
        ∷ [])

abbrev pub work_span : Request → Span
work_span r = record {
  name = "SplitProvisionRequest";
  attributes =
      field "provision.request_id" (text r.request_id)
      ∷ field "provision.application" (text r.application.name)
      ∷ field "provision.template" (text r.application.template)
      ∷ field "provision.resource_count" (number (length r.resources))
      ∷ [];
}

-- What the consumer writes for a message that holds a request.
abbrev pub written_for : KafkaMessage → Request → List Entry
written_for m r =
    entry info "received message" (field "body" (text m.value) ∷ [])
    ∷ scaffold_work r
    ∷ infra_work r
    ∷ entry info "message committed" []
    ∷ []

abbrev pub all_written : List KafkaMessage → List Request → List Entry
all_written (m ∷ ms) (r ∷ rs) = written_for m r ++ all_written ms rs
all_written _ _ = []

-- What a consumer has done: its log, its spans, the errors of its spans, and its counters.
abbrev pub Progress : {S : Type 0} → World S → List Request → List Entry → World S → Type 0
Progress w rs entries w' =
    (w'.sink.logs ≡ w.sink.logs ++ entries)
    × (w'.sink.spans ≡ w.sink.spans ++ map work_span rs)
    × (w'.span_errors ≡ w.span_errors)
    × (w'.received ≡ w.received + length rs)
    × (w'.processed ≡ w.processed + length rs)
    × (w'.failed ≡ w.failed)

-- What RunKafka writes before its loop, and behind it for an answer to Close.
abbrev pub opening : KafkaConfig → List Entry
opening cfg =
    entry info "consuming messages from Kafka"
      (field "topic" (text cfg.topic) ∷ field "group" (text cfg.group_id) ∷ [])
    ∷ []

abbrev pub closing : Result Text Unit → List Entry
closing (ok _) = []
closing (err e) = entry warn "failed to close Kafka reader" (field "error" (text e) ∷ []) ∷ []

infra_same : (r : Request) → infra_entry (split r).1 ≡ infra_work r
unfolding infra_entry split has_work resource_types
infra_same r = elim (Bool-cases (null r.resources)) [ inl e ↦ rw e refl | inr e ↦ rw e refl ]

split_span_same : (r : Request) → split_span r ≡ work_span r
unfolding split_span split
split_span_same r = refl

four_written :
    (es : List Entry) (a b c d : Entry)
    → (((es ++ a ∷ []) ++ b ∷ []) ++ c ∷ []) ++ d ∷ [] ≡ es ++ a ∷ b ∷ c ∷ d ∷ []
four_written es a b c d = simp (append_assoc) refl

module _ {S E : Type 0} (reader : Reader S) (unmarshal : Text → Result E Request)
    (explain : ParseError E → Text) where
  -- The reader hands out these messages, takes their commits, and then the context is cancelled.
  pub data Serves : S → List KafkaMessage → Type 0 where
    ended : {s : S} → reader.cancelled s ≡ true → Serves s []
    next :
        {s s₁ s₂ : S} {m : KafkaMessage} {ms : List KafkaMessage}
        → reader.cancelled s ≡ false
        → reader.fetch s ≡ (ok m, s₁)
        → reader.commit m s₁ ≡ (ok tt, s₂)
        → Serves s₂ ms
        → Serves s (m ∷ ms)

  -- The messages that parse as these requests, in this order.
  abbrev pub Parses : List KafkaMessage → List Request → Type 0
  Parses [] [] = Unit
  Parses (m ∷ ms) (r ∷ rs) = (parse unmarshal m.value ≡ ok r) × Parses ms rs
  Parses _ _ = ⊥

  process_understood :
      (m : KafkaMessage) (r : Request) (s₂ : S) (w : World S)
      → parse unmarshal m.value ≡ ok r
      → reader.commit m w.env ≡ (ok tt, s₂)
      → let w' = process reader unmarshal explain m w in
        (w'.env ≡ s₂) × Progress w (r ∷ []) (written_for m r) w'
  unfolding process dispatch dispatch_parsed scaffold_entry split
  process_understood m r s₂ w p c =
      rw (p, c)
        (
          refl,
          (
            rw (← infra_same r) (four_written w.sink.logs _ _ _ _),
            rw (← split_span_same r) refl,
            refl,
            refl,
            refl,
            refl,
          ),
        )

  Progress-next :
      (r : Request) (rs : List Request) (es es' : List Entry) (w w₁ w₂ : World S)
      → Progress w (r ∷ []) es w₁
      → Progress w₁ rs es' w₂
      → Progress w (r ∷ rs) (es ++ es') w₂
  Progress-next r rs es es' w w₁ w₂ (logs, spans, errors, received, processed, failed)
        (logs', spans', errors', received', processed', failed') =
      (
        logs' ∙ (rw logs (append_assoc w.sink.logs es es')),
        spans' ∙ (rw spans (append_assoc w.sink.spans (work_span r ∷ []) (map work_span rs))),
        errors' ∙ errors,
        omega (arith, received, received'),
        omega (arith, processed, processed'),
        failed' ∙ failed,
      )

  round_processes :
      (m : KafkaMessage) (s₁ : S) (w : World S)
      → reader.fetch w.env ≡ (ok m, s₁)
      → round reader unmarshal explain w
        ≡ process reader unmarshal explain m (record w { env = s₁ })
  unfolding round fetched
  round_processes m s₁ w f = rw f refl

  run_loop_stops :
      (fuel : ℕ) (w : World S)
      → reader.cancelled w.env ≡ true
      → run_loop reader unmarshal explain (suc fuel) w ≡ some w
  unfolding run_loop
  run_loop_stops fuel w h = rw h refl

  run_loop_goes :
      (fuel : ℕ) (w : World S)
      → reader.cancelled w.env ≡ false
      → run_loop reader unmarshal explain (suc fuel) w
        ≡ run_loop reader unmarshal explain fuel (round reader unmarshal explain w)
  unfolding run_loop
  run_loop_goes fuel w h = rw h refl

  loop_processes :
      {s : S} {ms : List KafkaMessage}
      → Serves s ms
      → (rs : List Request) → Parses ms rs
      → (w : World S) → w.env ≡ s
      → (w' : World S) × (run_loop reader unmarshal explain (suc (length ms)) w ≡ some w')
        × Progress w rs (all_written ms rs) w'
  loop_processes (ended stop) [] p w e = (
    w,
    run_loop_stops 0 w (rw e stop),
    (
      sym (append-nil w.sink.logs),
      sym (append-nil w.sink.spans),
      refl,
      omega arith,
      omega arith,
      refl,
    ),
  )
  loop_processes (ended stop) (r ∷ rs) p w e = absurd p
  loop_processes (next more f c rest) [] p w e = absurd p
  loop_processes (next {s₁ = s₁} {s₂ = s₂} {m = m} {ms = ms} more f c rest) (r ∷ rs) (p, ps) w e =
      let w₁ = process reader unmarshal explain m (record w { env = s₁ }) in
      let (env, step) = process_understood m r s₂ (record w { env = s₁ }) p c in
      let (w₂, loops, steps) = loop_processes rest rs ps w₁ env in
      (
        w₂,
        run_loop_goes (suc (length ms)) w (rw e more)
            ∙ (rw (round_processes m s₁ w (rw e f)) loops),
        Progress-next r rs (written_for m r) (all_written ms rs) w w₁ w₂ step steps,
      )

  started-Progress :
      (rs : List Request) (es : List Entry) (answer : Result Text Unit) (cfg : KafkaConfig)
      (w w' : World S)
      → Progress (started cfg w) rs es w'
      → Progress w rs (opening cfg ++ (es ++ closing answer)) (closed answer w')
  started-Progress rs es (ok _) cfg w w' (logs, spans, errors, received, processed, failed) =
      (rw logs (simp (append_assoc, append-nil) refl), spans, errors, received, processed, failed)
  started-Progress rs es (err e) cfg w w' (logs, spans, errors, received, processed, failed) =
      (rw logs (simp (append_assoc) refl), spans, errors, received, processed, failed)

  run_processes :
      (ms : List KafkaMessage) (rs : List Request) (cfg : KafkaConfig) (w : World S)
      → Serves w.env ms
      → Parses ms rs
      → (w' : World S) × (answer : Result Text Unit) × (run_kafka reader unmarshal explain
            (suc (length ms))
            cfg
            w
          ≡ some w')
        × Progress w rs (opening cfg ++ (all_written ms rs ++ closing answer)) w'
  unfolding run_kafka
  run_processes ms rs cfg w serves parses =
      let (w₁, loops, progress) = loop_processes serves rs parses (started cfg w) refl in
      let (answer, env) = reader.close w₁.env in
      (
        closed answer (record w₁ { env = env }),
        answer,
        ap (finish reader unmarshal explain) loops,
        started-Progress rs (all_written ms rs) answer cfg w (record w₁ { env = env }) progress,
      )

module _ {E : Type 0} (check : ProvisionRequest → List FieldError) (passes : Tag → Text → Bool)
    (validator : Validator check passes) (marshal : ProvisionRequest → Result GoError Text)
    (unmarshal : Text → Result E Request)
    (json : (r : ProvisionRequest) (body : Text)
      → marshal r ≡ ok body
      → unmarshal body ≡ ok (carried r))
    (explain : ParseError E → Text) where
  -- The request under the id that the server gave it.
  abbrev pub under : ProvisionRequest × Text → ProvisionRequest
  under (r, id) = record r { request_id = id }

  -- The messages of accepted requests with their ids, in this order: each request passed
  -- validation, its template holds more than white space, and the message is its document.
  abbrev pub OnTopic : List (ProvisionRequest × Text) → List KafkaMessage → Type 0
  OnTopic [] [] = Unit
  OnTopic (p ∷ ps) (m ∷ ms) =
      ((check p.0 ≡ [])
        × (is_blank p.1 ≡ false)
        × (is_blank p.0.application.template ≡ false)
        × (marshal (under p) ≡ ok m.value))
      × OnTopic ps ms
  OnTopic _ _ = ⊥

  OnTopic-Parses :
      {S : Type 0} (reader : Reader S) (ps : List (ProvisionRequest × Text))
      (ms : List KafkaMessage)
      → OnTopic ps ms
      → Parses reader unmarshal explain ms (map (λ p. carried (under p)) ps)
  OnTopic-Parses reader [] [] h = tt
  OnTopic-Parses reader (p ∷ ps) (m ∷ ms) ((valid, id, template, sent), h) = (
    (dispatch_lem explain unmarshal m.value (carried (under p)) (record { logs = []; spans = [] })
          (json (under p) m.value sent) id (name_not_blank check passes validator p.0 valid)).1.1
        template,
    OnTopic-Parses reader ps ms h,
  )
  OnTopic-Parses reader [] (m ∷ ms) h = absurd h
  OnTopic-Parses reader (p ∷ ps) [] h = absurd h

  -- Let the validator read its tags as documented and the two JSON codecs agree on the names; and
  -- let the Kafka reader hand out the messages of accepted requests whose templates hold more than
  -- white space, take their commits, and then find the context cancelled. Then RunKafka returns
  -- after one round for each message. For each request, as the API published it and in the order of
  -- the messages, it has written the scaffold work with name, template and owner, and the
  -- infrastructure work with the number and the types of its resources, or that there is none,
  -- between the receipt and the commit of its message, and nothing else but its first line and a
  -- failure of Close; there is one span of the split for each, no span has an error, all the
  -- messages are counted as received and as processed, and none as failed.
  pub accepted_are_processed :
      {S : Type 0} (reader : Reader S) (ps : List (ProvisionRequest × Text))
      (ms : List KafkaMessage) (cfg : KafkaConfig) (w : World S)
      → OnTopic ps ms
      → Serves reader unmarshal explain w.env ms
      → let rs = map (λ p. carried (under p)) ps in
        (w' : World S) × (answer : Result Text Unit) × (run_kafka reader unmarshal explain
            (suc (length ms))
            cfg
            w
          ≡ some w')
        × Progress w rs (opening cfg ++ (all_written ms rs ++ closing answer)) w'
  accepted_are_processed reader ps ms cfg w published serves =
      run_processes reader unmarshal explain ms (map (λ p. carried (under p)) ps) cfg w serves
        (OnTopic-Parses reader ps ms published)
