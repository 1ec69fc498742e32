-- ===== src/Provisioner/Propagation/Tests.antt =====
-- A trace context, and baggage that is set twice.
use cloud_ops_manager.Common.{String, ◌≡◌, refl, List, [], ◌∷◌}
use cloud_ops_manager.Text.{Text, codes}
use cloud_ops_manager.Publish.Carriers.{kafka_set, sqs_set}
use cloud_ops_manager.Provisioner.Propagation.{
  TextMapCarrier, extract_kafka, extract_sqs, set_all, arriving, extracted_is_injected,
}

abbrev fields : List (String × Text)
fields = ("traceparent", codes "00-1") ∷ ("baggage", codes "a=1") ∷ ("baggage", codes "a=2") ∷ []

-- The context is the trace and the baggage.
abbrev extract : TextMapCarrier → Text × Text → Text × Text
extract c ctx = (c.get "traceparent", c.get "baggage")

extracted_is_injected_example :
    (extract_kafka extract ([], []) (set_all kafka_set fields []) ≡ (codes "00-1", codes "a=2"))
    × (extract_sqs extract ([], []) (arriving (set_all sqs_set fields []))
        ≡ (codes "00-1", codes "a=2"))
extracted_is_injected_example =
    extracted_is_injected extract (λ c c' x h. rw (h "traceparent", h "baggage") refl) ([], [])
      fields
