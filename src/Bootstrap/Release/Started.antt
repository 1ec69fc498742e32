-- ===== src/Bootstrap/Release/Started.antt =====
-- What is open while New puts the application together.
use cloud_ops_manager.Common.{
  String, ◌≡◌, refl, sym, ap, ◌∙◌, true, false, List, Bool, Option, some, none, if◌then◌else◌, null,
  Bool-cases, inl, inr,
}
use cloud_ops_manager.Text.{Text}
use cloud_ops_manager.Config.{Config}
use cloud_ops_manager.Bootstrap.{logs, traces, metrics, Outside, Process, wrap, is_some}
use cloud_ops_manager.Bootstrap.Infrastructure.{get_parameter}
use cloud_ops_manager.Bootstrap.Wiring.{
  Application, blank, mux_panics, initialize_metrics, initialize_redis, load_runtime_config,
  redis_address, log_redis_address,
}
use cloud_ops_manager.Bootstrap.Server.{is_closer}
use cloud_ops_manager.Bootstrap.Start.{otlp_enabled, with_logs, with_tracing}
use cloud_ops_manager.Bootstrap.Release.Held.{
  Held, redis, writer, telemetry, held_eq, is_open, has, Matches, Same, Opened, Ends, Ends-and_then,
  Ends-wrap, Ends-weaken, Ends-ok,
}
use cloud_ops_manager.Bootstrap.Release.Opening.{
  new_logs-Opened, new_metrics-Opened, new_tracing-Opened, new_redis-Opened, get_parameter-Same,
}

logs_has :
    (a : Application) (r : Held)
    → has r (record a { logs = true }) ≡ (if held_eq (telemetry logs) r then true else has r a)
logs_has a redis = refl
logs_has a writer = refl
logs_has a (telemetry logs) = refl
logs_has a (telemetry traces) = refl
logs_has a (telemetry metrics) = refl

tracing_has :
    (a : Application) (r : Held)
    → has r (record a { tracing = true }) ≡ (if held_eq (telemetry traces) r then true else has r a)
tracing_has a redis = refl
tracing_has a writer = refl
tracing_has a (telemetry logs) = refl
tracing_has a (telemetry traces) = refl
tracing_has a (telemetry metrics) = refl

metrics_has :
    (a : Application) (r : Held)
    → has r (record a { metrics = true })
      ≡ (if held_eq (telemetry metrics) r then true else has r a)
metrics_has a redis = refl
metrics_has a writer = refl
metrics_has a (telemetry logs) = refl
metrics_has a (telemetry traces) = refl
metrics_has a (telemetry metrics) = refl

runtime_has :
    (a : Application) (url id addr : Text) (r : Held)
    → has r (record a { provisioner_queue_url = url; cognito_client_id = id; redis_addr = addr })
      ≡ has r a
runtime_has a url id addr redis = refl
runtime_has a url id addr writer = refl
runtime_has a url id addr (telemetry logs) = refl
runtime_has a url id addr (telemetry traces) = refl
runtime_has a url id addr (telemetry metrics) = refl

redis_has :
    (a : Application) (r : Held)
    → has r (record a { redis_client = true }) ≡ (if held_eq redis r then true else has r a)
redis_has a redis = refl
redis_has a writer = refl
redis_has a (telemetry logs) = refl
redis_has a (telemetry traces) = refl
redis_has a (telemetry metrics) = refl

blank_has : (cfg : Config) (r : Held) → has r (blank cfg) ≡ false
blank_has cfg redis = refl
blank_has cfg writer = refl
blank_has cfg (telemetry logs) = refl
blank_has cfg (telemetry traces) = refl
blank_has cfg (telemetry metrics) = refl

module _ {S : Type 0} where
  -- Before Redis and the publisher.
  abbrev pub Early : Config → Application → Process S → Type 0
  Early cfg a p =
      (Matches a p × (a.config ≡ cfg)) × (a.redis_client ≡ false) × (a.resource_publisher ≡ none)

  -- Neither Redis nor the writer is open.
  abbrev pub Calm : Process S → Type 0
  Calm p = (is_open redis p.events ≡ false) × (is_open writer p.events ≡ false)

  -- What New ends with: an application that has a server and is there to close what is open, or a
  -- panic at the patterns of the configuration.
  abbrev pub Ready : (List Text → Bool) → Config → Option Application → Process S → Type 0
  Ready handles cfg none p = mux_panics handles cfg ≡ true
  Ready handles cfg (some a) p = Matches a p × (is_some a.server ≡ true)

  Opened-Matches :
      (h : Held) (a b : Application) (p q : Process S)
      → Matches a p
      → Opened h p q
      → ((r : Held) → has r b ≡ (if held_eq h r then true else has r a))
      → Matches b q
  Opened-Matches h a b p q m o k r = o r ∙ rw (m r) (sym (k r))

  pub Early-Calm :
      (cfg : Config) (a : Application) (p q : Process S) → Early cfg a p → Same p q → Calm q
  Early-Calm cfg a p q ((m, _), client, publisher) s =
      (s redis ∙ (m redis ∙ client), s writer ∙ (m writer ∙ ap is_closer publisher))

module _ {S : Type 0} (outside : Outside S) (path : Text) (cfg : Config) where
  pub with_logs-Early :
      (p : Process S)
      → ((r : Held) → is_open r p.events ≡ false)
      → Ends (Early cfg) Calm (with_logs outside path cfg p)
  with_logs-Early p closed = elim (Bool-cases (otlp_enabled cfg)) [
    | inl e ↦ rw e (
        Ends-wrap (Early cfg) Calm _ _ (
          Ends-and_then (λ a. Opened (telemetry logs) p) (Early cfg) Calm _ _
            (Ends-weaken (λ a. Opened (telemetry logs) p) _ (Same p) Calm _
              (new_logs-Opened outside _ p) (λ _ q o. o)
              (λ q s. (s redis ∙ closed redis, s writer ∙ closed writer)))
            (λ _ q o. Ends-ok (Early cfg) Calm _ q (
              (
                Opened-Matches (telemetry logs) (blank cfg) _ p q bare o (logs_has (blank cfg)),
                refl,
              ),
              refl,
              refl,
            ))))
    | inr e ↦ rw e (Ends-ok (Early cfg) Calm _ p ((bare, refl), refl, refl))
  ]
    where
      bare : Matches (blank cfg) p
      bare r = closed r ∙ sym (blank_has cfg r)

  pub with_tracing-Early :
      (a : Application) (p : Process S)
      → Early cfg a p
      → Ends (Early cfg) Calm (with_tracing outside path a p)
  with_tracing-Early a p early = elim (Bool-cases (otlp_enabled a.config)) [
    | inl e ↦ rw e (
        Ends-and_then (λ _. Opened (telemetry traces) p) (Early cfg) Calm _ _
          (Ends-wrap _ _ _ _ (
            Ends-weaken (λ _. Opened (telemetry traces) p) _ (Same p) Calm _
              (new_tracing-Opened outside _ p) (λ _ q o. o) (λ q s. Early-Calm cfg a p q early s)))
          (λ _ q o. Ends-ok (Early cfg) Calm _ _ (
            (Opened-Matches (telemetry traces) a _ p q early.0.0 o (tracing_has a), early.0.1),
            early.1,
            early.2,
          )))
    | inr e ↦ rw e (Ends-ok (Early cfg) Calm _ p early)
  ]

  pub initialize_metrics-Early :
      (a : Application) (p : Process S)
      → Early cfg a p
      → Ends (Early cfg) Calm (initialize_metrics outside a p)
  unfolding initialize_metrics
  initialize_metrics-Early a p early =
      Ends-and_then (λ _. Opened (telemetry metrics) p) (Early cfg) Calm _ _
        (Ends-weaken (λ _. Opened (telemetry metrics) p) _ (Same p) Calm _
          (new_metrics-Opened outside _ p) (λ _ q o. o) (λ q s. Early-Calm cfg a p q early s))
        (λ _ q o. Ends-ok (Early cfg) Calm _ _ (
          (Opened-Matches (telemetry metrics) a _ p q early.0.0 o (metrics_has a), early.0.1),
          early.1,
          early.2,
        ))

  pub load_runtime_config-Early :
      (a : Application) (p : Process S)
      → Early cfg a p
      → Ends (Early cfg) Calm (load_runtime_config outside a p)
  unfolding load_runtime_config
  load_runtime_config-Early a p early =
      Ends-and_then (λ _. Same p) (Early cfg) Calm _ _ (found _ _ _ (λ r. refl))
        (λ url p₁ s₁.
          Ends-and_then (λ _. Same p) (Early cfg) Calm _ _ (found _ _ _ s₁)
            (λ id p₂ s₂.
              Ends-and_then (λ _. Same p) (Early cfg) Calm _ _ (address _ s₂)
                (λ addr p₃ s₃. Ends-ok (Early cfg) Calm _ _ (
                  (
                    λ r. said addr p₃ s₃ r ∙ (early.0.0 r ∙ sym (runtime_has a url id addr r)),
                    early.0.1,
                  ),
                  early.1,
                  early.2,
                ))))
    where
      calm : (q : Process S) → Same p q → Calm q
      calm q s = Early-Calm cfg a p q early s

      found :
          (what : String) (key : Text) (q : Process S)
          → Same p q
          → Ends (λ _. Same p) Calm (wrap what (get_parameter outside key q))
      found what key q s = Ends-wrap _ _ _ _ (
          Ends-weaken (λ _. Same p) _ (Same p) Calm _ (get_parameter-Same outside key p q s)
            (λ _ q o. o) calm)

      said : (addr : Text) (q : Process S) → Same p q → Same p (log_redis_address outside addr q)
      said addr q s r = elim (Bool-cases (null addr)) [ inl e ↦ rw e (s r) | inr e ↦ rw e (s r) ]

      address : (q : Process S) → Same p q → Ends (λ _. Same p) Calm (redis_address outside a q)
      address q s = elim (Bool-cases (null a.config.idempotency.redis_addr)) [
        | inl e ↦ rw e (elim (Bool-cases (null a.config.aws.redis_addr_param_key)) [
          | inl k ↦ rw k (Ends-ok _ _ _ q s)
          | inr k ↦ rw k (found _ _ q s)
        ])
        | inr e ↦ rw e (Ends-ok _ _ _ q s)
      ]

  -- The application before its services: Redis may be open, and there is no publisher.
  abbrev pub Connected : Application → Process S → Type 0
  Connected a p = (Matches a p × (a.config ≡ cfg)) × (a.resource_publisher ≡ none)

  pub initialize_redis-Connected :
      (a : Application) (p : Process S)
      → Early cfg a p
      → Ends Connected Calm (initialize_redis outside a p)
  unfolding initialize_redis
  initialize_redis-Connected a p early = elim (Bool-cases (null a.redis_addr)) [
    | inl e ↦ rw e (Ends-ok Connected Calm _ _ (early.0, early.2))
    | inr e ↦ rw e (
        Ends-and_then (λ _. Opened redis p) Connected Calm _ _
          (Ends-weaken (λ _. Opened redis p) _ (Same p) Calm _
            (new_redis-Opened outside _ p (early.0.0 redis ∙ early.1)) (λ _ q o. o)
            (λ q s. Early-Calm cfg a p q early s))
          (λ _ q o.
            Ends-ok Connected Calm _ _
              ((Opened-Matches redis a _ p q early.0.0 o (redis_has a), early.0.1), early.2)))
  ]
