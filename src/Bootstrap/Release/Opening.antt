-- ===== src/Bootstrap/Release/Opening.antt =====
-- What is open after New.
use cloud_ops_manager.Common.{
  String, ◌≡◌, refl, sym, true, false, Option, some, none, Result, ok, err, if◌then◌else◌, null,
  Bool-cases, inl, inr,
}
use cloud_ops_manager.Text.{Text}
use cloud_ops_manager.Bootstrap.{
  Signal, logs, traces, metrics, new_exporter, merge_resource, load_default_config, ping,
  new_redis_client, Outside, Process, and_then, wrap, note, perform,
}
use cloud_ops_manager.Bootstrap.Infrastructure.{
  new_aws_clients, get_parameter, ask_parameter, parameter_value, new_redis, pinged,
}
use cloud_ops_manager.Bootstrap.Telemetry.{
  TelemetryConfig, attributes, new_resource, new_logs, new_metrics, new_tracing,
}
use cloud_ops_manager.Bootstrap.Release.Held.{
  Held, redis, writer, telemetry, held_eq, is_open, Same, Opened, Ends, Ends-and_then, Ends-ok,
  Ends-wrap, perform-Same,
}

module _ {S : Type 0} (outside : Outside S) where
  pub new_aws_clients-Same :
      (p q : Process S) → Same p q → Ends (λ a. Same p) (Same p) (new_aws_clients outside q)
  unfolding new_aws_clients
  new_aws_clients-Same p q h =
      Ends-wrap _ _ _ _ (perform-Same outside load_default_config p q refl refl h)

  new_resource-Same :
      (c : TelemetryConfig) (p q : Process S)
      → Same p q
      → Ends (λ a. Same p) (Same p) (new_resource outside c q)
  unfolding new_resource
  new_resource-Same c p q h =
      Ends-wrap _ _ _ _ (perform-Same outside (merge_resource (attributes c)) p q refl refl h)

  -- An exporter and the resource.
  pipeline-Same :
      (s : Signal) (what : String) (c : TelemetryConfig) (p : Process S) {A : Type 0}
      (Q : A → Process S → Type 0) (last : Process S → Result Text A × Process S)
      → ((q : Process S) → Same p q → Ends Q (Same p) (last q))
      → Ends Q (Same p) (
          and_then
            (wrap what (perform outside (new_exporter s) p))
            (λ _ p₁. and_then (new_resource outside c p₁) (λ _ p₂. last p₂)))
  pipeline-Same s what c p Q last h =
      Ends-and_then (λ a. Same p) Q (Same p) _ _
        (Ends-wrap _ _ _ _ (perform-Same outside (new_exporter s) p p refl refl (λ r. refl)))
        (λ _ p₁ e.
          Ends-and_then (λ a. Same p) Q (Same p) _ _ (new_resource-Same c p p₁ e)
            (λ _ p₂ e₂. h p₂ e₂))

  pub new_logs-Opened :
      (c : TelemetryConfig) (p : Process S)
      → Ends (λ a. Opened (telemetry logs) p) (Same p) (new_logs outside c p)
  unfolding new_logs
  new_logs-Opened c p =
      pipeline-Same logs _ c p (λ a. Opened (telemetry logs) p) _
        (λ q h. Ends-ok _ _ _ _ (λ r. rw (h r) refl))

  pub new_metrics-Opened :
      (c : TelemetryConfig) (p : Process S)
      → Ends (λ a. Opened (telemetry metrics) p) (Same p) (new_metrics outside c p)
  unfolding new_metrics
  new_metrics-Opened c p =
      pipeline-Same metrics _ c p (λ a. Opened (telemetry metrics) p) _
        (λ q h. Ends-ok _ _ _ _ (λ r. rw (h r) refl))

  pub new_tracing-Opened :
      (c : TelemetryConfig) (p : Process S)
      → Ends (λ a. Opened (telemetry traces) p) (Same p) (new_tracing outside c p)
  unfolding new_tracing
  new_tracing-Opened c p =
      pipeline-Same traces _ c p (λ a. Opened (telemetry traces) p) _
        (λ q h. Ends-ok _ _ _ _ (λ r. rw (h r) refl))

  -- A client that does not answer the ping is closed again.
  pub new_redis-Opened :
      (addr : Text) (p : Process S)
      → is_open redis p.events ≡ false
      → Ends (λ a. Opened redis p) (Same p) (new_redis outside addr p)
  unfolding new_redis Ends
  new_redis-Opened addr p closed = elim (Bool-cases (null addr)) [
    | inl e ↦ rw e (λ r. refl)
    | inr e ↦ rw e (go (perform outside ping (note (new_redis_client addr) p)) (λ r. refl))
  ]
    where
      go :
          (q : Result Text Unit × Process S)
          → Opened redis p q.1
          → Ends (λ a. Opened redis p) (Same p) (pinged outside q)
      go (ok u, q) h = h
      go (err e, q) h = λ r. rw (h r) (twice r)
        where
          twice :
              (r : Held)
              → (if held_eq redis r
                  then false
                  else (if held_eq redis r then true else is_open r p.events))
                ≡ is_open r p.events
          twice redis = sym closed
          twice writer = refl
          twice (telemetry s) = refl

  pub get_parameter-Same :
      (key : Text) (p q : Process S)
      → Same p q
      → Ends (λ a. Same p) (Same p) (get_parameter outside key q)
  unfolding get_parameter Ends
  get_parameter-Same key p q h = go (ask_parameter outside key false q) h
    where
      go :
          (a : Result Text (Option Text) × Process S)
          → Same p a.1
          → Ends (λ a. Same p) (Same p) (parameter_value outside "failed to get parameter " key a)
      go (ok none, q) h = h
      go (ok (some v), q) h = h
      go (err e, q) h = h
