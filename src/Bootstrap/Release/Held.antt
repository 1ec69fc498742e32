-- ===== src/Bootstrap/Release/Held.antt =====
-- Which of Redis, the Kafka writer and the telemetry is open after some calls.
use cloud_ops_manager.Common.{
  String, ◌≡◌, Bool, true, false, Option, some, none, List, [], ◌∷◌, Result, ok, err, if◌then◌else◌,
}
use cloud_ops_manager.Text.{Text}
use cloud_ops_manager.Bootstrap.{
  Signal, logs, traces, metrics, Call, new_redis_client, close_redis, new_writer, close_writer,
  set_provider, shutdown_provider, Event, Outside, Process, Step, and_then, wrap, perform,
}
use cloud_ops_manager.Bootstrap.Wiring.{Application}
use cloud_ops_manager.Bootstrap.Server.{is_closer}

pub data Held : Type 0 where
  redis writer : Held
  telemetry : Signal → Held

abbrev pub held_eq : Held → Held → Bool
held_eq redis redis = true
held_eq writer writer = true
held_eq (telemetry logs) (telemetry logs) = true
held_eq (telemetry traces) (telemetry traces) = true
held_eq (telemetry metrics) (telemetry metrics) = true
held_eq _ _ = false

abbrev pub opened_by : Call → Option Held
opened_by (new_redis_client addr) = some redis
opened_by (new_writer brokers topic) = some writer
opened_by (set_provider s) = some (telemetry s)
opened_by _ = none

abbrev pub closed_by : Call → Option Held
closed_by close_redis = some redis
closed_by close_writer = some writer
closed_by (shutdown_provider s) = some (telemetry s)
closed_by _ = none

abbrev pub is_it : Option Held → Held → Bool
is_it none r = false
is_it (some h) r = held_eq h r

-- Events are newest first. An attempt to close counts as closing.
abbrev pub is_open : Held → List Event → Bool
is_open r [] = false
is_open r (e ∷ es) =
    let before = is_open r es in
    if is_it (opened_by e.call) r
    then true
    else if is_it (closed_by e.call) r
    then false
    else before

-- What an application is there to close.
abbrev pub has : Held → Application → Bool
has redis a = a.redis_client
has writer a = is_closer a.resource_publisher
has (telemetry logs) a = a.logs
has (telemetry traces) a = a.tracing
has (telemetry metrics) a = a.metrics

module _ {S : Type 0} where
  -- The application knows exactly what is open.
  abbrev pub Matches : Application → Process S → Type 0
  Matches a p = (r : Held) → is_open r p.events ≡ has r a

  abbrev pub Same : Process S → Process S → Type 0
  Same p q = (r : Held) → is_open r q.events ≡ is_open r p.events

  abbrev pub Opened : Held → Process S → Process S → Type 0
  Opened h p q =
      (r : Held) → is_open r q.events ≡ (if held_eq h r then true else is_open r p.events)

  -- What holds at the end of a step, by how it ended.
  unfoldable pub Ends :
      {A : Type 0}
      → (A → Process S → Type 0)
      → (Process S → Type 0)
      → Result Text A × Process S
      → Type 0
  Ends P F (ok a, p) = P a p
  Ends P F (err e, p) = F p

  pub Ends-and_then :
      {A B : Type 0} (P : A → Process S → Type 0) (Q : B → Process S → Type 0)
      (F : Process S → Type 0) (q : Result Text A × Process S) (f : A → Step S B)
      → Ends P F q
      → ((a : A) (p : Process S) → P a p → Ends Q F (f a p))
      → Ends Q F (and_then q f)
  unfolding Ends and_then
  Ends-and_then P Q F (ok a, p) f h k = k a p h
  Ends-and_then P Q F (err e, p) f h k = h

  pub Ends-wrap :
      {A : Type 0} (P : A → Process S → Type 0) (F : Process S → Type 0) (what : String)
      (q : Result Text A × Process S)
      → Ends P F q
      → Ends P F (wrap what q)
  unfolding Ends wrap
  Ends-wrap P F what (ok a, p) h = h
  Ends-wrap P F what (err e, p) h = h

  pub Ends-weaken :
      {A : Type 0} (P Q : A → Process S → Type 0) (F G : Process S → Type 0)
      (q : Result Text A × Process S)
      → Ends P F q
      → ((a : A) (p : Process S) → P a p → Q a p)
      → ((p : Process S) → F p → G p)
      → Ends Q G q
  unfolding Ends
  Ends-weaken P Q F G (ok a, p) h k l = k a p h
  Ends-weaken P Q F G (err e, p) h k l = l p h

  pub Ends-ok :
      {A : Type 0} (P : A → Process S → Type 0) (F : Process S → Type 0) (a : A) (p : Process S)
      → P a p
      → Ends P F (ok a, p)
  unfolding Ends
  Ends-ok P F a p h = h

  pub Ends-end :
      {A : Type 0} (F : Process S → Type 0) (q : Result Text A × Process S)
      → Ends (λ a. F) F q
      → F q.1
  unfolding Ends
  Ends-end F (ok a, p) h = h
  Ends-end F (err e, p) h = h

  -- However the step ends.
  pub Ends-always :
      {A : Type 0} (F : Process S → Type 0) (q : Result Text A × Process S)
      → F q.1
      → Ends (λ a. F) F q
  unfolding Ends
  Ends-always F (ok a, p) h = h
  Ends-always F (err e, p) h = h

  -- A call that neither opens nor closes anything.
  pub perform-Same :
      (outside : Outside S) (c : Call) (p q : Process S)
      → opened_by c ≡ none
      → closed_by c ≡ none
      → Same p q
      → Ends (λ a. Same p) (Same p) (perform outside c q)
  perform-Same outside c p q o k h =
      Ends-always (Same p) (perform outside c q) (λ r. rw o (rw k (h r)))
