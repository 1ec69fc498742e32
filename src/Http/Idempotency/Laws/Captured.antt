-- ===== src/Http/Idempotency/Laws/Captured.antt =====
-- Which headers are kept with a response.
use cloud_ops_manager.Common.{
  String, ◌≡◌, ◌≢◌, refl, ◌∙◌, Option, some, none, List, [], ◌∷◌, arith, str_eq, str_eq_iff,
  if◌then◌else◌, lookup, Bool, Bool-cases, inl, inr, true, false,
}
use cloud_ops_manager.Http.Writer.{Headers, Writer, header_get, set_header}
use cloud_ops_manager.Http.Writer.Laws.{header_get-header_set}
use cloud_ops_manager.Http.Writer.Maps.{HasValues, Distinct, IsMap}
use cloud_ops_manager.Http.Idempotency.{
  captured, captured_headers, is_skipped, set_headers, idempotency_replay_header,
}

-- The first value of a header, if there is one.
abbrev pub first_value : Option (List String) → Option String
first_value none = none
first_value (some []) = none
first_value (some (v ∷ vs)) = some v

lookup-captured :
    (k j : String) (vs : List String) (out : List (String × String))
    → vs ≢ []
    → lookup k (captured j vs out) ≡ (
        if str_eq j k
        then (if is_skipped k then lookup k out else first_value (some vs))
        else lookup k out)
unfolding lookup
lookup-captured k j [] out h = absurd (h refl)
lookup-captured k j (v ∷ vs) out h = ground (arith, str_eq_iff j k)

captured_step :
    (k j : String) (vs : List String) (hs : Headers)
    → lookup k (captured_headers ((j, vs) ∷ hs)) ≡ lookup k (captured j vs (captured_headers hs))
unfolding captured_headers
captured_step k j vs hs = refl

captured_nil : (k : String) → lookup k (captured_headers []) ≡ none
unfolding captured_headers lookup
captured_nil k = refl

-- The kept headers are the response's first values, without the hop-by-hop and per-request
-- headers.
pub lookup-captured_headers :
    (k : String) (hs : Headers)
    → HasValues hs
    → lookup k (captured_headers hs) ≡ (if is_skipped k then none else first_value (lookup k hs))
unfolding lookup
lookup-captured_headers k [] h = ground (arith, captured_nil k)
lookup-captured_headers k ((j, vs) ∷ hs) (here, h) =
    captured_step k j vs hs
    ∙ ground
        (arith, lookup-captured k j vs (captured_headers hs) here, lookup-captured_headers k hs h)

captured-fresh :
    (k : String) (hs : Headers)
    → HasValues hs
    → lookup k hs ≡ none
    → lookup k (captured_headers hs) ≡ none
captured-fresh k hs values new = ground (arith, lookup-captured_headers k hs values)

-- The kept headers are a map again.
pub captured-Distinct : (hs : Headers) → HasValues hs → Distinct hs → Distinct (captured_headers hs)
unfolding captured_headers
captured-Distinct [] values h = tt
captured-Distinct ((j, []) ∷ hs) (value, values) (new, h) = captured-Distinct hs values h
captured-Distinct ((j, v ∷ vs) ∷ hs) (value, values) (new, h) = elim (Bool-cases (is_skipped j)) [
  | inl e ↦ rw e (captured-Distinct hs values h)
  | inr e ↦ rw e (captured-fresh j hs values new, captured-Distinct hs values h)
]

-- What setting the kept headers leaves of each name.
abbrev pub value_or : String → Option String → String
value_or old none = old
value_or old (some v) = v

set_over :
    (k j v old : String) (cs : List (String × String))
    → lookup j cs ≡ none
    → value_or (if str_eq j k then v else old) (lookup k cs)
      ≡ value_or old (if str_eq j k then some v else lookup k cs)
set_over k j v old cs new = elim (Bool-cases (str_eq j k)) [
  | inl e ↦ (let gone : lookup k cs ≡ none = rw (← (str_eq_iff j k).0 e) new in rw (e, gone) refl)
  | inr e ↦ rw e refl
]

pub get-set_headers :
    (k : String) (cs : List (String × String)) (w : Writer)
    → Distinct cs
    → header_get k (set_headers cs w).base.headers
      ≡ value_or (header_get k w.base.headers) (lookup k cs)
unfolding lookup
get-set_headers k [] w h = refl
get-set_headers k ((j, v) ∷ cs) w (new, h) =
    get-set_headers k cs (set_header j v w) h
    ∙ (unfold set_header in
        rw header_get-header_set (set_over k j v (header_get k w.base.headers) cs new))

-- What the client of a replay gets under each name, where the first response had the headers `hs`
-- and the writer of the retry has others: the mark; what is not kept, from the writer of the
-- retry; and else the first response's value, where it has one.
abbrev pub replayed_value : Headers → Headers → String → String
replayed_value hs own k =
    if str_eq idempotency_replay_header k
    then "true"
    else if is_skipped k
    then header_get k own
    else value_or (header_get k own) (first_value (lookup k hs))

-- The headers that a replay sends.
abbrev pub replayed_headers : List (String × String) → Writer → Headers
replayed_headers cs w =
    (set_header idempotency_replay_header "true" (set_headers cs w)).base.headers

pub get-replayed_headers :
    (hs : Headers) (w : Writer)
    → IsMap hs
    → (k : String)
    → header_get k (replayed_headers (captured_headers hs) w) ≡ replayed_value hs w.base.headers k
get-replayed_headers hs w m k =
    unfold set_header in
    rw header_get-header_set (
      rw (get-set_headers k (captured_headers hs) w (captured-Distinct hs m.values m.distinct))
        (rw (lookup-captured_headers k hs m.values) (skips (is_skipped k))))
  where
    skips :
        (b : Bool)
        → (if str_eq idempotency_replay_header k
            then "true"
            else value_or
                (header_get k w.base.headers)
                (if b then none else first_value (lookup k hs)))
          ≡ (if str_eq idempotency_replay_header k
              then "true"
              else if b
              then header_get k w.base.headers
              else value_or (header_get k w.base.headers) (first_value (lookup k hs)))
    skips true = refl
    skips false = refl
