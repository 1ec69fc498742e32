-- ===== src/Provisioner/Request/Laws.antt =====
-- What Parse accepts and reports, and that Split loses nothing but the requester.
use cloud_ops_manager.Common.{
  String, ◌≡◌, refl, ◌↔◌, Bool, true, false, List, Result, ok, err, arith, any, str_eq, ◌++◌,
}
use cloud_ops_manager.Text.{Text}
use cloud_ops_manager.Provisioner.Request.{
  Request, missing, missing_fields, missing_if, is_blank, parse, split,
}

abbrev listed : Bool → Bool → Bool → List String
listed a b c =
    missing_if a "request_id"
    ++ (missing_if b "application.name" ++ missing_if c "application.template")

-- Each name stands in the list exactly when its own test says so.
listed-any :
    (a b c : Bool)
    → (any (str_eq "request_id") (listed a b c) ≡ a)
      × (any (str_eq "application.name") (listed a b c) ≡ b)
      × (any (str_eq "application.template") (listed a b c) ≡ c)
listed-any true true true = (refl, refl, refl)
listed-any true true false = (refl, refl, refl)
listed-any true false true = (refl, refl, refl)
listed-any true false false = (refl, refl, refl)
listed-any false true true = (refl, refl, refl)
listed-any false true false = (refl, refl, refl)
listed-any false false true = (refl, refl, refl)
listed-any false false false = (refl, refl, refl)

module _ {E : Type 0} (unmarshal : Text → Result E Request) (body : Text) where
  -- A message is parsed exactly when it decodes and the request id, the application's name and the
  -- template each hold more than white space; the request is the decoded one, unchanged.
  pub parse_iff :
      (r : Request)
      → (parse unmarshal body ≡ ok r) ↔ (
          (unmarshal body ≡ ok r)
          × (is_blank r.request_id ≡ false)
          × (is_blank r.application.name ≡ false)
          × (is_blank r.application.template ≡ false))
  unfolding parse missing_fields
  parse_iff r = (λ h. ground arith, λ h. ground arith)

  -- When the decoded request misses fields, the error names a field exactly when that field is
  -- blank.
  pub parse_missing :
      (r : Request) (fields : List String)
      → unmarshal body ≡ ok r
      → parse unmarshal body ≡ err (missing fields)
      → (any (str_eq "request_id") fields ≡ is_blank r.request_id)
        × (any (str_eq "application.name") fields ≡ is_blank r.application.name)
        × (any (str_eq "application.template") fields ≡ is_blank r.application.template)
  unfolding parse missing_fields
  parse_missing r fields h k =
      let same : fields ≡ missing_fields r = ground arith in
      rw same (
        listed-any (is_blank r.request_id) (is_blank r.application.name)
          (is_blank r.application.template))

-- Two requests that split into the same halves differ at most in who requested them.
split-injective : (r q : Request) → split r ≡ split q → r.requested_by ≡ q.requested_by → r ≡ q
unfolding split
split-injective r q h k = ground arith
