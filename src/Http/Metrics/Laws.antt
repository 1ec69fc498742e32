-- ===== src/Http/Metrics/Laws.antt =====
-- The gauge of the requests in flight.
use cloud_ops_manager.Common.{
  ℕ, suc, String, ◌≡◌, refl, sym, ◌∙◌, false, some, str_eq, Bool-cases, inl, inr, str_eq_iff,
}
use cloud_ops_manager.Http.Writer.{World, Handler}
use cloud_ops_manager.Http.Metrics.{
  Gauge, metrics_path, normalize_method, on_env, active_requests_middleware,
}

-- What the gauge shows for a method: Add moves that of its method, and of no other.
pub record GaugeLaws {S : Type 0} (gauge : Gauge S) (active : String → S → ℕ) : Type 0 where
  pub up : (m : String) (s : S) → active m (gauge.add_one m s) ≡ suc (active m s)
  pub down :
      (m : String) (n : ℕ) (s : S) → active m s ≡ suc n → active m (gauge.add_minus_one m s) ≡ n
  pub up_other :
      (m k : String) (s : S) → str_eq m k ≡ false → active k (gauge.add_one m s) ≡ active k s
  pub down_other :
      (m k : String) (s : S) → str_eq m k ≡ false → active k (gauge.add_minus_one m s) ≡ active k s

-- The world in which the handler of a counted request starts.
abbrev pub counted : {S : Type 0} → Gauge S → World S → World S
counted gauge w = on_env (gauge.add_one (normalize_method w.request.method)) w

module _ {S : Type 0} (gauge : Gauge S) (active : String → S → ℕ)
    (laws : GaugeLaws gauge active) where
  -- Down after up, whatever happened between them that left the gauge as it was.
  pub down_up :
      (m k : String) (s s' : S)
      → ((j : String) → active j s' ≡ active j (gauge.add_one m s))
      → active k (gauge.add_minus_one m s') ≡ active k s
  down_up m k s s' same = elim (Bool-cases (str_eq m k)) [
    | inl e ↦ rw (sym ((str_eq_iff m k).0 e)) (laws.down m _ s' (same m ∙ laws.up m s))
    | inr e ↦ laws.down_other m k s' e ∙ (same k ∙ laws.up_other m k s e)
  ]

  -- While the handler of a request runs, the gauge of the request's method shows one more. If the
  -- handler leaves the gauge as it found it, then after the request, also where the handler panics,
  -- the gauge shows for every method what it showed before. A scrape of the metrics is not counted.
  pub active_requests_balanced :
      (next : Handler S) (w : World S)
      → ((k : String) → active k (next (counted gauge w)).1.env ≡ active k (counted gauge w).env)
      → str_eq w.request.path metrics_path ≡ false
      → let m = normalize_method w.request.method in
        let (exit, done) = active_requests_middleware (some gauge) next w in
        (active m (counted gauge w).env ≡ suc (active m w.env))
        × ((k : String) → active k done.env ≡ active k w.env)
        × (exit ≡ (next (counted gauge w)).0)
        × (done.writer ≡ (next (counted gauge w)).1.writer)
  unfolding active_requests_middleware
  active_requests_balanced next w same h =
      let m = normalize_method w.request.method in
      rw h (laws.up m w.env, λ k. down_up m k w.env (next (counted gauge w)).1.env same, refl, refl)
