-- ===== src/Productions/State/Ready.antt =====
-- When a production may go live.
use live_ops_backend.Prelude.{
  ◌≡◌, refl, Bool, true, Option, none, some, arith, ap, ok, In, any→In, In→any, ◌↔◌, subst,
}
use live_ops_backend.Productions.State.{
  EngineType, Production, obs, vmix, app, validate_engine_connection, validate_engine_for, enabled,
}

-- The connection that the production's engine needs is there and enabled.
pub data IsReady (p : Production) : Type 0 where
  through_obs : p.engine_type ≡ obs → In true p.obs_connections → IsReady p
  through_vmix : p.engine_type ≡ vmix → p.vmix_connection ≡ some true → IsReady p
  without_connection : p.engine_type ≡ app → IsReady p

enabled→some : (o : Option Bool) → enabled o ≡ true → o ≡ some true
enabled→some none h = cc h
enabled→some (some b) h = ap some h

validate_engine_for→IsReady :
    (p : Production) (e : EngineType)
    → p.engine_type ≡ e
    → validate_engine_for e p ≡ ok tt
    → IsReady p
validate_engine_for→IsReady p obs same h =
    let (b, m, on) = any→In (λ b. b) p.obs_connections (ground (arith, h)) in
    through_obs same (subst (λ x. In x p.obs_connections) on m)
validate_engine_for→IsReady p vmix same h =
    through_vmix same (enabled→some p.vmix_connection (ground (arith, h)))
validate_engine_for→IsReady p app same h = without_connection same

-- The check of the engine passes exactly where it is ready.
pub validate_engine_connection_iff :
    (p : Production) → (validate_engine_connection p ≡ ok tt) ↔ IsReady p
unfolding validate_engine_connection
validate_engine_connection_iff p =
    (λ h. validate_engine_for→IsReady p p.engine_type refl h, λ ready. passes ready)
  where
    passes : IsReady p → validate_engine_for p.engine_type p ≡ ok tt
    passes (through_obs e m) = rw (e, In→any (λ b. b) p.obs_connections true m refl) refl
    passes (through_vmix e on) = rw (e, on) refl
    passes (without_connection e) = rw e refl
