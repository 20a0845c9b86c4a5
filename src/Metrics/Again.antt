-- ===== src/Metrics/Again.antt =====
-- New on a registry that New has run on: it gives the same collectors.
use wb_test_task.Base.{
  ℕ, ◌+◌, ◌≡◌, refl, sym, ap, ◌∙◌, true, Option, some, none, List, [], ◌∷◌, inl, inr, Bool-cases,
  subst,
}
use wb_test_task.Metrics.Prometheus.{
  Kind, counter, counter_vec, gauge, histogram, histogram_vec, Desc, Spec, RegisterAnswer, accepted,
  already_registered, refused, Client, Registering, RegisterResult, done, failed, registered_as,
  register_kind, register_spec,
}
use wb_test_task.Metrics.{
  Field, Metrics, definitions, prime_labels, primed, Assigned, assigned, assign_next,
  register_fields, new_metrics,
}

module _ (prometheus : Client) where
  open prometheus use {
    Registry, Collector, make, register, has_kind, desc_of, Holds, has_kind-make, desc_of-make,
    accepted-Holds, Holds-register, already-Holds, register_again,
  }

  -- The registry holds a collector that New takes for the field.
  abbrev Serves : Registry → Spec → Collector → Type 0
  Serves r spec c = Holds r c × (desc_of c ≡ spec.desc) × (has_kind spec.kind c ≡ true)

  abbrev AllServe : Registry → List (Field × Spec) → List (Field × Collector) → Type 0
  AllServe r [] [] = Unit
  AllServe r [] (c ∷ cs) = ⊥
  AllServe r (s ∷ ss) [] = ⊥
  AllServe r ((f, s) ∷ ss) ((g, c) ∷ cs) = (f ≡ g) × Serves r s c × AllServe r ss cs

  register_spec-eq :
      (kind : Kind) (desc : Desc) (s : Registering prometheus)
      → register_spec prometheus kind desc s ≡ register_kind prometheus kind desc s
  register_spec-eq counter desc s = refl
  register_spec-eq counter_vec desc s = refl
  register_spec-eq gauge desc s = refl
  register_spec-eq histogram desc s = refl
  register_spec-eq histogram_vec desc s = refl

  -- A registration that succeeds gives a collector that the registry serves, and loses none.
  answered :
      (spec : Spec) (c d : Collector) (r : Registry) (a : RegisterAnswer Collector)
      → (register c r).1 ≡ a
      → desc_of c ≡ spec.desc
      → has_kind spec.kind c ≡ true
      → registered_as prometheus spec.kind spec.desc c a ≡ done d
      → Serves (register c r).0 spec d
  answered spec c d r accepted e p k h =
      let q : c ≡ d = cc in
      subst (λ x. Serves (register c r).0 spec x) q (accepted-Holds r c e, p, k)
  answered spec c d r (already_registered x) e p k h = elim (Bool-cases (has_kind spec.kind x)) [
    | inl b ↦
        let q : x ≡ d = cc in
        let (held, same) = already-Holds r c x e in
        subst (λ y. Serves (register c r).0 spec y) q (held, same ∙ p, b)
    | inr b ↦ cc
  ]
  answered spec c d r (refused x) e p k h = cc

  register_spec-Serves :
      (spec : Spec) (s : Registering prometheus) (d : Collector)
      → (register_spec prometheus spec.kind spec.desc s).1 ≡ done d
      → Serves (register_spec prometheus spec.kind spec.desc s).0.registry spec d
  register_spec-Serves spec s d = rw (register_spec-eq spec.kind spec.desc s) (λ h.
      answered spec (make spec s.made) d s.registry ((register (make spec s.made) s.registry).1)
        refl (desc_of-make spec s.made) (has_kind-make spec s.made) h)

  register_spec-Holds :
      (spec : Spec) (s : Registering prometheus) (d : Collector)
      → Holds s.registry d
      → Holds (register_spec prometheus spec.kind spec.desc s).0.registry d
  register_spec-Holds spec s d h =
      rw (register_spec-eq spec.kind spec.desc s) (Holds-register s.registry (make spec s.made) d h)

  -- Registering again what the registry serves.
  register_spec_served :
      (spec : Spec) (s : Registering prometheus) (d : Collector)
      → Serves s.registry spec d
      → register_spec prometheus spec.kind spec.desc s
        ≡ (record { registry = s.registry; made = s.made + 1 }, done d)
  register_spec_served spec s d (held, same, kind_ok) =
      rw
        (
          register_spec-eq spec.kind spec.desc s,
          register_again s.registry (make spec s.made) d held
              (same ∙ sym (desc_of-make spec s.made)),
          kind_ok,
        )
        refl

  -- What the registration of a field keeps, whatever the registration of the later ones keeps.
  assign_next-Holds :
      (f : Field) (d : Collector) (x : Registering prometheus × RegisterResult Collector)
      (next : Registering prometheus → Assigned prometheus)
      → Holds x.0.registry d
      → ((s : Registering prometheus) → Holds s.registry d → Holds (next s).0.registry d)
      → Holds (assign_next prometheus f x next).0.registry d
  assign_next-Holds f d (s, failed e) next h later = h
  assign_next-Holds f d (s, done c) next h later = assigned-Holds (next s) (later s h)
    where
      assigned-Holds :
          (y : Assigned prometheus)
          → Holds y.0.registry d
          → Holds (assigned prometheus f c y).0.registry d
      assigned-Holds (s, failed e) h = h
      assigned-Holds (s, done cs) h = h

  register_fields-Holds :
      (specs : List (Field × Spec)) (s : Registering prometheus) (d : Collector)
      → Holds s.registry d
      → Holds (register_fields prometheus specs s).0.registry d
  unfolding register_fields
  register_fields-Holds [] s d h = h
  register_fields-Holds ((f, spec) ∷ rest) s d h =
      assign_next-Holds f d (register_spec prometheus spec.kind spec.desc s)
        (register_fields prometheus rest) (register_spec-Holds spec s d h)
        (λ t k. register_fields-Holds rest t d k)

  assigned-AllServe :
      (f : Field) (spec : Spec) (rest : List (Field × Spec)) (c : Collector)
      (y : Assigned prometheus) (cs : List (Field × Collector))
      → Serves y.0.registry spec c
      → ((ds : List (Field × Collector)) → y.1 ≡ done ds → AllServe y.0.registry rest ds)
      → (assigned prometheus f c y).1 ≡ done cs
      → AllServe (assigned prometheus f c y).0.registry ((f, spec) ∷ rest) cs
  assigned-AllServe f spec rest c (s, failed e) cs served all h = cc
  assigned-AllServe f spec rest c (s, done ds) cs served all h =
      let q : (f, c) ∷ ds ≡ cs = cc in
      subst (λ l. AllServe s.registry ((f, spec) ∷ rest) l) q (refl, served, all ds refl)

  -- New serves each field with the collector that it assigns.
  register_fields-AllServe :
      (specs : List (Field × Spec)) (s : Registering prometheus) (cs : List (Field × Collector))
      → (register_fields prometheus specs s).1 ≡ done cs
      → AllServe (register_fields prometheus specs s).0.registry specs cs
  unfolding register_fields
  register_fields-AllServe [] s [] h = tt
  register_fields-AllServe [] s (c ∷ cs) h = cc
  register_fields-AllServe ((f, spec) ∷ rest) s cs h =
      next_served (register_spec prometheus spec.kind spec.desc s)
        (λ d. register_spec-Serves spec s d) (register_fields-AllServe rest) h
    where
      next_served :
          (x : Registering prometheus × RegisterResult Collector)
          → ((d : Collector) → x.1 ≡ done d → Serves x.0.registry spec d)
          → ((t : Registering prometheus) (ds : List (Field × Collector))
              → (register_fields prometheus rest t).1 ≡ done ds
              → AllServe (register_fields prometheus rest t).0.registry rest ds)
          → (assign_next prometheus f x (register_fields prometheus rest)).1 ≡ done cs
          → AllServe
              (assign_next prometheus f x (register_fields prometheus rest)).0.registry
              ((f, spec) ∷ rest)
              cs
      next_served (t, failed e) served all h = cc
      next_served (t, done d) served all h =
          let (held, same, fits) = served d refl in
          assigned-AllServe f spec rest d (register_fields prometheus rest t) cs
            (register_fields-Holds rest t d held, same, fits) (all t) h

  register_fields_served :
      (specs : List (Field × Spec)) (s : Registering prometheus) (cs : List (Field × Collector))
      → AllServe s.registry specs cs
      → ((register_fields prometheus specs s).0.registry ≡ s.registry)
        × ((register_fields prometheus specs s).1 ≡ done cs)
  unfolding register_fields
  register_fields_served [] s [] h = (refl, refl)
  register_fields_served [] s (c ∷ cs) h = absurd h
  register_fields_served ((f, spec) ∷ rest) s [] h = absurd h
  register_fields_served ((f, spec) ∷ rest) s ((g, d) ∷ cs) (same, served, all) =
      rw (register_spec_served spec s d served, same)
        (assigned_served (register_fields prometheus rest t) (register_fields_served rest t cs all))
    where
      t : Registering prometheus
      t = record { registry = s.registry; made = s.made + 1 }

      assigned_served :
          (y : Assigned prometheus)
          → (y.0.registry ≡ s.registry) × (y.1 ≡ done cs)
          → ((assigned prometheus g d y).0.registry ≡ s.registry)
            × ((assigned prometheus g d y).1 ≡ done ((g, d) ∷ cs))
      assigned_served (s, failed e) (p, q) = cc
      assigned_served (s, done ds) (p, q) = (p, cc)

  abbrev pub registry_of : Option (Registering prometheus) → Option Registry
  registry_of none = none
  registry_of (some s) = some s.registry

  primed-done :
      (y : Assigned prometheus) (s' : Registering prometheus) (m : Metrics prometheus)
      → primed prometheus y ≡ (s', done m)
      → (y ≡ (s', done m.collectors)) × (m.samples ≡ prime_labels)
  primed-done (s, failed e) s' m h = cc
  primed-done (s, done fields) s' m h =
      let p : s ≡ s' = cc in
      let q : record { collectors = fields; samples = prime_labels } ≡ m = cc in
      (rw (p, ap (λ x. x.collectors) q) refl, sym (ap (λ x. x.samples) q))

  primed_served :
      (y : Assigned prometheus) (r : Registry) (m : Metrics prometheus)
      → y.0.registry ≡ r
      → y.1 ≡ done m.collectors
      → m.samples ≡ prime_labels
      → ((primed prometheus y).0.registry ≡ r) × ((primed prometheus y).1 ≡ done m)
  primed_served (s, failed e) r m p q k = cc
  primed_served (s, done fields) r m p q k =
      let e : fields ≡ m.collectors = cc in (p, rw (e, sym k) refl)

  -- When New on a registry gives collectors, New on the registry that it leaves gives the same
  -- collectors and leaves the registry as it is.
  pub new_metrics_again :
      (s s' : Registering prometheus) (n : ℕ) (m : Metrics prometheus)
      → new_metrics prometheus (some s) ≡ (some s', done m)
      → (registry_of (new_metrics prometheus (some (record { registry = s'.registry; made = n }))).0
          ≡ some s'.registry)
        × ((new_metrics prometheus (some (record { registry = s'.registry; made = n }))).1 ≡ done m)
  unfolding new_metrics
  new_metrics_again s s' n m h =
      let (e, k) = primed-done (register_fields prometheus definitions s) s' m cc in
      let all = register_fields-AllServe definitions s m.collectors (ap (λ x. x.1) e) in
      let (p, q) =
        register_fields_served definitions (record { registry = s'.registry; made = n })
          m.collectors
          (subst (λ r. AllServe r definitions m.collectors) (ap (λ x. x.0.registry) e) all) in
      let (a, b) =
        primed_served
          (register_fields prometheus definitions (record { registry = s'.registry; made = n }))
          s'.registry m p q k in
      (ap some a, b)
