-- ===== src/Metrics/Prometheus.antt =====
-- The client library of Prometheus, as far as internal/metrics/metrics.go goes by it, and the
-- register functions of that file.
use wb_test_task.Base.{ℕ, ◌+◌, ◌≡◌, Bool, true, List, if◌then◌else◌}
use wb_test_task.Base.Text.{Text}
use wb_test_task.Runtime.{Error}

pub data Kind : Type 0 where
  counter counter_vec gauge histogram histogram_vec : Kind

-- What a registry tells collectors apart by: the full name, and with it the help text and the labels.
pub record Desc : Type 0 where
  pub name : Text
  pub help : Text
  pub labels : List Text

pub record Spec : Type 0 where
  pub kind : Kind
  pub desc : Desc

-- What Register answers: nil, an AlreadyRegisteredError with the collector that is there, or another
-- error.
pub data RegisterAnswer (C : Type 0) : Type 0 where
  accepted : RegisterAnswer C
  already_registered : C → RegisterAnswer C
  refused : Error → RegisterAnswer C

-- `make` is NewCounter, NewCounterVec and so on; each call makes another collector. `has_kind` is the
-- type assertion on a collector. A registry keeps what it has accepted, and answers to a collector of
-- the same description with the one that it holds.
pub record Client : Type 1 where
  pub Registry : Type 0
  pub Collector : Type 0
  pub make : Spec → ℕ → Collector
  pub register : Collector → Registry → Registry × RegisterAnswer Collector
  pub has_kind : Kind → Collector → Bool
  pub desc_of : Collector → Desc
  pub Holds : Registry → Collector → Type 0
  pub has_kind-make : (s : Spec) (i : ℕ) → has_kind s.kind (make s i) ≡ true
  pub desc_of-make : (s : Spec) (i : ℕ) → desc_of (make s i) ≡ s.desc
  pub accepted-Holds :
      (r : Registry) (c : Collector) → (register c r).1 ≡ accepted → Holds (register c r).0 c
  pub Holds-register : (r : Registry) (c d : Collector) → Holds r d → Holds (register c r).0 d
  pub already-Holds :
      (r : Registry) (c d : Collector)
      → (register c r).1 ≡ already_registered d
      → Holds (register c r).0 d × (desc_of d ≡ desc_of c)
  pub register_again :
      (r : Registry) (c d : Collector)
      → Holds r d
      → desc_of d ≡ desc_of c
      → register c r ≡ (r, already_registered d)

pub data RegisterError : Type 0 where
  registry_required : RegisterError
  incompatible_type : RegisterError
  not_registered : Error → RegisterError

pub data RegisterResult {ℓ} (A : Type ℓ) : Type ℓ where
  done : A → RegisterResult A
  failed : RegisterError → RegisterResult A

module _ (prometheus : Client) where
  open prometheus use {Registry, Collector, make, register, has_kind}

  -- The registry, and how many collectors have been made.
  pub record Registering : Type 0 where
    pub registry : Registry
    pub made : ℕ

  abbrev pub registered_as :
      Kind → Desc → Collector → RegisterAnswer Collector → RegisterResult Collector
  registered_as kind desc collector accepted = done collector
  registered_as kind desc collector (already_registered existing) =
      if has_kind kind existing then done existing else failed incompatible_type
  registered_as kind desc collector (refused e) = failed (not_registered e)

  abbrev pub register_kind : Kind → Desc → Registering → Registering × RegisterResult Collector
  register_kind kind desc s =
      let collector = make (record { kind = kind; desc = desc }) s.made in
      let (registry', answer) = register collector s.registry in
      (record { registry = registry'; made = s.made + 1 }, registered_as kind desc collector answer)

  -- registerCounter
  abbrev pub register_counter : Desc → Registering → Registering × RegisterResult Collector
  register_counter = register_kind counter

  -- registerCounterVec
  abbrev pub register_counter_vec : Desc → Registering → Registering × RegisterResult Collector
  register_counter_vec = register_kind counter_vec

  -- registerGauge
  abbrev pub register_gauge : Desc → Registering → Registering × RegisterResult Collector
  register_gauge = register_kind gauge

  -- registerHistogram
  abbrev pub register_histogram : Desc → Registering → Registering × RegisterResult Collector
  register_histogram = register_kind histogram

  -- registerHistogramVec
  abbrev pub register_histogram_vec : Desc → Registering → Registering × RegisterResult Collector
  register_histogram_vec = register_kind histogram_vec

  -- The call that New makes for a collector.
  abbrev pub register_spec : Kind → Desc → Registering → Registering × RegisterResult Collector
  register_spec counter = register_counter
  register_spec counter_vec = register_counter_vec
  register_spec gauge = register_gauge
  register_spec histogram = register_histogram
  register_spec histogram_vec = register_histogram_vec
