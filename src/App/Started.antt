-- ===== src/App/Started.antt =====
-- When the program starts: what Load has let through is refused later only for its window.
use native.Mathlib.Nat.{mod-add-div}
use wb_test_task.Base.{
  ℕ, ◌+◌, ◌*◌, ◌/◌, ◌%◌, ◌<◌, ◌≡◌, refl, subst, Bool, true, false, ◌==◌, Option, none, some, [],
  arith, inl, inr, ◌⊎◌, ltb, if◌then◌else◌, ℕ_discrete, Bool-cases,
}
use wb_test_task.Base.Int.{ℤ, pos, negsuc, pos_part, rem, quot, leb_ℤ, ltb_ℤ}
use wb_test_task.Base.Text.{Text}
use wb_test_task.Runtime.{Error, Time}
use wb_test_task.Unicode.{Unicode}
use wb_test_task.Metrics.Prometheus.{Client, Registering, done}
use wb_test_task.Metrics.{Metrics, new_metrics}
use wb_test_task.Aggregator.Types.{InMemoryAggregator}
use wb_test_task.Aggregator.{
  NewResult, created, refused, window_not_positive, window_not_divisible,
  default_limit_not_positive, max_limit_too_small, bucket_count_not_positive, or_default,
  default_bucket_size, new,
}
use wb_test_task.Kafka.Reader.{
  ReaderResult, reader, brokers_required, topic_required, group_required, unsupported_offset,
}
use wb_test_task.Kafka.Consumer.{Consumer}
use wb_test_task.Normalizer.{is_empty}
use wb_test_task.Kafka.New.{with_kafka_reader, new_kafka_consumer, new_consumer_with_reader}
use wb_test_task.Server.Grpc.{
  GrpcDependencies, GrpcServer, Made, made, not_made, is_made, new_grpc_server,
}
use wb_test_task.Server.Intercepted.{new_grpc_server-made}
use wb_test_task.Settings.{Settings, AggregatorConfig, validate}
use wb_test_task.Settings.Load.{Sources, loaded, load_config, load_config-validate}
use wb_test_task.Settings.Valid.{is_reader, validate-reader}
use wb_test_task.App.{App}
use wb_test_task.App.Start.{
  StartResult, started, no_aggregator, aggregator_config, with_aggregator, with_consumer,
  with_grpc_server, new_logger, start,
}

-- The window is a whole number of buckets.
abbrev pub is_divisible : Settings → Bool
is_divisible c = pos_part (rem c.aggregator.window (pos_part c.aggregator.bucket_size)) == 0

abbrev is_created : NewResult → Bool
is_created (created agg) = true
is_created (refused problem) = false

whole_buckets : (w b : ℕ) → 0 < w → 0 < b → w % b ≡ 0 → 0 < w / b
whole_buckets w b h k e = elim (ℕ_discrete (w / b) 0) [
  | yes p ↦
      let q : w % b + b * 0 ≡ w = subst (λ x. w % b + b * x ≡ w) p (mod-add-div w b) in
      omega (arith, q)
  | no n ↦ omega (arith, n)
]

-- What Validate has checked of the aggregator's part.
record Valid (c : AggregatorConfig) : Type 0 where
  window_ok : leb_ℤ c.window (pos 0) ≡ false
  bucket_ok : leb_ℤ c.bucket_size (pos 0) ≡ false
  limit_ok : leb_ℤ c.default_limit (pos 0) ≡ false
  max_ok : ltb_ℤ c.max_limit c.default_limit ≡ false

validate-Valid : (c : Settings) → validate c ≡ none → Valid c.aggregator
unfolding validate
validate-Valid c h = record {
  window_ok = ground arith;
  bucket_ok = ground arith;
  limit_ok = ground arith;
  max_ok = ground arith;
}

module _ (w b : ℤ) (w_ok : leb_ℤ w (pos 0) ≡ false) (b_ok : leb_ℤ b (pos 0) ≡ false) where
  settled : or_default b default_bucket_size ≡ b
  settled = rw b_ok refl

  divisible_passes :
      (pos_part (rem w (pos_part b)) == 0) ≡ true
      → ltb 0 (pos_part (rem w (pos_part (or_default b default_bucket_size)))) ≡ false
  divisible_passes e = rw settled (ground arith)

  indivisible_fails :
      (pos_part (rem w (pos_part b)) == 0) ≡ false
      → ltb 0 (pos_part (rem w (pos_part (or_default b default_bucket_size)))) ≡ true
  indivisible_fails e = rw settled (ground arith)

  has_buckets :
      (pos_part (rem w (pos_part b)) == 0) ≡ true
      → leb_ℤ (quot w (pos_part (or_default b default_bucket_size))) (pos 0) ≡ false
  unfolding rem quot
  has_buckets e = rw settled (whole w b w_ok b_ok e)
    where
      whole :
          (w b : ℤ)
          → leb_ℤ w (pos 0) ≡ false
          → leb_ℤ b (pos 0) ≡ false
          → (pos_part (rem w (pos_part b)) == 0) ≡ true
          → leb_ℤ (quot w (pos_part b)) (pos 0) ≡ false
      whole (pos m) (pos n) p q e =
          let k : 0 < m / n = whole_buckets m n (ground arith) (ground arith) (ground arith) in
          ground (arith, k)
      whole (pos m) (negsuc n) p q e = ground arith
      whole (negsuc m) b p q e = ground arith

passes :
    (t1 t2 t3 t4 t5 : Bool) (a : InMemoryAggregator)
    → t1 ≡ false
    → t2 ≡ false
    → t3 ≡ false
    → t4 ≡ false
    → t5 ≡ false
    → is_created (
        if t1
        then refused window_not_positive
        else if t2
        then refused window_not_divisible
        else if t3
        then refused default_limit_not_positive
        else if t4
        then refused max_limit_too_small
        else if t5
        then refused bucket_count_not_positive
        else created a)
      ≡ true
passes t1 t2 t3 t4 t5 a p q r s t = rw (p, q, r, s, t) refl

-- New accepts what Validate accepts if the window is a whole number of buckets, and else it refuses
-- it for that.
new_validated :
    (c : Settings) (now : Time)
    → validate c ≡ none
    → ((is_divisible c ≡ true) × (is_created (new (aggregator_config c.aggregator) now) ≡ true))
      ⊎ ((is_divisible c ≡ false)
          × (new (aggregator_config c.aggregator) now ≡ refused window_not_divisible))
unfolding new
new_validated c now h =
    let v = validate-Valid c h in
    let w = c.aggregator.window in
    let b = c.aggregator.bucket_size in
    elim (Bool-cases (is_divisible c)) [
      | inl p ↦ inl (
        p,
        passes _ _ _ _ _ _ v.window_ok (divisible_passes w b v.window_ok v.bucket_ok p) v.limit_ok
            v.max_ok (has_buckets w b v.window_ok v.bucket_ok p),
      )
      | inr p ↦ inr (p, rw (v.window_ok, indivisible_fails w b v.window_ok v.bucket_ok p) refl)
    ]

has_address : (c : Settings) → validate c ≡ none → is_empty c.grpc_addr ≡ false
unfolding validate
has_address c h = ground arith

module _ (prometheus : Client) where
  abbrev pub is_started : StartResult prometheus → Bool
  is_started (started program) = true
  is_started _ = false

  module _ (u : Unicode) (c : Settings) (h : validate c ≡ none) where
    server_starts :
        (app : App) (consumer : Consumer) (m : Metrics prometheus) (server : Made GrpcServer)
        → is_made server ≡ true
        → is_started (with_grpc_server prometheus c app consumer m server) ≡ true
    server_starts app consumer m (made server) e = refl
    server_starts app consumer m (not_made problem) e = cc

    reader_starts :
        (app : App) (m : Metrics prometheus) (r : ReaderResult)
        → is_reader r ≡ true
        → is_started (
            with_consumer prometheus c app m
              (with_kafka_reader r true true c.kafka.commit_retries c.kafka.retry_backoff))
          ≡ true
    unfolding new_consumer_with_reader
    reader_starts app m (reader s o) e =
        let deps : GrpcDependencies = record {
          top_provider = some app.agg;
          stop_words = some app.stop_words;
          metrics = some [];
        } in
        server_starts app _ m (new_grpc_server c.grpc_addr deps true)
          (rw (new_grpc_server-made c.grpc_addr deps true, has_address c h) refl)
    reader_starts app m brokers_required e = cc
    reader_starts app m topic_required e = cc
    reader_starts app m group_required e = cc
    reader_starts app m (unsupported_offset value) e = cc

    aggregator_starts :
        (m : Metrics prometheus) (r : NewResult)
        → is_created r ≡ true
        → is_started (with_aggregator prometheus u c m r) ≡ true
    unfolding new_kafka_consumer
    aggregator_starts m (created agg) e = reader_starts _ _ _ (validate-reader c h)
    aggregator_starts m (refused problem) e = cc

  -- With a configuration that Load lets through, a logger and the collectors of New, the program
  -- starts exactly when the window is a whole number of buckets, and else it fails for that.
  pub start_loaded :
      (u : Unicode) (sources : Sources) (path : Text) (development production : Option Error)
      (registry : Registering prometheus) (now : Time) (c : Settings) (m : Metrics prometheus)
      → load_config sources path ≡ loaded c
      → new_logger development production c.app.env ≡ none
      → (new_metrics prometheus (some registry)).1 ≡ done m
      → ((is_divisible c ≡ true)
          × (is_started (start prometheus u sources path development production registry now)
              ≡ true))
        ⊎ ((is_divisible c ≡ false)
            × (start prometheus u sources path development production registry now
                ≡ no_aggregator window_not_divisible))
  unfolding start
  start_loaded u sources path development production registry now c m l g k =
      let h = load_config-validate sources path c l in
      elim (new_validated c now h) [
        | inl (d, e) ↦ inl (d, rw (l, g, k) (aggregator_starts u c h m _ e))
        | inr (d, e) ↦ inr (d, rw (l, g, k, e) refl)
      ]
