-- ===== src/Examples/Collectors.antt =====
-- A registry of collectors as a list, the first of a description being the one that counts; and the
-- collectors of New in it.
mod Started
use wb_test_task.Base.{
  ℕ, ◌+◌, ◌==◌, ◌≡◌, refl, sym, ap, ◌∙◌, Bool, true, false, ◌&&◌, Option, none, some, List, [], ◌∷◌,
  if◌then◌else◌, arith, inl, inr, ◌⊎◌, Bool-cases,
}
use wb_test_task.Base.Text.{Text, codes}
use wb_test_task.Runtime.{ok}
use wb_test_task.Settings.{Settings, default_config, validate}
use wb_test_task.Settings.Load.{Sources, loaded, load_config}
use wb_test_task.Aggregator.{window_not_divisible}
use wb_test_task.App.Start.{new_logger, no_aggregator, start}
use wb_test_task.App.Started.{is_divisible, is_started, start_loaded}
use wb_test_task.Examples.Ascii.{ascii}
use wb_test_task.Examples.Windows.{second_100}
use wb_test_task.Metrics.Prometheus.{
  Kind, counter, counter_vec, gauge, histogram, histogram_vec, Desc, Spec, RegisterAnswer, accepted,
  already_registered, Client, Registering, done,
}
use wb_test_task.Metrics.{Field, Metrics, definitions, prime_labels, register_fields, new_metrics}
use wb_test_task.Metrics.Again.{registry_of, new_metrics_again}

abbrev same_kind : Kind → Kind → Bool
same_kind counter counter = true
same_kind counter_vec counter_vec = true
same_kind gauge gauge = true
same_kind histogram histogram = true
same_kind histogram_vec histogram_vec = true
same_kind _ _ = false

same_kind_refl : (k : Kind) → same_kind k k ≡ true
same_kind_refl counter = refl
same_kind_refl counter_vec = refl
same_kind_refl gauge = refl
same_kind_refl histogram = refl
same_kind_refl histogram_vec = refl

unfoldable eq_text : Text → Text → Bool
eq_text [] [] = true
eq_text [] (y ∷ t) = false
eq_text (x ∷ s) [] = false
eq_text (x ∷ s) (y ∷ t) = (x == y) && eq_text s t

eq_text_sound : (s t : Text) → eq_text s t ≡ true → s ≡ t
unfolding eq_text
eq_text_sound [] [] h = refl
eq_text_sound [] (y ∷ t) h = cc
eq_text_sound (x ∷ s) [] h = cc
eq_text_sound (x ∷ s) (y ∷ t) h = ground (arith, eq_text_sound s t)

eq_text_refl : (s : Text) → eq_text s s ≡ true
unfolding eq_text
eq_text_refl [] = refl
eq_text_refl (x ∷ s) = ground (arith, eq_text_refl s)

unfoldable eq_texts : List Text → List Text → Bool
eq_texts [] [] = true
eq_texts [] (y ∷ t) = false
eq_texts (x ∷ s) [] = false
eq_texts (x ∷ s) (y ∷ t) = eq_text x y && eq_texts s t

eq_texts_sound : (s t : List Text) → eq_texts s t ≡ true → s ≡ t
unfolding eq_texts
eq_texts_sound [] [] h = refl
eq_texts_sound [] (y ∷ t) h = cc
eq_texts_sound (x ∷ s) [] h = cc
eq_texts_sound (x ∷ s) (y ∷ t) h = ground (arith, eq_texts_sound s t, eq_text_sound x y)

eq_texts_refl : (s : List Text) → eq_texts s s ≡ true
unfolding eq_texts
eq_texts_refl [] = refl
eq_texts_refl (x ∷ s) = rw (eq_text_refl x) (eq_texts_refl s)

unfoldable eq_desc : Desc → Desc → Bool
unfolding eq_text eq_texts
eq_desc a b = eq_text a.name b.name && eq_text a.help b.help && eq_texts a.labels b.labels

both_true : (a b : Bool) → (a && b) ≡ true → (a ≡ true) × (b ≡ true)
both_true true b h = (refl, h)
both_true false b h = cc

eq_desc_sound : (a b : Desc) → eq_desc a b ≡ true → a ≡ b
unfolding eq_desc
eq_desc_sound a b h =
    let (h', r) =
      both_true (eq_text a.name b.name && eq_text a.help b.help) (eq_texts a.labels b.labels) h in
    let (p, q) = both_true (eq_text a.name b.name) (eq_text a.help b.help) h' in
    let x : a.name ≡ b.name = eq_text_sound a.name b.name p in
    let y : a.help ≡ b.help = eq_text_sound a.help b.help q in
    let z : a.labels ≡ b.labels = eq_texts_sound a.labels b.labels r in
    ap (λ n. record a { name = n }) x
    ∙ ap (λ n. record { name = b.name; help = n; labels = a.labels }) y
    ∙ ap (λ n. record { name = b.name; help = b.help; labels = n }) z

eq_desc_refl : (a : Desc) → eq_desc a a ≡ true
unfolding eq_desc
eq_desc_refl a = rw (eq_text_refl a.name, eq_text_refl a.help, eq_texts_refl a.labels) refl

abbrev Made : Type 0
Made = Spec × ℕ

unfoldable held : Desc → List Made → Option Made
unfolding eq_desc
held desc [] = none
held desc (c ∷ r) = if eq_desc c.0.desc desc then some c else held desc r

held-desc : (desc : Desc) (r : List Made) (d : Made) → held desc r ≡ some d → d.0.desc ≡ desc
unfolding held
held-desc desc [] d h = cc
held-desc desc (c ∷ r) d h = elim (Bool-cases (eq_desc c.0.desc desc)) [
  | inl e ↦
      let k : some c ≡ some d = rw (held, e) at h in
      let same : d ≡ c = cc in ap (λ x. x.0.desc) same ∙ eq_desc_sound c.0.desc desc e
  | inr e ↦ held-desc desc r d (rw (held, e) at h)
]

abbrev answer : Made → List Made → Option Made → List Made × RegisterAnswer Made
answer c r none = (c ∷ r, accepted)
answer c r (some d) = (r, already_registered d)

unfoldable register_made : Made → List Made → List Made × RegisterAnswer Made
unfolding held
register_made c r = answer c r (held c.0.desc r)

abbrev Held : List Made → Made → Type 0
Held r c = held c.0.desc r ≡ some c

accepted_kept :
    (r : List Made) (c : Made) → (register_made c r).1 ≡ accepted → Held (register_made c r).0 c
unfolding register_made
accepted_kept r c = by_answer (held c.0.desc r) refl
  where
    by_answer :
        (o : Option Made)
        → held c.0.desc r ≡ o
        → (answer c r o).1 ≡ accepted
        → Held (answer c r o).0 c
    by_answer none e h = rw (held, eq_desc_refl c.0.desc) refl
    by_answer (some d) e h = cc

register_keeps : (r : List Made) (c d : Made) → Held r d → Held (register_made c r).0 d
unfolding register_made
register_keeps r c d h = by_answer (held c.0.desc r) refl
  where
    by_answer : (o : Option Made) → held c.0.desc r ≡ o → Held (answer c r o).0 d
    by_answer none e = elim (Bool-cases (eq_desc c.0.desc d.0.desc)) [
      | inl x ↦
          let desc = eq_desc_sound c.0.desc d.0.desc x in
          let gone : none ≡ some d = sym e ∙ ap (λ y. held y r) desc ∙ h in cc
      | inr x ↦ rw (held, x) h
    ]
    by_answer (some x) e = h

already_kept :
    (r : List Made) (c d : Made)
    → (register_made c r).1 ≡ already_registered d
    → Held (register_made c r).0 d × (d.0.desc ≡ c.0.desc)
unfolding register_made
already_kept r c d = by_answer (held c.0.desc r) refl
  where
    by_answer :
        (o : Option Made)
        → held c.0.desc r ≡ o
        → (answer c r o).1 ≡ already_registered d
        → Held (answer c r o).0 d × (d.0.desc ≡ c.0.desc)
    by_answer none e h = cc
    by_answer (some x) e h =
        let same : x ≡ d = cc in
        let desc : d.0.desc ≡ c.0.desc = held-desc c.0.desc r d (e ∙ ap some same) in
        (ap (λ y. held y r) desc ∙ e ∙ ap some same, desc)

kept_again :
    (r : List Made) (c d : Made)
    → Held r d
    → d.0.desc ≡ c.0.desc
    → register_made c r ≡ (r, already_registered d)
unfolding register_made
kept_again r c d h e = rw (sym (ap (λ y. held y r) e) ∙ h) refl

abbrev listed : Client
listed = record {
  Registry = List Made;
  Collector = Made;
  make = λ s i. (s, i);
  register = register_made;
  has_kind = λ k c. same_kind k c.0.kind;
  desc_of = λ c. c.0.desc;
  Holds = Held;
  has_kind-make = λ s i. same_kind_refl s.kind;
  desc_of-make = λ s i. refl;
  accepted-Holds = accepted_kept;
  Holds-register = register_keeps;
  already-Holds = already_kept;
  register_again = kept_again;
}

abbrev empty : Registering listed
empty = record { registry = []; made = 0 }

abbrev numbered : ℕ → List (Field × Spec) → List (Field × Made)
numbered i [] = []
numbered i ((field, spec) ∷ rest) = (field, (spec, i)) ∷ numbered (i + 1) rest

abbrev as_registry : List (Field × Made) → List Made → List Made
as_registry [] r = r
as_registry ((field, c) ∷ rest) r = as_registry rest (c ∷ r)

abbrev all_made : Metrics listed
all_made = record { collectors = numbered 0 definitions; samples = prime_labels }

abbrev filled : Registering listed
filled = record { registry = as_registry (numbered 0 definitions) []; made = 19 }

first_run : new_metrics listed (some empty) ≡ (some filled, done all_made)
unfolding new_metrics register_fields definitions register_made
first_run = refl

new_metrics_again_example :
    (registry_of listed
        (new_metrics listed (some (record { registry = filled.registry; made = 40 }))).0
      ≡ some filled.registry)
    × ((new_metrics listed (some (record { registry = filled.registry; made = 40 }))).1
        ≡ done all_made)
new_metrics_again_example = new_metrics_again listed empty filled 40 all_made first_run

-- The start of the program, with a configuration file that names one broker.
abbrev one_broker : Settings
one_broker = record default_config {
  kafka = record default_config.kafka { brokers = codes "kafka:9092" ∷ [] };
}

abbrev one_file : Sources
one_file = record {
  config_path = [];
  read_file = λ path. ok (codes "kafka: {brokers: [kafka:9092]}");
  unmarshal =
      λ text c. ok (record c { kafka = record c.kafka { brokers = codes "kafka:9092" ∷ [] } });
}

one_file_loaded : load_config one_file [] ≡ loaded one_broker
unfolding load_config validate default_config
one_file_loaded = refl

first_metrics : (new_metrics listed (some empty)).1 ≡ done all_made
first_metrics = ap (λ x. x.1) first_run

logger_made : new_logger none none one_broker.app.env ≡ none
unfolding new_logger
logger_made = ground arith

start_loaded_example :
    ((is_divisible one_broker ≡ true)
      × (is_started listed (start listed ascii one_file [] none none empty second_100) ≡ true))
    ⊎ ((is_divisible one_broker ≡ false)
        × (start listed ascii one_file [] none none empty second_100
            ≡ no_aggregator window_not_divisible))
start_loaded_example =
    start_loaded listed ascii one_file [] none none empty second_100 one_broker all_made
      one_file_loaded logger_made first_metrics
