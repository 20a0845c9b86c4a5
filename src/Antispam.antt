-- ===== src/Antispam.antt =====
-- internal/antispam/limiter.go: the InMemoryLimiter.
use wb_test_task.Base.{ℕ, Bool, true, Option, none, some, List, [], ◌∷◌, if◌then◌else◌}
use wb_test_task.Base.Int.{ℤ}
use wb_test_task.Base.Text.{Text, codes}
use wb_test_task.Runtime.{Context, context, Result, ok, err, Time}

pub data LimiterCall : Type 0 where
  anti_spam_check : Text → LimiterCall
  anti_spam_active_keys : ℕ → LimiterCall

-- Config, with the calls of the metrics, `none` for nil, the last one first
pub record LimiterConfig : Type 0 where
  pub enabled : Bool
  pub max_events_per_identity_per_minute : ℤ
  pub max_same_query_per_identity_per_window : ℤ

pub record LimiterEvent : Type 0 where
  pub event_id : Text
  pub query : Text
  pub user_id_hash : Text
  pub session_id : Text
  pub ip_hash : Text
  pub timestamp : Time

pub record Decision : Type 0 where
  pub allowed : Bool
  pub reason : Text

pub record InMemoryLimiter : Type 0 where
  pub cfg : LimiterConfig
  pub metrics : Option (List LimiterCall)

-- observeCheck and setActiveKeys
unfoldable pub note_limiter : LimiterCall → InMemoryLimiter → InMemoryLimiter
note_limiter call l = record l {
  metrics = elim l.metrics [ none ↦ none | some calls ↦ some (call ∷ calls) ];
}

-- NewLimiter
unfoldable pub new_limiter : LimiterConfig → Option (List LimiterCall) → InMemoryLimiter
unfolding note_limiter
new_limiter cfg metrics =
    note_limiter (anti_spam_active_keys 0) (record { cfg = cfg; metrics = metrics })

abbrev pub allowed_decision : Decision
allowed_decision = record { allowed = true; reason = [] }

-- Allow
unfoldable pub allow : Context → LimiterEvent → InMemoryLimiter → InMemoryLimiter × Result Decision
unfolding note_limiter
allow (some e) event l = (l, err (context e))
allow none event l =
    if l.cfg.enabled
    then (note_limiter (anti_spam_check (codes "allowed")) l, ok allowed_decision)
    else (note_limiter (anti_spam_check (codes "allowed")) l, ok allowed_decision)

-- Stats
unfoldable pub active_keys : InMemoryLimiter → ℕ
active_keys l = 0
