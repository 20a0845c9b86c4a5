-- ===== src/Server/Exposition.antt =====
-- internal/server/metrics.go: the HTTP server of the metrics. Its routes are those of an
-- http.ServeMux, which is a parameter.
use wb_test_task.Base.{
  ℕ, suc, ◌==◌, ◌≡◌, ◌≢◌, refl, Bool, true, false, ◌&&◌, ◌||◌, not, Option, none, some, [], ◌∷◌,
  ◌++◌, if◌then◌else◌, leb, sym, ◌∙◌, subst, inl, inr, ◌⊎◌,
}
use wb_test_task.Base.Int.{ℤ, pos, negsuc}
use wb_test_task.Base.Text.{Text, codes, text_discrete}
use wb_test_task.Runtime.{Error}
use wb_test_task.Normalizer.{is_empty}
use wb_test_task.Unicode.Format.{decimal}

-- The pages that the server has.
pub data Page : Type 0 where
  metrics_page health_page : Page

abbrev has_code : ℕ → Text → Bool
has_code c [] = false
has_code c (x ∷ text) = (x == c) || has_code c text

abbrev starts_with_slash : Text → Bool
starts_with_slash [] = false
starts_with_slash (c ∷ text) = c == 47

abbrev ends_with_slash : Text → Bool
ends_with_slash [] = false
ends_with_slash (c ∷ []) = c == 47
ends_with_slash (c ∷ d ∷ text) = ends_with_slash (d ∷ text)

abbrev is_word_code : ℕ → Bool
is_word_code c =
    (leb 97 c && leb c 122)
    || (leb 65 c && leb c 90)
    || (leb 48 c && leb c 57)
    || (c == 45)
    || (c == 95)

-- letters, digits, dashes and underscores, with a slash between them here and there
abbrev are_segments : Bool → Text → Bool
are_segments after_slash [] = true
are_segments after_slash (c ∷ text) =
    let rest = are_segments (c == 47) text in
    (is_word_code c || ((c == 47) && not after_slash)) && rest

-- A pattern that matches one path and no other: it begins with a slash and does not end with one, and
-- between slashes it has letters, digits, dashes and underscores.
unfoldable pub is_plain : Text → Bool
is_plain path = starts_with_slash path && not (ends_with_slash path) && are_segments false path

-- Handle and ServeHTTP; `handle` answers `none` where Handle panics, which it does on a pattern that
-- is there already. `registered` is whether the pattern is there.
pub record ServeMux : Type 1 where
  pub Table : Type 0
  pub no_routes : Table
  pub handle : Text → Page → Table → Option Table
  pub route : Text → Table → Option Page
  pub handle_plain_first :
      (p : Text) (a : Page) → is_plain p ≡ true → (t : Table) × (handle p a no_routes ≡ some t)
  pub handle_plain_second :
      (p q : Text) (a b : Page) (t : Table)
      → handle p a no_routes ≡ some t
      → is_plain p ≡ true
      → is_plain q ≡ true
      → q ≢ p
      → (t' : Table) × (handle q b t ≡ some t')
  pub handle_twice :
      (p : Text) (a b : Page) (t t' : Table) → handle p a t ≡ some t' → handle p b t' ≡ none
  pub route_here :
      (p : Text) (a : Page) (t t' : Table)
      → is_plain p ≡ true
      → handle p a t ≡ some t'
      → route p t' ≡ some a
  pub route_elsewhere :
      (p q : Text) (a : Page) (t t' : Table)
      → is_plain p ≡ true
      → q ≢ p
      → handle p a t ≡ some t'
      → route q t' ≡ route q t

-- fmt.Sprint of an int
abbrev sprint : ℤ → Text
sprint (pos n) = decimal n
sprint (negsuc n) = 45 ∷ decimal (suc n)

-- net.JoinHostPort
abbrev join_host_port : Text → Text → Text
join_host_port host port =
    if has_code 58 host
    then codes "[" ++ (host ++ (codes "]:" ++ port))
    else host ++ (codes ":" ++ port)

pub record MetricsServer : Type 0 where
  pub address : Text
  pub path : Text

abbrev is_zero : ℤ → Bool
is_zero (pos n) = n == 0
is_zero (negsuc n) = false

-- NewMetricsServer
unfoldable pub new_metrics_server : Text → ℤ → Text → MetricsServer
unfolding decimal
new_metrics_server host port path =
    let host' = if is_empty host then codes "0.0.0.0" else host in
    let port' = if is_zero port then pos 2112 else port in
    let path' = if is_empty path then codes "/metrics" else path in
    record { address = join_host_port host' (sprint port'); path = path' }

abbrev health_path : Text
health_path = codes "/healthz"

-- What ListenAndServe returns with, and MetricsServer.Run.
pub data Listened : Type 0 where
  listened_without_error server_closed : Listened
  listen_failed : Error → Listened

unfoldable pub metrics_run : Listened → Option Error
metrics_run listened_without_error = none
metrics_run server_closed = none
metrics_run (listen_failed e) = some e

module _ (mux : ServeMux) where
  open mux use {Table, no_routes, handle, route}

  abbrev with_health : Option Table → Option Table
  with_health none = none
  with_health (some t) = handle health_path health_page t

  -- MetricsServer.Handler; `none` is a panic
  unfoldable pub metrics_handler : MetricsServer → Option Table
  metrics_handler s = with_health (handle s.path metrics_page no_routes)

  -- For a path that begins with a slash, does not end with one and has letters, digits, dashes and
  -- underscores between slashes, Handler gives the metrics under the path and the answer to health
  -- checks under /healthz, but it panics when the path is /healthz itself.
  pub metrics_handler_routes :
      (s : MetricsServer)
      → is_plain s.path ≡ true
      → ((s.path ≡ health_path) × (metrics_handler s ≡ none))
        ⊎ ((t : Table) × (metrics_handler s ≡ some t)
            × (route s.path t ≡ some metrics_page)
            × (route health_path t ≡ some health_page))
  unfolding metrics_handler is_plain
  metrics_handler_routes s h =
      let (t, p) = mux.handle_plain_first s.path metrics_page h in
      elim (text_discrete health_path s.path) [
        | yes e ↦
            let gone : handle health_path health_page t ≡ none =
              subst (λ x. handle x health_page t ≡ none) (sym e)
                (mux.handle_twice s.path metrics_page health_page no_routes t p) in
            inl (sym e, rw p gone)
        | no n ↦
            let (t', q) =
              mux.handle_plain_second s.path health_path metrics_page health_page t p h refl n in
            inr (
              t',
              rw p q,
              mux.route_elsewhere health_path s.path health_page t t' refl (λ k. n (sym k)) q
                  ∙ mux.route_here s.path metrics_page no_routes t h p,
              mux.route_here health_path health_page t t' refl q,
            )
      ]
