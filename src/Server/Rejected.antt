-- ===== src/Server/Rejected.antt =====
-- The requests that edit the stop list and are refused.
use wb_test_task.Base.{◌≡◌, refl, sym, ap, ◌⊎◌, inl, inr, Bool, Option, none, some}
use wb_test_task.Base.Text.{Text, codes}
use wb_test_task.Runtime.{ContextError, Context, context}
use wb_test_task.Unicode.{Unicode}
use wb_test_task.Stoplist.{Manager, add_word, remove_word}
use wb_test_task.Server.{
  Status, status_internal, Reply, replied, rejected, SearchTrendsHandler, StopWordResponse,
  to_status_error, validate_stop_word_request, change_reply, note_stop_list, add_stop_word,
  remove_stop_word,
}

-- The requests that change the stop list.
pub data Edit : Type 0 where
  adding removing : Option Text → Edit

module _ (u : Unicode) where
  abbrev pub request_of : Edit → Option Text
  request_of (adding request) = request
  request_of (removing request) = request

  unfoldable pub edit :
      Context → Edit → SearchTrendsHandler → SearchTrendsHandler × Reply StopWordResponse
  edit ctx (adding request) h = add_stop_word u ctx request h
  edit ctx (removing request) h = remove_stop_word u ctx request h

  abbrev status_of : Reply StopWordResponse → Status
  status_of (replied r) = status_internal
  status_of (rejected s) = s

  change_rejected :
      (change : Manager → Text → Manager × Bool) (operation done undone : Text) (r : Reply Text)
      (h h' : SearchTrendsHandler) (s : Status)
      → change_reply change operation done undone r h ≡ (h', rejected s)
      → (h'.stop_words ≡ h.stop_words) × (r ≡ rejected s)
  unfolding note_stop_list
  change_rejected change operation done undone (rejected t) h h' s e =
      (sym (ap (λ x. x.0.stop_words) e), ap (λ x. rejected (status_of x.1)) e)
  change_rejected change operation done undone (replied word) h h' s e = cc

  -- A request to change the stop list that is refused leaves it as it is, and is refused because the
  -- context is done, with the status of that, or with the status that the check of the request gives.
  pub edit-rejected :
      (ctx : Context) (e : Edit) (h h' : SearchTrendsHandler) (s : Status)
      → edit ctx e h ≡ (h', rejected s)
      → (h'.stop_words ≡ h.stop_words)
        × (((c : ContextError) × (ctx ≡ some c) × (s ≡ to_status_error (context c)))
            ⊎ (validate_stop_word_request u (request_of e) ≡ rejected s))
  unfolding edit add_stop_word remove_stop_word
  edit-rejected (some c) (adding request) h h' s e =
      (sym (ap (λ x. x.0.stop_words) e), inl (c, refl, sym (ap (λ x. status_of x.1) e)))
  edit-rejected (some c) (removing request) h h' s e =
      (sym (ap (λ x. x.0.stop_words) e), inl (c, refl, sym (ap (λ x. status_of x.1) e)))
  edit-rejected none (adding request) h h' s e =
      let (a, b) =
        change_rejected (add_word u) (codes "add") (codes "added") (codes "already exists")
          (validate_stop_word_request u request) h h' s e in
      (a, inr b)
  edit-rejected none (removing request) h h' s e =
      let (a, b) =
        change_rejected (remove_word u) (codes "remove") (codes "removed") (codes "not found")
          (validate_stop_word_request u request) h h' s e in
      (a, inr b)
