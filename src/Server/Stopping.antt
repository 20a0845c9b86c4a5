-- ===== src/Server/Stopping.antt =====
-- AddStopWord of the service against what the handler of the events asks the stop list.
use wb_test_task.Base.{[], ◌≡◌, sym, ap, ◌∙◌, Bool, true, false, ◌||◌, none, some, if◌then◌else◌}
use wb_test_task.Base.Int.{pos}
use wb_test_task.Base.Text.{Text, codes, same_text}
use wb_test_task.Runtime.{Result, ok, err}
use wb_test_task.Unicode.{Unicode, trim_space}
use wb_test_task.Normalizer.{is_empty, normalize_query}
use wb_test_task.Stoplist.{contains, normalize, add_word}
use wb_test_task.Stoplist.Same.{contains-add_accepted}
use wb_test_task.Server.{
  Reply, replied, rejected, Status, invalid_argument, SearchTrendsHandler, StopWordResponse,
  validate_stop_word_request, change_reply, note_stop_list, word_reply, add_stop_word,
}

module _ (u : Unicode) where
  -- A request is accepted with the text that NormalizeQuery makes of its word.
  word_reply-eq-ok : (r : Result Text) (t : Text) → word_reply r ≡ replied t → r ≡ ok t
  word_reply-eq-ok (ok x) t h = cc
  word_reply-eq-ok (err e) t h = cc

  validated-accepted :
      (request t : Text)
      → validate_stop_word_request u (some request) ≡ replied t
      → normalize_query u (trim_space request) (pos 256) ≡ ok t
  unfolding validate_stop_word_request
  validated-accepted request t h =
      tested (is_empty (trim_space request)) (normalize_query u (trim_space request) (pos 256))
        (invalid_argument (codes "word is required")) h
    where
      tested :
          (b : Bool) (r : Result Text) (s : Status)
          → (if b then rejected s else word_reply r) ≡ replied t
          → r ≡ ok t
      tested true r s k = cc
      tested false r s k = word_reply-eq-ok r t k

  abbrev shown_word : Reply StopWordResponse → Text
  shown_word (rejected s) = []
  shown_word (replied r) = r.word

  changed :
      (h h' : SearchTrendsHandler) (r : Reply Text) (resp : StopWordResponse)
      → change_reply (add_word u) (codes "add") (codes "added") (codes "already exists") r h
        ≡ (h', replied resp)
      → (r ≡ replied resp.word) × (h'.stop_words ≡ (add_word u h.stop_words resp.word).0)
  unfolding note_stop_list
  changed h h' (rejected s) resp e = cc
  changed h h' (replied word) resp e =
      let same : word ≡ resp.word = ap (λ x. shown_word x.1) e in
      (
        ap replied same,
        sym (ap (λ x. x.0.stop_words) e) ∙ ap (λ w. (add_word u h.stop_words w).0) same,
      )

  -- After AddStopWord has answered a request with a word, Contains answers true for the words it did
  -- before, and for those whose normal form is the word of the answer.
  pub contains-add_stop_word :
      (h h' : SearchTrendsHandler) (request : Text) (resp : StopWordResponse) (v : Text)
      → add_stop_word u none (some request) h ≡ (h', replied resp)
      → contains u h'.stop_words v
        ≡ (same_text resp.word (normalize u v) || contains u h.stop_words v)
  unfolding add_stop_word
  contains-add_stop_word h h' request resp v e =
      let (a, b) = changed h h' (validate_stop_word_request u (some request)) resp e in
      ap (λ m. contains u m v) b
      ∙ contains-add_accepted u h.stop_words (trim_space request) (pos 256) resp.word v
          (validated-accepted request resp.word a)
