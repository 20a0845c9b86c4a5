-- ===== src/Normalizer.antt =====
-- internal/aggregator/normalizer.go: NormalizeQuery.
pub mod Compact
pub mod Judged
pub mod Normal
use wb_test_task.Base.{
  ℕ, zero, suc, ◌+◌, Bool, true, false, not, ◌&&◌, List, [], ◌∷◌, ◌++◌, length, ltb, if◌then◌else◌,
}
use wb_test_task.Base.Int.{ℤ, pos, pos_part, leb_ℤ}
use wb_test_task.Base.Text.{Text}
use wb_test_task.Runtime.{Error, empty_query, query_too_long, Result, ok, err, ◌>>=◌}
use wb_test_task.Unicode.{Unicode, is_space, is_control, trim_space}

abbrev pub default_max_query_runes : ℕ
default_max_query_runes = 256

-- maxRunes, after the default for a value that is not positive
unfoldable pub rune_limit : ℤ → ℕ
rune_limit max_runes =
    if leb_ℤ max_runes (pos 0) then default_max_query_runes else pos_part max_runes

-- The variables of the loop.
pub record Scan : Type 0 where
  pub builder : Text
  pub previous_was_space : Bool
  pub written_runes : ℕ

abbrev pub space : ℕ
space = 0x20

abbrev pub is_empty : Text → Bool
is_empty [] = true
is_empty (r ∷ s) = false

module _ (u : Unicode) (limit : ℕ) where
  -- one round of `for _, r := range query`
  unfoldable pub scan_rune : Scan → ℕ → Result Scan
  scan_rune s r =
      if is_space r
      then ok (
          if not (is_empty s.builder) && not s.previous_was_space
          then record {
            builder = s.builder ++ space ∷ [];
            previous_was_space = true;
            written_runes = s.written_runes + 1;
          }
          else s)
      else if is_control r
      then ok s
      else if ltb limit (s.written_runes + 1)
      then err query_too_long
      else ok (record {
        builder = s.builder ++ u.to_lower r ∷ [];
        previous_was_space = false;
        written_runes = s.written_runes + 1;
      })

  unfoldable pub scan : Scan → Text → Result Scan
  unfolding scan_rune
  scan s [] = ok s
  scan s (r ∷ q) = do s' ← scan_rune s r; scan s' q

  -- what follows the loop
  unfoldable pub finish : Scan → Result Text
  finish s =
      let normalized = trim_space s.builder in
      if is_empty normalized
      then err empty_query
      else if ltb limit (length normalized)
      then err query_too_long
      else ok normalized

abbrev pub scan_start : Scan
scan_start = record { builder = []; previous_was_space = false; written_runes = 0 }

unfoldable pub normalize_query : Unicode → Text → ℤ → Result Text
unfolding rune_limit scan finish trim_space is_space is_control
normalize_query u query max_runes =
    let limit = rune_limit max_runes in
    let trimmed = trim_space query in
    if is_empty trimmed
    then err empty_query
    else do s ← scan u limit scan_start trimmed; finish u limit s
