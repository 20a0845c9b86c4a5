-- ===== src/Examples/Queries.antt =====
-- Queries.
use wb_test_task.Base.{◌≡◌, ◌≤◌, refl, length, false}
use wb_test_task.Base.Int.{pos}
use wb_test_task.Base.Text.{Text, codes}
use wb_test_task.Runtime.{ok}
use wb_test_task.Normalizer.{normalize_query, rune_limit}
use wb_test_task.Normalizer.Compact.{compact, judge}
use wb_test_task.Normalizer.Judged.{normalize_query-eq-judge}
use wb_test_task.Normalizer.Normal.{AreWords, normalize_query-AreWords, normalize_query_idem}
use wb_test_task.Examples.Ascii.{lower, ascii}

abbrev loose : Text
loose = codes "  Red   Shoes "

abbrev tight : Text
tight = codes "red shoes"

loose-tight : normalize_query ascii loose (pos 16) ≡ ok tight
unfolding normalize_query lower
loose-tight = refl

normalize_query-eq-judge_example :
    normalize_query ascii loose (pos 16)
    ≡ judge (rune_limit (pos 16)) (compact ascii false false loose)
normalize_query-eq-judge_example = normalize_query-eq-judge ascii loose (pos 16)

normalize_query-AreWords_example : AreWords ascii false tight × (length tight ≤ rune_limit (pos 16))
normalize_query-AreWords_example = normalize_query-AreWords ascii loose (pos 16) tight loose-tight

normalize_query_idem_example : normalize_query ascii tight (pos 16) ≡ ok tight
normalize_query_idem_example = normalize_query_idem ascii loose (pos 16) tight loose-tight
