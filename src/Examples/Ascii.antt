-- ===== src/Examples/Ascii.antt =====
-- The lower-case letters of ASCII, for the tests.
use wb_test_task.Base.{ℕ, ◌+◌, ◌≡◌, false, ◌&&◌, leb, if◌then◌else◌, arith}
use wb_test_task.Unicode.{Unicode, is_space, is_control}

unfoldable pub lower : ℕ → ℕ
lower r = if leb 65 r && leb r 90 then r + 32 else r

pub lower_idem : (r : ℕ) → lower (lower r) ≡ lower r
unfolding lower
lower_idem r = ground arith

pub lower-space : (r : ℕ) → is_space r ≡ false → is_space (lower r) ≡ false
unfolding lower is_space
lower-space r h = ground arith

pub lower-control : (r : ℕ) → is_control r ≡ false → is_control (lower r) ≡ false
unfolding lower is_control
lower-control r h = ground arith

abbrev pub ascii : Unicode
ascii = record {
  to_lower = lower;
  to_lower_idem = lower_idem;
  to_lower-space = lower-space;
  to_lower-control = lower-control;
}
