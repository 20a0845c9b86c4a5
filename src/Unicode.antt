-- ===== src/Unicode.antt =====
-- The parts of Go's `unicode` and `strings` packages that the normalizers call, over code points.
-- The table of lower-case letters is a parameter, with the facts about it that are relied on.
mod Trim
pub mod Format
pub use Trim.*
use wb_test_task.Base.{
  ℕ, ◌≡◌, Bool, true, false, ◌&&◌, ◌||◌, leb, ◌==◌, if◌then◌else◌, List, [], ◌∷◌,
}
use wb_test_task.Base.Text.{Text}
unfoldable pub use Trim.{is_space, trim_left, trim_right, trim_space}

-- unicode.IsControl
unfoldable pub is_control : ℕ → Bool
is_control r = leb r 0x1f || (leb 0x7f r && leb r 0x9f)

-- unicode.ToLower
pub record Unicode : Type 0 where
  pub to_lower : ℕ → ℕ
  pub to_lower_idem : (r : ℕ) → to_lower (to_lower r) ≡ to_lower r
  pub to_lower-space : (r : ℕ) → is_space r ≡ false → is_space (to_lower r) ≡ false
  pub to_lower-control : (r : ℕ) → is_control r ≡ false → is_control (to_lower r) ≡ false
