-- ===== src/Integer.antt =====
-- Go's int and time.Duration, where they may be negative.
use ajax_bridge.Prelude.{ℕ}

pub data ℤ : Type 0 where
  pos : ℕ → ℤ
  negsuc : ℕ → ℤ
