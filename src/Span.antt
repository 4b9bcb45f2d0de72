-- ===== src/Span.antt =====
-- crates/inty/src/span.rs: half-open byte ranges.
use inty.Common.{ℕ, min, max}

pub record Span : Type 0 where
  pub start : ℕ
  pub end : ℕ

unfoldable pub merge : Span → Span → Span
merge a b = record { start = min a.start b.start; end = max a.end b.end }
