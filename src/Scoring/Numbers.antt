-- ===== src/Scoring/Numbers.antt =====
-- The numbers of the scoring in packages/core/src/scoring, which are doubles in the source: an
-- interface with the operations that it uses, and the laws of order that doubles keep under
-- rounding as long as no operation overflows. No law says that a rounded operation is exact.
mod Order
unfoldable pub use Order.*
mod Thousandths
unfoldable pub use Thousandths.*
