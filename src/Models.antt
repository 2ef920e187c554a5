-- ===== src/Models.antt =====
-- internal/models: the rows of the tables, and the tables of internal/database/migrations.
-- A nullable column (sql.NullString, sql.NullInt64, sql.NullTime) is an `Option`. Times are
-- counted in nanoseconds from an origin before every time that the server meets, and a row's
-- numeric id is a natural number (BIGSERIAL starts at 1).
mod Auth
mod Cache
mod Content
mod Websocket
mod Schema
pub use Auth.*
pub use Cache.*
pub use Content.*
pub use Websocket.*
pub use Schema.*
