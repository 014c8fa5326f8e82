-- ===== src/Schema.antt =====
-- The rows of the database that the service functions read and write, and the database itself
-- (sql/*.sql; app/constants.py; the response models of app/schemas). Ids are UUIDs, which the code
-- only compares, so they are numbers; an instant is a number of microseconds since year 1; a text
-- is the list of its code points. Tables are lists, the newest row first.
mod Rows
mod Responses
pub mod Tables
pub use Rows.*
pub use Responses.*
