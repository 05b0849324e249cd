-- ===== src/Store.antt =====
-- The research data store: packages/research-signals/src/store/types.ts, schema.ts and
-- jsonl-store.ts. Table.antt is a table that lives in memory and in a file; Records.antt has the
-- rows of the eight tables, Schemas.antt how each is checked, compared and completed, Jsonl.antt the
-- store over them, and Queries.antt its queries.
pub mod Table
pub mod Records
pub mod Schemas
pub mod Jsonl
pub mod Queries
mod Tests
