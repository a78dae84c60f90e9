-- ===== src/Query.antt =====
-- src/query/: queries over the objects of a collection.
pub mod Sort
pub mod WhereClause
pub mod QueryBuilder
pub mod IndexWhereClause
pub mod FastWildMatch
pub mod Execute
pub mod IdWhereClause
pub mod Filter
