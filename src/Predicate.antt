-- ===== src/Predicate.antt =====
-- src/changefeed/predicate_evaluator.cpp: the WHERE clauses of subscriptions.
pub mod Tokens
pub mod Lexing
pub mod Tree
pub mod Parser
mod Tests
