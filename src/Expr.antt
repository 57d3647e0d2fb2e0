-- ===== src/Expr.antt =====
-- common/src/transform/expr: the expression language of the `map`, `filter` and `aggregate` steps.
pub mod Syntax
pub mod Lexer
pub mod Parser
pub mod Arrays
pub mod Operators
pub mod Temporal
pub mod JsonPath
pub mod Functions
pub mod Calls
pub mod Lengths
pub mod Eval
