-- ===== src/Js.antt =====
-- What the modelled programs use of JavaScript: numbers as an interface, stable sorting, objects
-- with their key order, parsed JSON values, exceptions, and async functions.
pub mod Number
pub mod Sort
pub mod Object
pub mod Value
pub mod Completion
pub mod Decimal
pub mod Async
pub mod Spread
