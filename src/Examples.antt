-- ===== src/Examples.antt =====
-- The servers of examples/ on top of the API: examples/echo-server/main.go and
-- examples/push-server/main.go. Both ignore the errors of the calls that they make for a result.
pub mod Echo
pub mod Push
