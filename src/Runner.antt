-- ===== src/Runner.antt =====
-- internal/runner: results, and the drivers over them. `Build` is the sequential driver of build.go.
pub mod Result
pub mod Poison
pub mod Build
pub mod Run
