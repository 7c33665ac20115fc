-- ===== src/Inspector.antt =====
-- ios-inspector/sandstorm_inspector/: the logic of the Inspector, without its window.
pub mod Tree
pub mod HitTest
pub mod Suggestion
pub mod Recorder
pub mod Window
