-- ===== src/Settings.antt =====
-- persistency.c and upgrade_persistency.c together: what the plugin keeps, as a map from objects.
pub mod Frame
pub mod Refinement
