-- ===== src/Automation.antt =====
-- modules/automation/: the graphs of the visual editor, and their versions.
pub mod Schema
pub mod Graph
pub mod Editor
