-- ===== src/Scene.antt =====
-- packages/orchestrator/src/services/tscn-merge.ts: the merge of a patch into a Godot scene file.
-- Document has the sections of a file, Header and Properties what a section says, Patch the merge.
pub mod Document
pub mod Attrs
pub mod Header
pub mod Properties
pub mod Patch
