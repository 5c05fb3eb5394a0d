-- ===== src/Renderer.antt =====
-- pkg/engine/renderer: the variables of a template, and the objects of a rendered text.
pub mod Variables
pub mod Yaml
