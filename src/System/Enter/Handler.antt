-- ===== src/System/Enter/Handler.antt =====
-- `exec` through `trap_handler`.
