-- ===== src/Auth.antt =====
-- The authenticated project of a request, and the graph that it may read: `src/backend/auth/context.py`.
pub mod Context
pub mod Isolation
pub mod Binding
