-- ===== src/Kube.antt =====
-- The Kubernetes side as the operator's code sees it: metadata, the objects of other projects that
-- it builds (only the fields that it sets or reads), results of a reconcile pass, and the runs of a
-- handler (Kube/Run.antt) against an environment that is not part of the repository (Kube/Env.antt).
mod Objects
mod Run
pub mod Laws
pub use Objects.*
unfoldable pub use Run.*
