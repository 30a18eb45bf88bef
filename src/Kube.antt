-- ===== src/Kube.antt =====
-- What the program uses of Kubernetes: types and libraries that are not code of the repository.
pub mod Labels
pub mod Objects
pub mod Client
