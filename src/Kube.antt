-- ===== src/Kube.antt =====
-- What the program does with the objects of a cluster: actions on it, the clients of client-go and
-- controller-runtime as parameters, and pkg/engine/resource/object_key.go.
pub mod Act
pub mod Objects
pub mod Keys
pub mod Store
