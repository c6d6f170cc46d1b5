-- ===== src/Server/Keeps.antt =====
-- What a computation keeps, however it stops: a preorder between the world before and the world in
-- which it stops, one rule for each way to build a computation.
pub mod Rules
pub mod Channel
pub mod Handlers
use secure_cloud_storage.World.{World, M, final}

-- Reflexive and transitive.
pub record IsPreorder (R : World → World → Type 0) : Type 0 where
  pub same : (w : World) → R w w
  pub then_also : (u v w : World) → R u v → R v w → R u w

pub record Keeps (R : World → World → Type 0) {A : Type 0} (m : M A) : Type 0 where
  pub at : (w : World) → R w (final (m w))
