-- ===== src/Bus/Mapping.antt =====
-- BusPortMapping of src/bus/businterface.h, an interface: which port and which index a node has. `none`
-- is the answer false.
use nullrvsim.Prelude.{ℕ, Option}

pub record BusPortMapping : Type 0 where
  pub get_homenode_port : ℕ → Option ℕ
  pub get_subnode_port : ℕ → Option ℕ
  pub get_reqnode_port : ℕ → Option ℕ
  pub get_reqnode_index : ℕ → Option ℕ
