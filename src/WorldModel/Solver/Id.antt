-- ===== src/WorldModel/Solver/Id.antt =====
-- `enum class solver::MessageID : uint8_t`
use cpp_owl_common.Prelude.{ℕ}

pub data MessageId : Type 0 where
  keep_alive type_announce start_on_demand stop_on_demand solver_data : MessageId
  create_uri expire_uri delete_uri expire_attribute delete_attribute : MessageId

abbrev pub id_of : MessageId → ℕ
id_of keep_alive = 0
id_of type_announce = 1
id_of start_on_demand = 2
id_of stop_on_demand = 3
id_of solver_data = 4
id_of create_uri = 5
id_of expire_uri = 6
id_of delete_uri = 7
id_of expire_attribute = 8
id_of delete_attribute = 9
