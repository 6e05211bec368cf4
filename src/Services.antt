-- ===== src/Services.antt =====
-- What the managers use of af_core/include/af_orchestrator.h, and the communication services of the
-- `common` submodule that it holds.
use phine_af.Prelude.{String, Option}
use phine_af.Map.{Map}
use phine_af.Outcome.{Outcome}
use phine_af.Json.{Message, Answer}

-- `send_request` and `send_async`, for a destination and a message.
pub record CommunicationService : Type 0 where
  pub send_request : Answer
  pub send_async : String → Message → Outcome (Unit {0})

-- The services by their name, none for a null pointer, and the address of the PCF handler.
pub record AfOrchestrator : Type 0 where
  pub communication_services : Map (Option CommunicationService)
  pub pcf_destination : String
