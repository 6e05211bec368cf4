-- ===== src/Ue/Common.antt =====
-- The types of the `common` submodule (common/models/common.h) that the UE state stores and hands
-- on and never looks into. `Supi`, `Gpsi`, `Ipv4Addr`, `Ipv6Addr`, `Ipv6Prefix` and `MacAddr48` are
-- used through their text `value` alone and are texts here.
pub record Common : Type 1 where
  pub Dnn : Type 0
  pub Snssai : Type 0
  pub DateTime : Type 0
  pub RouteToLocation : Type 0
  pub AccessType : Type 0
  pub RatType : Type 0
  pub PlmnIdNid : Type 0
  pub UeLocationInfo : Type 0
  pub PduidInformation : Type 0
  pub ServiceAreaCoverageInfo : Type 0
  -- The value of a default-constructed `Dnn`.
  pub default_dnn : Dnn
