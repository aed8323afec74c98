-- ===== src/Config/Model.antt =====
-- The parts of `Config` (mod.rs) that routing reads. Maps are association lists in some order of
-- iteration; `X` stands for `serde_json::Value`.
use bitrouter_ethglobal.Base.{String, Option, Bool, List}
use bitrouter_ethglobal.Types.{ApiProtocol}
use bitrouter_ethglobal.Routing.{SortOrder}
use bitrouter_ethglobal.Config.Pattern.{Pattern}

pub record ProviderModel : Type 0 where
  pub id : String
  pub api_protocol : Option (List ApiProtocol)

pub record ProviderAccount : Type 0 where
  pub api_key : String
  pub api_base : String
  pub label : String

pub data AccountStrategy : Type 0 where
  failover balance : AccountStrategy

pub record ProviderConfig : Type 0 where
  pub api_base : String
  pub api_key : String
  pub api_protocol : List (Pattern × List ApiProtocol)
  pub protocol_endpoints : List (String × String)
  pub models : List ProviderModel
  pub active : Bool
  pub tags : List String
  pub accounts : List ProviderAccount
  pub account_strategy : AccountStrategy

pub record VirtualEndpoint : Type 0 where
  pub provider : String
  pub service_id : String

pub data VirtualModelStrategy : Type 0 where
  priority cascade : VirtualModelStrategy

pub record VirtualModel : Type 0 where
  pub strategy : VirtualModelStrategy
  pub endpoints : List VirtualEndpoint

pub record RoutingConfig : Type 0 where
  pub sort : Option SortOrder
  pub require_tags : List String
  pub only : List String
  pub ignore : List String

pub record PresetConfig (X : Type 0) : Type 0 where
  pub model : Option String
  pub system_prompt : Option String
  pub params : List (String × X)
  pub routing : RoutingConfig

pub record Config (X : Type 0) : Type 0 where
  pub providers : List (String × ProviderConfig)
  pub models : List (String × VirtualModel)
  pub presets : List (String × PresetConfig X)
  -- A `VariantConfig` has a `routing` only.
  pub variants : List (String × RoutingConfig)
