-- ===== src/LoadBalancer/Types.antt =====
-- The types of internal/loadbalancer: envoy.go's frontends, haproxy.go's keys, ssh.go's files.
-- loadbalancer.Backend and loadbalancer.Frontend
use cluster_api_provider_ver.Base.{ℕ, String, Bool, List}

pub record Backend : Type 0 where
  pub address : String
  pub port : ℕ

pub record Frontend : Type 0 where
  pub name : String
  pub protocol : String
  pub port : ℕ
  pub proxy_protocol : Bool
  pub health_check_port : ℕ
  pub backends : List Backend

-- The keys of a load balancer; Go holds them as bytes of text.
pub record Keys : Type 0 where
  pub client_private_key : String
  pub client_public_key : String
  pub host_private_key : String
  pub host_public_key : String

pub record File : Type 0 where
  pub path : String
  pub content : String
