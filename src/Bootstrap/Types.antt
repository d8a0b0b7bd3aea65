-- ===== src/Bootstrap/Types.antt =====
-- cloudconfig.go: the parts of a cloud-config that are read, and what is made of them.
-- A command is the text that it is given as, alone, or the words of its list.
use cluster_api_provider_ver.Base.{ℕ, String, Option, List, Bool, ◌*◌}
use cluster_api_provider_ver.Base.Act.{Result}

pub record WriteFile : Type 0 where
  pub path : String
  pub content : String
  pub encoding : String
  pub owner : String
  pub permissions : String
  pub append : Bool

pub record User : Type 0 where
  pub name : String
  pub gecos : String
  pub groups : String
  pub home_dir : String
  pub inactive : Bool
  pub shell : String
  pub passwd : String
  pub primary_group : String
  pub lock_password : Option Bool
  pub sudo : String
  pub ssh_authorized_keys : List String

pub record Ntp : Type 0 where
  pub enabled : Option Bool
  pub servers : List String

pub record CloudConfig : Type 0 where
  pub boot_cmd : List (List String)
  pub write_files : List WriteFile
  pub run_cmd : List (List String)
  pub users : List User
  pub ntp : Option Ntp

-- bootstrap.Result
pub record Script : Type 0 where
  pub script : String
  pub unsupported : List String

-- What the code takes from libraries: strconv's Quote, path's Dir, gzip at the best compression, and
-- sigs.k8s.io/yaml, which gives the keys of a cloud-config and its contents.
pub record Formats : Type 0 where
  pub quote : String → String
  pub dir : String → String
  pub gzip : String → Result (List ℕ)
  pub parse_keys : String → Result (List String)
  pub parse_config : String → Result CloudConfig

abbrev pub max_script_size : ℕ
max_script_size = 48 * 1024

abbrev pub compress_threshold : ℕ
compress_threshold = 24 * 1024

abbrev pub cloud_config_header : String
cloud_config_header = "#cloud-config"

abbrev pub log_path : String
log_path = "/var/log/capi-bootstrap.log"
