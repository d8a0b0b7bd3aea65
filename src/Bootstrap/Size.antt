-- ===== src/Bootstrap/Size.antt =====
-- fit and ToStartupScript: the size of a script.
use cluster_api_provider_ver.Bootstrap.Types.{Formats, Script, CloudConfig, max_script_size}
use cluster_api_provider_ver.Base.Text.{has_prefix}
use cluster_api_provider_ver.Bootstrap.Startup.{
  convert, convert_cloud_config, fit, fill_placeholders, to_startup_script, hostname_placeholders,
}
use cluster_api_provider_ver.Base.{◌≡◌, false, ◌≤◌, String, List, arith}
use cluster_api_provider_ver.Base.TextEdit.{trim_space}
use cluster_api_provider_ver.Base.Act.{ok}
use Prim.Native.String.{len}

module _ (l : Formats) where
  len-fit : (script out : String) → fit l script ≡ ok out → len out ≤ max_script_size
  unfolding fit
  len-fit script out h = ground arith

  len-convert :
      (keys : List String) (cfg : CloudConfig) (res : Script)
      → convert l keys cfg ≡ ok res
      → len res.script ≤ max_script_size
  unfolding convert
  len-convert keys cfg res h = grind (arith, len-fit)

  len-convert_cloud_config :
      (trimmed : String) (res : Script)
      → convert_cloud_config l trimmed ≡ ok res
      → len res.script ≤ max_script_size
  unfolding convert_cloud_config
  len-convert_cloud_config trimmed res h = grind (arith, len-convert)

  -- A script that ToStartupScript makes of bootstrap data has at most 48 KiB, unless the data begins
  -- with #! after its white space.
  pub len-to_startup_script :
      (text hostname : String) (res : Script)
      → has_prefix (trim_space (fill_placeholders hostname_placeholders text hostname)) "#!" ≡ false
      → to_startup_script l text hostname ≡ ok res
      → len res.script ≤ max_script_size
  unfolding to_startup_script
  len-to_startup_script text hostname res h made = ground (
    arith,
    len-convert_cloud_config (trim_space (fill_placeholders hostname_placeholders text hostname))
        res,
  )
