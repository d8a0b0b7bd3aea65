-- ===== src/Bootstrap/Startup.antt =====
-- cloudconfig.go: ToStartupScript and fit.
use cluster_api_provider_ver.Bootstrap.Files.{write_files_from, is_cloud_config}
use cluster_api_provider_ver.Bootstrap.Shell.{shell, user_script, ntp_script}
use cluster_api_provider_ver.Base.Act.{ok, err, Result}
use cluster_api_provider_ver.Bootstrap.Types.{
  max_script_size, Ntp, WriteFile, compress_threshold, Script, CloudConfig, Formats, log_path, User,
  cloud_config_header,
}
use Prim.Native.String.{len}
use cluster_api_provider_ver.Base.{
  ◌<>◌, not, ltb, if◌then◌else◌, [], Option, Bool, none, List, leb, ◌∷◌, String, true, ℕ, some,
}
use cluster_api_provider_ver.Base.Sort.{sort_texts}
use cluster_api_provider_ver.Base.Error.{Error, plain, wrap, noted}
use cluster_api_provider_ver.Base.Base64.{encode}
use cluster_api_provider_ver.Base.Text.{has_prefix, decimal}
use cluster_api_provider_ver.Base.TextEdit.{replace_all, trim_space}
use cluster_api_provider_ver.Base.Distinct.{contains}
use cluster_api_provider_ver.Base.Wrap.{wrap_base64}

abbrev pub hostname_placeholders : List String
hostname_placeholders =
    "{{ ds.meta_data.hostname }}" ∷ "{{ ds.meta_data.local_hostname }}"
    ∷ "{{ds.meta_data.hostname}}" ∷ "{{ds.meta_data.local_hostname}}" ∷ []

unfoldable pub fill_placeholders : List String → String → String → String
fill_placeholders [] text hostname = text
fill_placeholders (p ∷ ps) text hostname =
    fill_placeholders ps (replace_all text p hostname) hostname

abbrev known_keys : List String
known_keys = "bootcmd" ∷ "write_files" ∷ "runcmd" ∷ "users" ∷ "ntp" ∷ []

unfoldable unknown_keys : List String → List String
unknown_keys [] = []
unknown_keys (key ∷ keys) =
    let rest = unknown_keys keys in if not (contains key known_keys) then key ∷ rest else rest

unfoldable command_lines : List (List String) → String
command_lines [] = ""
command_lines (c ∷ cs) = shell c <> "\n" <> command_lines cs

abbrev command_section : String → List (List String) → String
command_section title [] = ""
command_section title (c ∷ cs) = "\n# " <> title <> "\n" <> command_lines (c ∷ cs)

unfoldable user_scripts : List User → String
user_scripts [] = ""
user_scripts (u ∷ us) = user_script u <> user_scripts us

abbrev users_section : List User → String
users_section [] = ""
users_section (u ∷ us) = "\n# users\n" <> user_scripts (u ∷ us)

abbrev is_enabled : Option Bool → Bool
is_enabled none = true
is_enabled (some b) = b

abbrev ntp_section : Option Ntp → String
ntp_section none = ""
ntp_section (some n) = if is_enabled n.enabled then "\n# ntp\n" <> ntp_script n.servers else ""

module _ (l : Formats) where
  unfoldable warning_lines : List String → String
  warning_lines [] = ""
  warning_lines (key ∷ keys) =
      "echo \"[capi-bootstrap] warning: cloud-config key "
      <> l.quote key
      <> " is not supported on Verda and was ignored\"\n"
      <> warning_lines keys

  abbrev files_section : List WriteFile → Result String
  files_section [] = ok ""
  files_section (f ∷ fs) = elim (write_files_from l 0 (f ∷ fs)) [
    | err e ↦ err e
    | ok text ↦ ok ("\n# write_files\n" <> text)
  ]

  -- The text that ToStartupScript writes, given that of the files.
  unfoldable pub render_script : CloudConfig → List String → String → String
  unfolding command_lines user_scripts warning_lines
  render_script cfg unsupported files =
      "#!/bin/bash\n"
      <> "# Generated by cluster-api-provider-verda from Cluster API bootstrap data. Do not edit.\n"
      <> "set -euo pipefail\n"
      <> "exec > >(tee -a "
      <> log_path
      <> ") 2>&1\n"
      <> "echo \"[capi-bootstrap] starting $(date -Is)\"\n"
      <> warning_lines unsupported
      <> command_section "bootcmd" cfg.boot_cmd
      <> files
      <> users_section cfg.users
      <> ntp_section cfg.ntp
      <> command_section "runcmd" cfg.run_cmd
      <> "\necho \"[capi-bootstrap] finished $(date -Is)\"\n"

  -- The script that unpacks a compressed one.
  unfoldable pub unpacking_script : List ℕ → String
  unpacking_script packed =
      "#!/bin/bash\n"
      <> "# Generated by cluster-api-provider-verda. The bootstrap script is gzip-compressed below\n"
      <> "# and unpacked to /run/capi-bootstrap.sh before running.\n"
      <> "set -euo pipefail\n"
      <> "base64 -d <<'__CAPI_GZ__' | gunzip > /run/capi-bootstrap.sh\n"
      <> wrap_base64 (encode packed)
      <> "__CAPI_GZ__\n"
      <> "chmod 0700 /run/capi-bootstrap.sh\n"
      <> "exec /run/capi-bootstrap.sh\n"

  -- ErrScriptTooLarge, by its text.
  abbrev script_too_large : Error
  script_too_large =
      plain ("startup script exceeds Verda's " <> decimal max_script_size <> " byte limit")

  abbrev too_large : ℕ → Error
  too_large size =
      noted script_too_large
        (decimal size <> " bytes after compression; reduce KubeadmConfig files")

  abbrev within_limit : String → Result String
  within_limit out = if ltb max_script_size (len out) then err (too_large (len out)) else ok out

  unfoldable pub fit : String → Result String
  unfolding unpacking_script
  fit script = if leb (len script) compress_threshold then ok script else elim (l.gzip script) [
    | err e ↦ err e
    | ok packed ↦ within_limit (unpacking_script packed)
  ]

  -- From the parsed cloud-config on.
  unfoldable pub convert : List String → CloudConfig → Result Script
  unfolding render_script unknown_keys
  convert keys cfg =
      let unsupported = sort_texts (unknown_keys keys) in
      elim (files_section cfg.write_files) [
        | err e ↦ err e
        | ok files ↦ elim (fit (render_script cfg unsupported files)) [
          | err e ↦ err e
          | ok script ↦ ok (record { script = script; unsupported = unsupported })
        ]
      ]

  unfoldable pub convert_cloud_config : String → Result Script
  convert_cloud_config trimmed = elim (l.parse_keys trimmed) [
    | err e ↦ err (wrap "parsing cloud-config" e)
    | ok keys ↦ elim (l.parse_config trimmed) [
      | err e ↦ err (wrap "parsing cloud-config" e)
      | ok cfg ↦ convert keys cfg
    ]
  ]

  unfoldable pub to_startup_script : String → String → Result Script
  unfolding fill_placeholders
  to_startup_script text hostname =
      let filled = fill_placeholders hostname_placeholders text hostname in
      let trimmed = trim_space filled in
      if has_prefix trimmed "#!"
      then ok (record { script = filled; unsupported = [] })
      else if not (is_cloud_config trimmed)
      then err (
          plain (
            "bootstrap data is neither a shell script nor " <> cloud_config_header
            <> "; ignition and other formats are not supported"))
      else convert_cloud_config trimmed
