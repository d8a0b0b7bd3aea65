-- ===== src/Cloud/Credentials.antt =====
-- internal/cloud/credentials.go: the credentials of the manager, from the environment or a file.
pub mod Profiles
use cluster_api_provider_ver.Base.{
  [], Option, some, false, map, ◌&&◌, ◌<>◌, String, if◌then◌else◌, ℕ, ◌∷◌, List, ◌==◌, ◌||◌, none,
  not, nat_eq, Bool,
}
use cluster_api_provider_ver.Base.Act.{ok, err, Result}
use cluster_api_provider_ver.Base.Text.{cut, has_prefix}
use cluster_api_provider_ver.Base.Error.{plain, Error, wrap}
use Prim.Native.Char.{code}
use cluster_api_provider_ver.Cloud.Factory.{Credentials}
use cluster_api_provider_ver.Base.TextEdit.{trim_space}
use cluster_api_provider_ver.Base.Base64.{value}

-- What opening a file gives: its lines, and the error that ended the reading.
pub data Opened : Type 0 where
  absent : Opened
  unopened : Error → Opened
  opened : List String → Option Error → Opened

-- The environment, the home directory, the path of the default file in it, the files, and the quoted
-- form of a text (%q).
pub record Host : Type 0 where
  pub getenv : String → String
  pub user_home_dir : Result String
  pub credentials_path : String → String
  pub open_file : String → Opened
  pub quote : String → String

abbrev pub env_base_url : String
env_base_url = "VERDA_BASE_URL"

abbrev pub env_client_id : String
env_client_id = "VERDA_CLIENT_ID"

abbrev pub env_client_secret : String
env_client_secret = "VERDA_CLIENT_SECRET"

abbrev pub env_profile : String
env_profile = "VERDA_PROFILE"

abbrev pub no_credentials : Credentials
no_credentials = record { base_url = ""; client_id = ""; client_secret = "" }

-- strings.HasSuffix of one character.
unfoldable pub ends_with : ℕ → String → Bool
ends_with k String.[] = false
ends_with k (String.◌∷◌ c String.[]) = nat_eq (code c) k
ends_with k (String.◌∷◌ c (String.◌∷◌ d s)) = ends_with k (String.◌∷◌ d s)

unfoldable pub without_last : String → String
without_last String.[] = ""
without_last (String.◌∷◌ c String.[]) = ""
without_last (String.◌∷◌ c (String.◌∷◌ d s)) = String.◌∷◌ c (without_last (String.◌∷◌ d s))

abbrev without_first : String → String
without_first String.[] = ""
without_first (String.◌∷◌ c s) = s

-- What a line of the file is, without its white space.
pub data Line : Type 0 where
  ignored : Line
  section : String → Line
  entry : String → String → Line

abbrev is_comment : String → Bool
is_comment line = line == "" || has_prefix line "#" || has_prefix line ";"

unfoldable pub line_of : String → Line
unfolding ends_with without_last
line_of text =
    let line = trim_space text in
    if is_comment line
    then ignored
    else if has_prefix line "[" && ends_with b']' line
    then section (trim_space (without_last (without_first line)))
    else elim (cut b'=' line) [
      | none ↦ ignored
      | some (key, value) ↦ entry (trim_space key) (trim_space value)
    ]

unfoldable pub set_entry : String → String → Credentials → Credentials
set_entry key value creds =
    if key == "verda_base_url"
    then record creds { base_url = value }
    else if key == "verda_client_id"
    then record creds { client_id = value }
    else if key == "verda_client_secret"
    then record creds { client_secret = value }
    else creds

-- The loop over the lines, with inProfile and creds.
unfoldable pub read_lines : String → Bool → Credentials → List Line → Credentials
read_lines profile in_profile creds [] = creds
read_lines profile in_profile creds (ignored ∷ lines) = read_lines profile in_profile creds lines
read_lines profile in_profile creds (section name ∷ lines) =
    read_lines profile (name == profile) creds lines
read_lines profile in_profile creds (entry key value ∷ lines) =
    let with_entry = if in_profile then set_entry key value creds else creds in
    read_lines profile in_profile with_entry lines

-- The credentials beside the error, as Go returns them.
unfoldable pub read_credentials_file : Host → String → String → Credentials × Option Error
unfolding line_of
read_credentials_file host path profile = elim (host.open_file path) [
  | absent ↦ (no_credentials, none)
  | unopened e ↦ (no_credentials, some (wrap "opening credentials file" e))
  | opened texts failure ↦
      let creds = read_lines profile false no_credentials (map line_of texts) in
      elim failure [
        | none ↦ (creds, none)
        | some e ↦ (creds, some (wrap "reading credentials file" e))
      ]
]

abbrev or_else : String → String → String
or_else a b = if a == "" then b else a

abbrev filled_from : Credentials → Credentials → Credentials
filled_from creds file = record {
  base_url = or_else creds.base_url file.base_url;
  client_id = or_else creds.client_id file.client_id;
  client_secret = or_else creds.client_secret file.client_secret;
}

abbrev is_complete : Credentials → Bool
is_complete creds = not (creds.client_id == "") && not (creds.client_secret == "")

abbrev none_found : Host → String → String → Error
none_found host profile path = plain (
    "no Verda credentials: set "
    <> env_client_id
    <> " and "
    <> env_client_secret
    <> " or add them to profile "
    <> host.quote profile
    <> " in "
    <> path)

abbrev from_environment : Host → Credentials
from_environment host = record {
  base_url = host.getenv env_base_url;
  client_id = host.getenv env_client_id;
  client_secret = host.getenv env_client_secret;
}

abbrev profile_of : Host → String
profile_of host = or_else (host.getenv env_profile) "default"

-- From the path of the file on.
unfoldable pub load_from : Host → Credentials → String → Credentials × Option Error
load_from host creds path =
    let profile = profile_of host in
    let (file, failure) = read_credentials_file host path profile in
    elim failure [
      | some e ↦ (creds, some e)
      | none ↦
          let filled = filled_from creds file in
          if is_complete filled
          then (filled, none)
          else (filled, some (none_found host profile path))
    ]

unfoldable pub load_credentials : Host → String → Credentials × Option Error
unfolding load_from
load_credentials host path =
    let creds = from_environment host in
    if is_complete creds
    then (creds, none)
    else if path == ""
    then (elim host.user_home_dir [
      | err e ↦ (creds, some (wrap "resolving home directory" e))
      | ok home ↦ load_from host creds (host.credentials_path home)
    ])
    else load_from host creds path
