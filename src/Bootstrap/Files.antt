-- ===== src/Bootstrap/Files.antt =====
-- cloudconfig.go: write_files, whose contents become base64 in here documents.
-- The encodings, in lower case and without white space around them.
use cluster_api_provider_ver.Base.{
  some, if◌then◌else◌, ◌∷◌, List, ◌||◌, zero, String, none, Bool, ℕ, false, ◌<>◌, ◌==◌, [], suc,
  not,
}
use cluster_api_provider_ver.Bootstrap.Shell.{shell_quote}
use cluster_api_provider_ver.Bootstrap.Types.{WriteFile, cloud_config_header, Formats}
use cluster_api_provider_ver.Base.Act.{Result, ok, err}
use cluster_api_provider_ver.Base.Text.{to_lower, cut, decimal, has_prefix}
use cluster_api_provider_ver.Base.Base64.{decode, encode, bytes_of}
use cluster_api_provider_ver.Base.TextEdit.{trim_space}
use cluster_api_provider_ver.Base.Error.{plain, Error, wrap}
use cluster_api_provider_ver.Base.Wrap.{wrap_base64}
use cluster_api_provider_ver.Base.Distinct.{contains}

abbrev plain_encodings : List String
plain_encodings = "" ∷ "text/plain" ∷ []

abbrev base64_encodings : List String
base64_encodings = "b64" ∷ "base64" ∷ "gz+b64" ∷ "gzip+base64" ∷ "gz+base64" ∷ "gzip+b64" ∷ []

abbrev gzip_encodings : List String
gzip_encodings = "gz" ∷ "gzip" ∷ []

abbrev folded : String → String
folded encoding = to_lower (trim_space encoding)

abbrev corrupt : Error
corrupt = plain "illegal base64 data"

unfoldable pub is_gzip : String → Bool
is_gzip encoding = has_prefix (folded encoding) "gz"

unfoldable pub is_cloud_config_within : ℕ → String → Bool
is_cloud_config_within zero s = false
is_cloud_config_within (suc zero) s = trim_space s == cloud_config_header
is_cloud_config_within (suc (suc n)) s =
    let later = is_cloud_config_within (suc n) in
    elim (cut b'\n' s) [
      | none ↦ trim_space s == cloud_config_header
      | some (line, rest) ↦ trim_space line == cloud_config_header || later rest
    ]

-- isCloudConfig: one of the first four lines is the header, where the fourth takes all the rest.
unfoldable pub is_cloud_config : String → Bool
unfolding is_cloud_config_within
is_cloud_config s = is_cloud_config_within 4 s

module _ (l : Formats) where
  -- decodeContent; base64's own error text is left open.
  unfoldable pub decode_content : String → String → Result (List ℕ)
  decode_content content encoding =
      if contains (folded encoding) plain_encodings
      then ok (bytes_of content)
      else if contains (folded encoding) base64_encodings
      then (elim (decode (trim_space content)) [
        | some bytes ↦ ok bytes
        | none ↦ err (wrap "decoding base64 content" corrupt)
      ])
      else if contains (folded encoding) gzip_encodings
      then ok (bytes_of content)
      else err (plain ("unsupported content encoding " <> l.quote encoding))

  abbrev pub delimiter : ℕ → String
  delimiter i = "__CAPI_FILE_" <> decimal i <> "__"

  -- The text of writeFileScript for a file and its decoded content.
  unfoldable pub file_text : ℕ → WriteFile → List ℕ → String
  file_text i f bytes =
      "mkdir -p "
      <> shell_quote (l.dir f.path)
      <> "\n"
      <> (if is_gzip f.encoding then "base64 -d | gunzip" else "base64 -d")
      <> " "
      <> (if f.append then ">>" else ">")
      <> " "
      <> shell_quote f.path
      <> " <<'"
      <> delimiter i
      <> "'\n"
      <> wrap_base64 (encode bytes)
      <> delimiter i
      <> "\n"
      <> (if not (f.permissions == "")
          then "chmod " <> shell_quote f.permissions <> " " <> shell_quote f.path <> "\n"
          else "")
      <> (if not (f.owner == "")
          then "chown " <> shell_quote f.owner <> " " <> shell_quote f.path <> "\n"
          else "")

  abbrev position : ℕ → String
  position i = "write_files[" <> decimal i <> "]"

  unfoldable pub write_file_script : ℕ → WriteFile → Result String
  write_file_script i f =
      if f.path == ""
      then err (plain (position i <> ": path is required"))
      else elim (decode_content f.content f.encoding) [
        | err e ↦ err (wrap (position i <> " (" <> f.path <> ")") e)
        | ok bytes ↦ ok (file_text i f bytes)
      ]

  abbrev both : Result String → Result String → Result String
  both (ok a) (ok b) = ok (a <> b)
  both (err e) _ = err e
  both (ok a) (err e) = err e

  unfoldable pub write_files_from : ℕ → List WriteFile → Result String
  write_files_from i [] = ok ""
  write_files_from i (f ∷ fs) = both (write_file_script i f) (write_files_from (suc i) fs)
