-- ===== src/Cloud/Credentials/Profiles.antt =====
-- readCredentialsFile: which lines count.
-- The entries of a profile, in the order of the file.
use cluster_api_provider_ver.Base.{
  Bool, String, ◌∙◌, if◌then◌else◌, false, ◌∷◌, refl, [], ◌==◌, true, ◌≡◌, List, inl, arith, eq_iff,
  sym, inr, Bool-cases, ap, map, none,
}
use cluster_api_provider_ver.Base.Base64.{value}
use cluster_api_provider_ver.Cloud.Credentials.{
  entry, set_entry, section, read_lines, Line, ignored, no_credentials, Host, read_credentials_file,
  opened, line_of,
}
use cluster_api_provider_ver.Cloud.Factory.{Credentials}
use mathlib.Core.Path.{subst}

abbrev pub entries : String → Bool → List Line → List (String × String)
entries profile within [] = []
entries profile within (ignored ∷ lines) = entries profile within lines
entries profile within (section name ∷ lines) = entries profile (name == profile) lines
entries profile within (entry key value ∷ lines) =
    let rest = entries profile within lines in if within then (key, value) ∷ rest else rest

-- The value of the last entry of a key, or a given one.
abbrev last_value : String → String → List (String × String) → String
last_value key found [] = found
last_value key found ((name, value) ∷ rest) =
    last_value key (if name == key then value else found) rest

abbrev pub last_values : Credentials → List (String × String) → Credentials
last_values creds es = record {
  base_url = last_value "verda_base_url" creds.base_url es;
  client_id = last_value "verda_client_id" creds.client_id es;
  client_secret = last_value "verda_client_secret" creds.client_secret es;
}

abbrev IsTaken : String → Credentials → List (String × String) → String → Type 0
IsTaken value creds es key =
    last_values (set_entry key value creds) es ≡ last_values creds ((key, value) ∷ es)

set_entry-last_values :
    (key value : String) (creds : Credentials) (es : List (String × String))
    → IsTaken value creds es key
unfolding set_entry
set_entry-last_values key value creds es =
    let at : (literal : String)
        → IsTaken value creds es literal
        → (key == literal) ≡ true
        → IsTaken value creds es key =
      λ literal known e. subst (IsTaken value creds es) (sym ((eq_iff key literal).0 e)) known in
    elim (Bool-cases (key == "verda_base_url")) [
      | inl e ↦ at "verda_base_url" refl e
      | inr a ↦ elim (Bool-cases (key == "verda_client_id")) [
        | inl e ↦ at "verda_client_id" refl e
        | inr b ↦ elim (Bool-cases (key == "verda_client_secret")) [
          | inl e ↦ at "verda_client_secret" refl e
          | inr c ↦ ground arith
        ]
      ]
    ]

-- From any line on, the credentials that are read are, for each of the three keys, the value of the
-- last entry of the profile, where the sections of that name count together, and the value so far
-- where there is none.
read_lines-last_values :
    (profile : String) (within : Bool) (creds : Credentials) (lines : List Line)
    → read_lines profile within creds lines ≡ last_values creds (entries profile within lines)
unfolding read_lines
read_lines-last_values profile within creds [] = refl
read_lines-last_values profile within creds (ignored ∷ lines) =
    read_lines-last_values profile within creds lines
read_lines-last_values profile within creds (section name ∷ lines) =
    read_lines-last_values profile (name == profile) creds lines
read_lines-last_values profile true creds (entry key value ∷ lines) =
    read_lines-last_values profile true (set_entry key value creds) lines
    ∙ set_entry-last_values key value creds (entries profile true lines)
read_lines-last_values profile false creds (entry key value ∷ lines) =
    read_lines-last_values profile false creds lines

-- Where the file can be read to its end, readCredentialsFile returns, for each of the three keys, the
-- value of the last entry of the key in the sections of the profile, or the empty text where there
-- is none; entries outside those sections do not count.
pub read_credentials_file-last_values :
    (host : Host) (path profile : String) (texts : List String)
    → host.open_file path ≡ opened texts none
    → read_credentials_file host path profile
      ≡ (last_values no_credentials (entries profile false (map line_of texts)), none)
unfolding read_credentials_file
read_credentials_file-last_values host path profile texts h =
    rw (h, read_credentials_file)
      (ap (λ creds. (creds, none))
        (read_lines-last_values profile false no_credentials (map line_of texts)))
