-- ===== src/Tests/Scripts.antt =====
-- The startup scripts that are made of bootstrap data.
use cluster_api_provider_ver.Base.{
  [], false, ◌≤◌, arith, ◌∷◌, none, ◌≡◌, true, refl, some, leb, ap, if◌then◌else◌, String, ◌∙◌,
  Option,
}
use cluster_api_provider_ver.Bootstrap.{
  max_script_size, fill_placeholders, shell, shell_quote, hostname_placeholders, to_startup_script,
  fit, Formats, convert_cloud_config, is_cloud_config, convert, Script, render_script, CloudConfig,
}
use cluster_api_provider_ver.Base.Text.{cut, has_prefix}
use cluster_api_provider_ver.Bootstrap.Words.{shell_words, shell_words-shell}
use cluster_api_provider_ver.Base.Sort.{sort_texts}
use cluster_api_provider_ver.Base.Wrapping.{lines_within}
use cluster_api_provider_ver.Base.Base64.{encode, decode}
use cluster_api_provider_ver.Base.TextEdit.{join_texts, replace_all, replace_char, trim_space}
use cluster_api_provider_ver.Bootstrap.Payload.{payload_read_back}
use cluster_api_provider_ver.Base.Wrap.{wrap_lines, chars, wrap_base64}
use cluster_api_provider_ver.Bootstrap.Size.{len-to_startup_script}
use cluster_api_provider_ver.Base.Distinct.{contains}
use Prim.Native.String.{len}
use cluster_api_provider_ver.Base.Act.{ok, err, Act, raise, Result, pure}
use cluster_api_provider_ver.Base.Dict.{Dict, get_text, lookup}
use cluster_api_provider_ver.Machine.Scripts.{bootstrapping, AgreeOnSmall, NoScripts}
use cluster_api_provider_ver.Machine.{reconcile_normal, MachineState, MachineScope}
use cluster_api_provider_ver.Tests.Fixtures.{verda_machine, machine, verda_cluster, cluster, scope}
use cluster_api_provider_ver.Machine.Oversized.{large_script_never_sent}
use mathlib.Core.Path.{subst}
use cluster_api_provider_ver.Cloud.Fake.{new_fake, Fake, fake_client}
use cluster_api_provider_ver.Cloud.{Instance, InstanceSpec}
use cluster_api_provider_ver.Base.Error.{plain}

shell_words-shell_example :
    shell_words (shell ("echo" ∷ "it's $HOME" ∷ "" ∷ [])) ≡ some ("echo" ∷ "it's $HOME" ∷ "" ∷ [])
shell_words-shell_example = shell_words-shell "echo" "it's $HOME" ("" ∷ [])

abbrev no_config : CloudConfig
no_config = record {
  boot_cmd = [];
  write_files = [];
  run_cmd = ("echo" ∷ "hi" ∷ []) ∷ [];
  users = [];
  ntp = none;
}

-- Libraries that know one cloud-config.
abbrev formats : Formats
formats = record {
  quote = λ s. s;
  dir = λ s. "/";
  gzip = λ s. ok [];
  parse_keys = λ s. ok ("runcmd" ∷ []);
  parse_config = λ s. ok no_config;
}

abbrev greeting : Script
greeting = record { script = render_script formats no_config [] ""; unsupported = [] }

greets : to_startup_script formats "#cloud-config" "worker" ≡ ok greeting
unfolding to_startup_script trim_space is_cloud_config cut replace_all convert_cloud_config convert
    sort_texts contains fit shell shell_quote join_texts replace_char
greets = refl

is_no_script :
    has_prefix (trim_space (fill_placeholders hostname_placeholders "#cloud-config" "worker")) "#!"
    ≡ false
unfolding fill_placeholders trim_space replace_all
is_no_script = refl

len-to_startup_script_example : len greeting.script ≤ max_script_size
len-to_startup_script_example =
    len-to_startup_script formats "#cloud-config" "worker" greeting is_no_script greets

payload_read_back_example :
    let out = wrap_lines 9 (encode (77 ∷ 97 ∷ [])) in
    (out ≡ wrap_base64 (encode (77 ∷ 97 ∷ [])))
    × (lines_within 76 out ≡ true)
    × (decode out ≡ some (77 ∷ 97 ∷ []))
unfolding encode chars
payload_read_back_example =
    payload_read_back (77 ∷ 97 ∷ []) 9 (omega arith, (omega arith, tt)) (omega arith)

-- A machine whose bootstrap secret holds a cloud-config.
abbrev bootstrap_secret : Dict String
bootstrap_secret = ("value", "#cloud-config") ∷ []

abbrev keeper : MachineScope Fake
keeper = record scope { get_secret = λ namespace name. pure bootstrap_secret }

abbrev limited : InstanceSpec → Act Fake Instance
limited spec =
    if leb (len spec.startup_script) max_script_size
    then fake_client.create_instance spec
    else raise (plain "script too large")

limited-AgreeOnSmall : AgreeOnSmall fake_client.create_instance limited
limited-AgreeOnSmall spec w h = ground arith

abbrev text_in : Result (Dict String) → String
text_in (ok secret) = get_text "value" secret
text_in (err e) = ""

cloud_config_is_no_script :
    (hostname : String)
    → has_prefix
        (trim_space (fill_placeholders hostname_placeholders "#cloud-config" hostname))
        "#!"
      ≡ false
unfolding fill_placeholders trim_space replace_all
cloud_config_is_no_script hostname = refl

keeper-NoScripts : (namespace name : String) → NoScripts keeper namespace name
unfolding get_text lookup
keeper-NoScripts namespace name hostname text secret w w' got found =
    let here : "#cloud-config" ≡ get_text "value" secret = ap (λ x. text_in x.0) got in
    let same : "#cloud-config" ≡ text =
      here ∙ ap (λ (o : Option String). elim o [ none ↦ "" | some v ↦ v ]) found in
    subst
      (λ text.
        has_prefix (trim_space (fill_placeholders hostname_placeholders text hostname)) "#!"
        ≡ false)
      same (cloud_config_is_no_script hostname)

abbrev fresh_state : MachineState Fake
fresh_state = record { vm = verda_machine; world = new_fake }

large_script_never_sent_example :
    reconcile_normal
      (bootstrapping formats keeper fake_client.create_instance)
      cluster
      verda_cluster
      machine
      fresh_state
    ≡ reconcile_normal
        (bootstrapping formats keeper limited)
        cluster
        verda_cluster
        machine
        fresh_state
large_script_never_sent_example =
    large_script_never_sent formats keeper fake_client.create_instance limited limited-AgreeOnSmall
      cluster verda_cluster machine fresh_state (λ name e. keeper-NoScripts "default" name)
