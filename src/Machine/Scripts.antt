-- ===== src/Machine/Scripts.antt =====
-- createInstance over bootstrap.ToStartupScript: the sizes of the scripts.
use cluster_api_provider_ver.Bootstrap.{
  to_startup_script, Formats, fill_placeholders, hostname_placeholders, max_script_size, Script,
}
use cluster_api_provider_ver.Base.{◌≤◌, ◌≡◌, List, some, false, String, refl, arith}
use cluster_api_provider_ver.Machine.Helpers.{MachineScope}
use Prim.Native.String.{len}
use cluster_api_provider_ver.Base.Act.{Act, err, ok, Result, handle, pure, raise, ◌>>=◌}
use cluster_api_provider_ver.Base.Dict.{Dict, lookup}
use cluster_api_provider_ver.Base.Text.{has_prefix}
use cluster_api_provider_ver.Base.TextEdit.{trim_space}
use cluster_api_provider_ver.Cloud.{Instance, InstanceSpec}
use cluster_api_provider_ver.Bootstrap.Size.{len-to_startup_script}
use cluster_api_provider_ver.Base.Outcomes.{outcome_of}
use cluster_api_provider_ver.Base.Error.{wrap}

module _ {W : Type 0} where
  abbrev answered : Result Script → W → Result (String × List String) × W
  answered (err e) w = (err e, w)
  answered (ok made) w = (ok (made.script, made.unsupported), w)

-- bootstrap.ToStartupScript as the reconciler calls it.
module _ {W : Type 0} (l : Formats) where
  abbrev pub bootstrapped : String → String → Act W (String × List String)
  bootstrapped text hostname w = answered (to_startup_script l text hostname) w

  abbrev pub bootstrapping : MachineScope W → (InstanceSpec → Act W Instance) → MachineScope W
  bootstrapping r create = record r {
    to_startup_script = bootstrapped;
    cloud = record r.cloud { create_instance = create };
  }

-- The secret of a name holds no data that is a script itself.
abbrev pub NoScripts : {W : Type 0} → MachineScope W → String → String → Type 0
NoScripts {W} r namespace secret_name =
    (hostname text : String) (secret : Dict String) (w w' : W)
    → r.get_secret namespace secret_name w ≡ (ok secret, w')
    → lookup "value" secret ≡ some text
    → has_prefix (trim_space (fill_placeholders hostname_placeholders text hostname)) "#!" ≡ false

-- Two ways to create instances that agree where the script has at most 48 KiB.
abbrev pub AgreeOnSmall : {W : Type 0} → (c c' : InstanceSpec → Act W Instance) → Type 0
AgreeOnSmall {W} c c' =
    (spec : InstanceSpec) (w : W) → len spec.startup_script ≤ max_script_size → c spec w ≡ c' spec w

module _ {W : Type 0} (l : Formats) where
  len-answered :
      (res : Result Script)
      → ((made : Script) → res ≡ ok made → len made.script ≤ max_script_size)
      → (made : String × List String) (w w' : W) → answered res w ≡ (ok made, w')
      → len made.0 ≤ max_script_size
  len-answered (err e) small made w w' p = ground arith
  len-answered (ok script) small made w w' p = ground (arith, p, small script refl)

  pub len-bootstrapped :
      (text hostname : String)
      → has_prefix (trim_space (fill_placeholders hostname_placeholders text hostname)) "#!" ≡ false
      → (made : String × List String) (w w' : W) → bootstrapped l text hostname w ≡ (ok made, w')
      → len made.0 ≤ max_script_size
  len-bootstrapped text hostname h made w w' p =
      len-answered (to_startup_script l text hostname)
        (λ script. len-to_startup_script l text hostname script h) made w w' p

  abbrev pub converted : String → String → Act W (String × List String)
  converted text hostname =
      handle (bootstrapped l text hostname)
        (λ e. raise (wrap "converting bootstrap data to startup script" e)) pure

  abbrev pub create_with :
      (InstanceSpec → Act W Instance) → String → String → (String → InstanceSpec) → Act W Instance
  create_with create text hostname spec = converted text hostname >>= λ made. create (spec made.0)

  pub wrapped_ok :
      (x : Result (String × List String) × W) (made : String × List String) (w : W)
      → outcome_of (λ e. raise (wrap "converting bootstrap data to startup script" e)) pure x
        ≡ (ok made, w)
      → x ≡ (ok made, w)
  wrapped_ok (err e, w') made w p = ground arith
  wrapped_ok (ok a, w') made w p = p
