-- ===== src/LoadBalancer/Ssh.antt =====
-- ssh.go: the script that installs files, and the fake updater.
use cluster_api_provider_ver.Base.{
  String, ◌<>◌, ℕ, List, [], ◌∷◌, Option, ◌==◌, not, if◌then◌else◌, ◌+◌, some, none, suc,
}
use cluster_api_provider_ver.Base.Text.{decimal}
use cluster_api_provider_ver.Base.Base64.{encode_text}
use cluster_api_provider_ver.Base.Wrap.{wrap_base64}
use cluster_api_provider_ver.Base.Dict.{Dict, insert}
use cluster_api_provider_ver.Base.Error.{Error}
use cluster_api_provider_ver.Base.Act.{Act, Result, ok, err}
use cluster_api_provider_ver.LoadBalancer.Types.{Keys, File}

-- The part of InstallScript for the file at a position.
abbrev install_file : ℕ → File → String
install_file i f =
    "base64 -d > "
    <> f.path
    <> ".new."
    <> decimal i
    <> " <<'__CAPI_FILE__'\n"
    <> wrap_base64 (encode_text f.content)
    <> "__CAPI_FILE__\n"
    <> "mv -f "
    <> f.path
    <> ".new."
    <> decimal i
    <> " "
    <> f.path
    <> "\n"

unfoldable install_from : ℕ → List File → String
install_from i [] = ""
install_from i (f ∷ fs) = install_file i f <> install_from (suc i) fs

unfoldable pub install_script : List File → String → String
unfolding install_from
install_script files reload =
    "set -euo pipefail\n"
    <> install_from 0 files
    <> (if not (reload == "") then reload <> "\n" else "")

pub record FakeUpdater : Type 0 where
  pub backends : Dict (List String)
  pub files : Dict (List File)
  pub calls : ℕ
  pub failure : Option Error

abbrev counted : FakeUpdater → FakeUpdater
counted f = record f { calls = f.calls + 1 }

abbrev unless_failing : FakeUpdater → FakeUpdater → Result (Unit {0}) × FakeUpdater
unless_failing f done = elim f.failure [ some e ↦ (err e, f) | none ↦ (ok tt, done) ]

unfoldable pub fake_update_files : String → Keys → List File → String → Act FakeUpdater (Unit {0})
fake_update_files addr keys files reload f =
    let f' = counted f in unless_failing f' (record f' { files = insert addr files f'.files })

unfoldable pub fake_update_backends : String → Keys → List String → Act FakeUpdater (Unit {0})
fake_update_backends addr keys backends f =
    let f' = counted f in
    unless_failing f' (record f' { backends = insert addr backends f'.backends })
