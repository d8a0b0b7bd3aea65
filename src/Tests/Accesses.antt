-- ===== src/Tests/Accesses.antt =====
-- The manager's credentials from a file, and an upload over SSH.
use cluster_api_provider_ver.Cloud.Credentials.{
  opened, load_credentials, Host, read_lines, set_entry, read_credentials_file, line_of,
  no_credentials,
}
use cluster_api_provider_ver.Cloud.Credentials.Profiles.{
  read_credentials_file-last_values, entries, last_values,
}
use cluster_api_provider_ver.Base.{
  ◌∷◌, map, false, none, refl, [], ◌≡◌, List, String, ◌<>◌, arith, true, if◌then◌else◌, ◌≢◌, ap,
  ◌==◌, eq_iff, sym,
}
use cluster_api_provider_ver.Base.Text.{cut}
use cluster_api_provider_ver.Base.Act.{ok, err, pure, Result}
use cluster_api_provider_ver.Cloud.Factory.{Credentials}
use cluster_api_provider_ver.Base.TextEdit.{trim_space}
use cluster_api_provider_ver.Base.Error.{noted, wrap, plain}
use cluster_api_provider_ver.LoadBalancer.{SshLibrary, Keys, run}
use cluster_api_provider_ver.LoadBalancer.Connections.{run_closes_connections, IsNetwork}
use cluster_api_provider_ver.Base.Distinct.{contains}

abbrev texts : List String
texts =
    "[other]" ∷ "verda_client_id = x" ∷ "# a comment" ∷ "[default]" ∷ "verda_client_id = a"
    ∷ " verda_client_secret=s " ∷ "verda_client_id = b" ∷ []

abbrev host : Host
host = record {
  getenv = λ name. "";
  user_home_dir = ok "/root";
  credentials_path = λ home. "/root/.verda/credentials";
  open_file = λ path. opened texts none;
  quote = λ s. "\"" <> s <> "\"";
}

abbrev expected : Credentials
expected = record { base_url = ""; client_id = "b"; client_secret = "s" }

expected_ok : load_credentials host "" ≡ (expected, none)
unfolding load_credentials read_credentials_file read_lines set_entry trim_space cut
expected_ok = refl

read_credentials_file-last_values_example :
    read_credentials_file host "/etc/verda" "default"
    ≡ (last_values no_credentials (entries "default" false (map line_of texts)), none)
read_credentials_file-last_values_example =
    read_credentials_file-last_values host "/etc/verda" "default" texts refl

-- The connections that are left when one is closed.
without : String → List String → List String
without c [] = []
without c (d ∷ ds) = let rest = without c ds in if d == c then rest else d ∷ rest

contains-without :
    (c d : String) (ds : List String)
    → contains d (without c ds) ≡ true
    → (contains d ds ≡ true) × (d ≢ c)
unfolding without contains
contains-without c d [] h = ground arith
contains-without c d (e ∷ ds) h = ground (arith, contains-without c d ds, eq_iff e c, eq_iff e d)

-- A load balancer that answers, and whose command fails; the world is the list of open connections.
abbrev failing_host : SshLibrary (List String) (Unit {0}) (Unit {0}) String String (Unit {0})
failing_host = record {
  parse_private_key = λ key. ok tt;
  parse_authorized_key = λ key. ok tt;
  join_host_port = λ addr port. addr <> ":" <> port;
  dial = λ timeout addr w. (ok addr, addr ∷ w);
  new_client = λ conn addr config. pure conn;
  new_session = λ client. pure tt;
  run_command = λ session stdin command w. ((err (plain "exit status 1"), " no such unit "), w);
  close_conn = without;
  close_client = without;
  close_session = λ session w. w;
}

abbrev address_of : Result String → String
address_of (ok addr) = addr
address_of (err e) = ""

failing_host-IsNetwork : IsNetwork failing_host (λ w d. contains d w) (λ client. client)
unfolding contains
failing_host-IsNetwork = record {
  dial-ok = λ timeout addr conn w p d h.
      let same : addr ≡ conn = ap address_of p in ground (arith, h, same, eq_iff addr d);
  dial-err = λ timeout addr e w p d h. ground (arith, p);
  new_client-ok = λ conn addr config client w p. ap address_of (sym p);
  new_client-opens_none = λ conn addr config w d h. h;
  new_session-opens_none = λ client w d h. h;
  run_command-opens_none = λ session stdin command w d h. h;
  close_session-opens_none = λ session w d h. h;
  close_conn-closes = λ conn w d h. contains-without conn d w h;
  close_client-closes = λ client w d h. contains-without client d w h;
}

abbrev host_keys : Keys
host_keys = record {
  client_private_key = "a";
  client_public_key = "b";
  host_private_key = "c";
  host_public_key = "d";
}

reports_output :
    (run failing_host 0 "192.0.2.1" host_keys "" "reload" []).0
    ≡ err (wrap "updating load balancer 192.0.2.1" (noted (plain "exit status 1") "no such unit"))
unfolding run trim_space
reports_output = refl

run_closes_connections_example :
    contains "192.0.2.1:22" (run failing_host 0 "192.0.2.1" host_keys "" "reload" []).1 ≡ false
unfolding contains
run_closes_connections_example =
    run_closes_connections failing_host (λ w d. contains d w) (λ client. client)
      failing_host-IsNetwork "192.0.2.1:22" 0 "192.0.2.1" "" "reload" host_keys [] refl
