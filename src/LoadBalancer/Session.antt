-- ===== src/LoadBalancer/Session.antt =====
-- ssh.go: SSHUpdater, over golang.org/x/crypto/ssh and net.
-- The configuration of a client; its user is root, and the one host key algorithm is Ed25519.
use cluster_api_provider_ver.Base.Act.{ok, Act, Result, raise, handle, err}
use cluster_api_provider_ver.Base.{◌*◌, ℕ, nat_eq, String, if◌then◌else◌, List, ◌<>◌}
use cluster_api_provider_ver.LoadBalancer.Types.{File, Keys}
use cluster_api_provider_ver.Base.Error.{wrap, noted}
use cluster_api_provider_ver.Base.TextEdit.{trim_space}
use cluster_api_provider_ver.LoadBalancer.Haproxy.{haproxy_config, update_command}
use cluster_api_provider_ver.LoadBalancer.Ssh.{install_script}

pub record SshConfig (Signer HostKey : Type 0) : Type 0 where
  pub signer : Signer
  pub host_key : HostKey
  pub timeout : ℕ

-- The libraries: keys, connections, clients and sessions are theirs. A command gives its result and
-- what it wrote to its standard error.
pub record SshLibrary (W Signer HostKey Conn SshClient Session : Type 0) : Type 0 where
  pub parse_private_key : String → Result Signer
  pub parse_authorized_key : String → Result HostKey
  pub join_host_port : String → String → String
  pub dial : ℕ → String → Act W Conn
  pub new_client : Conn → String → SshConfig Signer HostKey → Act W SshClient
  pub new_session : SshClient → Act W Session
  pub run_command : Session → String → String → W → (Result (Unit {0}) × String) × W
  pub close_conn : Conn → W → W
  pub close_client : SshClient → W → W
  pub close_session : Session → W → W

module _ {W Signer HostKey Conn SshClient Session : Type 0}
    (l : SshLibrary W Signer HostKey Conn SshClient Session) where
  -- defer func() { close }()
  abbrev pub deferring : {A : Type 0} → (W → W) → Act W A → Act W A
  deferring close m w = let (r, w') = m w in (r, close w')

  abbrev named : String → Result (Unit {0}) × String → Result (Unit {0})
  named addr (ok a, _) = ok a
  named addr (err e, stderr) =
      err (wrap ("updating load balancer " <> addr) (noted e (trim_space stderr)))

  abbrev pub run_in : String → String → String → Session → Act W (Unit {0})
  run_in addr stdin command session w =
      let (r, w') = l.run_command session stdin command w in (named addr r, w')

  abbrev pub with_client : String → String → String → SshClient → Act W (Unit {0})
  with_client addr stdin command client =
      handle (l.new_session client) (λ e. raise (wrap "opening ssh session" e))
        λ session. deferring (l.close_session session) (run_in addr stdin command session)

  abbrev pub with_conn :
      String → String → String → SshConfig Signer HostKey → Conn → Act W (Unit {0})
  with_conn addr stdin command config conn =
      handle (l.new_client conn addr config)
        (λ e.
          deferring (l.close_conn conn)
            (raise (wrap ("ssh handshake with load balancer " <> addr) e)))
        λ client. deferring (l.close_client client) (with_client addr stdin command client)

  abbrev pub timeout_of : ℕ → ℕ
  timeout_of timeout = if nat_eq timeout 0 then 20 * 1_000_000_000 else timeout

  abbrev pub with_dial : ℕ → String → String → String → SshConfig Signer HostKey → Act W (Unit {0})
  with_dial timeout addr stdin command config =
      handle (l.dial timeout (l.join_host_port addr "22"))
        (λ e. raise (wrap ("connecting to load balancer " <> addr) e))
        (with_conn addr stdin command config)

  abbrev pub with_host_key :
      ℕ → String → String → String → Signer → Result HostKey → Act W (Unit {0})
  with_host_key timeout addr stdin command signer (err e) = raise (wrap "parsing host key" e)
  with_host_key timeout addr stdin command signer (ok host_key) =
      with_dial (timeout_of timeout) addr stdin command
        (record { signer = signer; host_key = host_key; timeout = timeout_of timeout })

  abbrev pub with_signer : ℕ → String → String → String → Keys → Result Signer → Act W (Unit {0})
  with_signer timeout addr stdin command keys (err e) = raise (wrap "parsing client key" e)
  with_signer timeout addr stdin command keys (ok signer) =
      with_host_key timeout addr stdin command signer (l.parse_authorized_key keys.host_public_key)

  -- run, where the updater has a timeout; the deadline of the context is part of the connection.
  unfoldable pub run : ℕ → String → Keys → String → String → Act W (Unit {0})
  run timeout addr keys stdin command =
      with_signer timeout addr stdin command keys (l.parse_private_key keys.client_private_key)

  unfoldable pub update_backends : ℕ → String → Keys → List String → Act W (Unit {0})
  unfolding run
  update_backends timeout addr keys backends =
      run timeout addr keys (haproxy_config backends) update_command

  unfoldable pub update_files : ℕ → String → Keys → List File → String → Act W (Unit {0})
  unfolding run
  update_files timeout addr keys files reload =
      run timeout addr keys (install_script files reload) "bash -s"
