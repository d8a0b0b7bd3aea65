-- ===== src/LoadBalancer/Connections.antt =====
-- run of SSHUpdater: its connections.
use cluster_api_provider_ver.Base.Error.{Error, wrap}
use cluster_api_provider_ver.Base.{
  ◌∙◌, ℕ, ◌≡◌, ◌<>◌, refl, String, sym, inr, ◌≢◌, inl, true, Bool, ◌⊎◌, false, arith,
}
use cluster_api_provider_ver.LoadBalancer.Types.{Keys}
use cluster_api_provider_ver.LoadBalancer.Session.{
  run, with_client, SshConfig, deferring, SshLibrary, run_in, with_conn, with_host_key, with_signer,
  with_dial, timeout_of,
}
use cluster_api_provider_ver.Base.Act.{Act, Result, raise, err, ok}
use cluster_api_provider_ver.Base.Outcomes.{outcome_of}

-- Which connections are open, as the documentation of net and ssh has it: a dial opens the connection
-- that it returns, and nothing else opens one; a connection that is closed is not open, and the
-- closing of a client closes the connection that it was made of. A call may close what it likes.
pub record IsNetwork {W Signer HostKey Conn SshClient Session : Type 0}
    (l : SshLibrary W Signer HostKey Conn SshClient Session) (is_open : W → Conn → Bool)
    (conn_of : SshClient → Conn) : Type 0 where
  pub dial-ok :
      (timeout : ℕ) (addr : String) (conn : Conn) (w : W)
      → (l.dial timeout addr w).0 ≡ ok conn
      → (d : Conn) → is_open (l.dial timeout addr w).1 d ≡ true
      → (is_open w d ≡ true) ⊎ (d ≡ conn)
  pub dial-err :
      (timeout : ℕ) (addr : String) (e : Error) (w : W)
      → (l.dial timeout addr w).0 ≡ err e
      → (d : Conn) → is_open (l.dial timeout addr w).1 d ≡ true
      → is_open w d ≡ true
  pub new_client-ok :
      (conn : Conn) (addr : String) (config : SshConfig Signer HostKey) (client : SshClient) (w : W)
      → (l.new_client conn addr config w).0 ≡ ok client
      → conn_of client ≡ conn
  pub new_client-opens_none :
      (conn : Conn) (addr : String) (config : SshConfig Signer HostKey) (w : W) (d : Conn)
      → is_open (l.new_client conn addr config w).1 d ≡ true
      → is_open w d ≡ true
  pub new_session-opens_none :
      (client : SshClient) (w : W) (d : Conn)
      → is_open (l.new_session client w).1 d ≡ true
      → is_open w d ≡ true
  pub run_command-opens_none :
      (session : Session) (stdin command : String) (w : W) (d : Conn)
      → is_open (l.run_command session stdin command w).1 d ≡ true
      → is_open w d ≡ true
  pub close_session-opens_none :
      (session : Session) (w : W) (d : Conn)
      → is_open (l.close_session session w) d ≡ true
      → is_open w d ≡ true
  pub close_conn-closes :
      (conn : Conn) (w : W) (d : Conn)
      → is_open (l.close_conn conn w) d ≡ true
      → (is_open w d ≡ true) × (d ≢ conn)
  pub close_client-closes :
      (client : SshClient) (w : W) (d : Conn)
      → is_open (l.close_client client w) d ≡ true
      → (is_open w d ≡ true) × (d ≢ conn_of client)

-- What holds of the end of an action if it holds whatever its first part gives.
module _ {W A B : Type 0} (P : W → Type 0) (fail : Error → Act W B) (next : A → Act W B) where
  after_all :
      (x : Result A × W)
      → ((e : Error) → x.0 ≡ err e → P (fail e x.1).1)
      → ((a : A) → x.0 ≡ ok a → P (next a x.1).1)
      → P (outcome_of fail next x).1
  after_all (ok a, w) failed done = done a refl
  after_all (err e, w) failed done = failed e refl

module _ {W Signer HostKey Conn SshClient Session : Type 0}
    (l : SshLibrary W Signer HostKey Conn SshClient Session) (is_open : W → Conn → Bool)
    (conn_of : SshClient → Conn) (network : IsNetwork l is_open conn_of) (d : Conn) where
  abbrev LeavesOpen : W → W → Type 0
  LeavesOpen w w' = is_open w' d ≡ true → is_open w d ≡ true

  with_client-LeavesOpen :
      (addr stdin command : String) (client : SshClient) (w : W)
      → LeavesOpen w (with_client l addr stdin command client w).1
  with_client-LeavesOpen addr stdin command client w =
      after_all (LeavesOpen w) (λ e. raise (wrap "opening ssh session" e))
        (λ session. deferring l (l.close_session session) (run_in l addr stdin command session))
        (l.new_session client w) (λ e p. network.new_session-opens_none client w d)
        λ session p h.
          let v = (l.new_session client w).1 in
          network.new_session-opens_none client w d (
            network.run_command-opens_none session stdin command v d (
              network.close_session-opens_none session (l.run_command session stdin command v).1 d
                h))

  -- The connection is closed in any case.
  with_conn-closes :
      (addr stdin command : String) (config : SshConfig Signer HostKey) (conn : Conn) (w : W)
      → is_open (with_conn l addr stdin command config conn w).1 d ≡ true
      → (is_open w d ≡ true) × (d ≢ conn)
  with_conn-closes addr stdin command config conn w =
      let v = (l.new_client conn addr config w).1 in
      after_all (λ w'. is_open w' d ≡ true → (is_open w d ≡ true) × (d ≢ conn))
        (λ e.
          deferring l (l.close_conn conn)
            (raise (wrap ("ssh handshake with load balancer " <> addr) e)))
        (λ client. deferring l (l.close_client client) (with_client l addr stdin command client))
        (l.new_client conn addr config w)
        (λ e p h.
          let closed = network.close_conn-closes conn v d h in
          (network.new_client-opens_none conn addr config w d closed.0, closed.1))
        λ client p h.
          let closed =
            network.close_client-closes client (with_client l addr stdin command client v).1 d h in
          (
            network.new_client-opens_none conn addr config w d
                (with_client-LeavesOpen addr stdin command client v closed.0),
            λ same. closed.1 (same ∙ sym (network.new_client-ok conn addr config client w p)),
          )

  with_dial-LeavesOpen :
      (timeout : ℕ) (addr stdin command : String) (config : SshConfig Signer HostKey) (w : W)
      → LeavesOpen w (with_dial l timeout addr stdin command config w).1
  with_dial-LeavesOpen timeout addr stdin command config w =
      let to = l.join_host_port addr "22" in
      after_all (LeavesOpen w) (λ e. raise (wrap ("connecting to load balancer " <> addr) e))
        (with_conn l addr stdin command config) (l.dial timeout to w)
        (λ e p. network.dial-err timeout to e w p d)
        λ conn p h.
          let closed = with_conn-closes addr stdin command config conn (l.dial timeout to w).1 h in
          elim (network.dial-ok timeout to conn w p d closed.0) [
            | inl before ↦ before
            | inr same ↦ absurd (closed.1 same)
          ]

  run-LeavesOpen :
      (timeout : ℕ) (addr stdin command : String) (keys : Keys) (w : W)
      → LeavesOpen w (run l timeout addr keys stdin command w).1
  unfolding run
  run-LeavesOpen timeout addr stdin command keys w =
      elim (l.parse_private_key keys.client_private_key)
        as (λ o. LeavesOpen w (with_signer l timeout addr stdin command keys o w).1) [
          | err e ↦ λ h. h
          | ok signer ↦
              elim (l.parse_authorized_key keys.host_public_key)
                as (λ o. LeavesOpen w (with_host_key l timeout addr stdin command signer o w).1) [
                  | err e ↦ λ h. h
                  | ok host_key ↦ with_dial-LeavesOpen (timeout_of l timeout) addr stdin command _ w
                ]
        ]

  -- Over a network as it is documented: whatever fails, a connection that was not open before run is
  -- not open after it.
  pub run_closes_connections :
      (timeout : ℕ) (addr stdin command : String) (keys : Keys) (w : W)
      → is_open w d ≡ false
      → is_open (run l timeout addr keys stdin command w).1 d ≡ false
  run_closes_connections timeout addr stdin command keys w h =
      ground (arith, run-LeavesOpen timeout addr stdin command keys w)
