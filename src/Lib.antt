-- ===== src/Lib.antt =====
-- cluster-api-provider-verda is a Cluster API infrastructure provider for the Verda cloud. A reconciler
-- turns VerdaMachine objects into Verda instances and deletes them again, another gives each
-- VerdaCluster its endpoint and load balancers; admission webhooks guard the objects; and a cloud
-- controller manager in the workload cluster tells Kubernetes which nodes still exist and shares one
-- load balancer among the services. This library models them.
--
-- Parts, and the files of the repository that they model:
-- - Base: what all parts share. Errors are values (Error has the sentinels of internal/cloud/client.go,
--   the errors of the two remote APIs, and wrapping); an operation that can fail and that calls a
--   remote service is an action (Act) on a world, which comes back beside the error too; maps are
--   association lists (Dict); Text has the functions of Go's package strings that the code calls;
--   TextEdit replaces, trims and joins; Distinct has membership of texts in lists, Sort sorts texts;
--   Base64 is encoding/base64, with Decoding its round trip; Wrap is wrapBase64, with Wrapping its
--   lines; Outcomes steps through actions whose first result is known.
-- - Api: api/v1beta1/verdamachine_types.go, verdacluster_types.go, verdamachinetemplate_types.go,
--   verdaclustertemplate_types.go.
-- - Cloud: the types and the interface Client of internal/cloud/client.go. Cloud.Verda is the Verda
--   SDK, a parameter. Cloud.SdkClient is sdkClient, all methods: Convert reads, Creation creates,
--   Deletion deletes and tags. Cloud.Fake is internal/cloud/fake.go, Cloud.Factory
--   internal/cloud/factory.go, Cloud.Credentials internal/cloud/credentials.go.
-- - Platform: what the controllers take from cluster-api, controller-runtime and the clock, as
--   parameters, with their documented behaviour (IsLawful, IsRfc3339).
-- - Machine: internal/controller/verdamachine_controller.go. Helpers has findInstance, deleteRequestDue
--   and the pure helpers, Volume the clone of the OS volume, Provision reconcileNormal and
--   resyncInstance, Deletion reconcileDelete, Reconcile the entry point with its deferred patch. The
--   object that Go mutates in place is a field of the state beside the world.
-- - Cluster: internal/controller/verdacluster_controller.go and verdacluster_servicelb.go. KeySecrets is
--   ensureKeys, ControlPlane the instance and the backends of the control plane, Endpoint
--   reconcileEndpoint and reconcileLoadBalancer, ServiceLb the load balancer of the services with the
--   secret that it publishes, Deletion reconcileDelete, Reconcile reconcileNormal and the entry point.
--   State, world and deferred patch are as those of Machine.
-- - Bootstrap: internal/bootstrap/cloudconfig.go. Shell quotes, Files is write_files, Startup is
--   ToStartupScript. Words has a reader of shell words, as the description that the quoting is held to.
-- - LoadBalancer: internal/loadbalancer. Templates has each template of its folder templates as a
--   function into texts; Haproxy and Envoy are haproxy.go and envoy.go; Ssh and Session are ssh.go,
--   where Session is SSHUpdater.
-- - Template: internal/controller/verdamachinetemplate_controller.go.
-- - Webhook: internal/webhook/v1beta1. Validation is validation.go, Admission the defaulters and
--   validators of the four kinds.
-- - Ccm: internal/ccm. Frontends and ServiceLb are loadbalancer.go, Provider is provider.go.
-- - Tests: the theorems at concrete inputs.
--
-- The reconciler calls a Client and does not see which; Cloud.SdkClient.sdk_client and
-- Cloud.Fake.fake_client are the two that the repository has. The cluster reconciler and Ccm meet in
-- the secret of the workload cluster (Ccm.Publication), and Ccm uploads the files of LoadBalancer.Envoy.
-- Loops over lists recurse on them; wrapBase64 runs on fuel, one more than the length of its text, and
-- any more gives the same. A loop over a Go map takes the entries in the order of the list. Ports and
-- counts are natural numbers; sizes that the API holds as signed integers are ℤ. Sorting is by
-- insertion, since the order that the code asks for is total up to equal keys. Times are nanoseconds.
--
-- Texts are characters; what the code counts in bytes is either counted so (the size of a script) or
-- base64, of one byte a character. White space is that of ASCII.
--
-- Not modelled: the mains, the registration of watches and webhooks, and the generated code.
-- Parameters are the libraries that the code calls: the environment and the files, the Verda SDK, Kubernetes' clients, cluster-api's
-- helpers, the clock, SSH and key generation, YAML, gzip, path.Dir and strconv.Quote. So are the
-- conversion of bootstrap data in Machine, which Machine.Oversized takes from Bootstrap, and clientFor
-- of the reconcilers, which may be that of Cloud.Factory, with the cache in the world. The order that Go leaves open (maps,
-- equal keys of a sort) is that of the lists; error texts of base64 are left open, and the
-- sentinel of a script that is too large is kept as its text.
pub mod Base
pub mod Cloud
pub mod Api
pub mod Platform
pub mod Machine
pub mod Template
pub mod Webhook
pub mod LoadBalancer
pub mod Cluster
pub mod Bootstrap
pub mod Ccm
pub mod Tests
