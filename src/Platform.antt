-- ===== src/Platform.antt =====
-- What the controllers take from libraries that are not part of the repository, as parameters:
-- cluster-api's conditions and machine utilities, controller-runtime's finalizers, the clock, and
-- the reads of Kubernetes objects. `IsLawful` is their documented behaviour.
use cluster_api_provider_ver.Base.{
  ℕ, ◌+◌, ◌*◌, ◌≤◌, ◌<◌, ◌≡◌, String, Bool, Option, some, List, false, ◌==◌, if◌then◌else◌,
}
use cluster_api_provider_ver.Base.Dict.{Dict}
use cluster_api_provider_ver.Api.{Condition, ApiEndpoint}
use cluster_api_provider_ver.Base.Distinct.{contains}

-- Durations are nanoseconds, as time.Duration counts them.
abbrev pub seconds : ℕ → ℕ
seconds n = n * 1_000_000_000

abbrev pub minutes : ℕ → ℕ
minutes n = seconds (n * 60)

-- ctrl.Result; `0` asks for no requeue.
pub record Outcome : Type 0 where
  pub requeue_after : ℕ

abbrev pub done : Outcome
done = record { requeue_after = 0 }

abbrev pub requeue : ℕ → Outcome
requeue d = record { requeue_after = d }

-- The fields of clusterv1.Cluster that the controllers read.
pub record Cluster : Type 0 where
  pub namespace : String
  pub name : String
  pub infrastructure_provisioned : Option Bool
  pub infrastructure_ref_name : String
  pub infrastructure_ref_kind : String
  pub control_plane_endpoint : ApiEndpoint

-- The fields of clusterv1.Machine that the controllers read.
pub record Machine : Type 0 where
  pub namespace : String
  pub labels : Dict String
  pub data_secret_name : Option String

-- Functions of cluster-api and controller-runtime on the objects themselves.
pub record Library : Type 0 where
  pub set_condition : List Condition → Condition → List Condition
  pub delete_condition : List Condition → String → List Condition
  pub is_true : List Condition → String → Bool
  pub get_reason : List Condition → String → String
  pub get_message : List Condition → String → String
  pub remove_finalizer : String → List String → List String
  pub is_control_plane_machine : Machine → Bool
  pub ready_reason : String
  pub not_ready_reason : String
  pub deleting_reason : String
  pub ready_condition : String

pub record IsLawful (l : Library) : Type 0 where
  pub is_true-set_condition :
      (cs : List Condition) (c : Condition) (t : String)
      → l.is_true (l.set_condition cs c) t ≡ (if c.kind == t then c.status else l.is_true cs t)
  pub get_reason-set_condition :
      (cs : List Condition) (c : Condition) (t : String)
      → l.get_reason (l.set_condition cs c) t
        ≡ (if c.kind == t then c.reason else l.get_reason cs t)
  pub contains-remove_finalizer :
      (f : String) (fs : List String) → contains f (l.remove_finalizer f fs) ≡ false

-- time.Now, time.Parse and Format for RFC 3339 in UTC, which has whole seconds.
pub record Clock (W : Type 0) : Type 0 where
  pub now : W → ℕ × W
  pub parse : String → Option ℕ
  pub format : ℕ → String

-- What a text that Format wrote is read back as: the instant, without the part of a second.
pub record IsRfc3339 {W : Type 0} (c : Clock W) : Type 0 where
  pub floor : ℕ → ℕ
  pub parse-format : (t : ℕ) → c.parse (c.format t) ≡ some (floor t)
  pub floor-le : (t : ℕ) → floor t ≤ t
  pub lt-floor : (t : ℕ) → t < floor t + seconds 1
