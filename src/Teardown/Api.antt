-- ===== src/Teardown/Api.antt =====
-- The objects and constants that internal/teardown uses: of a Cluster API Machine, a Secret and the
-- rest, the fields that the code reads. The text of the constants that cluster-api defines is a
-- parameter (`ClusterApi`). teardown.go's own constants stand here.
use cluster_api_runtime_exte.Base.{ℕ, String, ◌<>◌, Option, List}
use cluster_api_runtime_exte.Base.Dict.{Dict}

-- The constants of sigs.k8s.io/cluster-api and apimachinery that the code compares with.
pub record ClusterApi : Type 0 where
  pub pre_terminate_prefix : String
  pub control_plane_label : String
  pub cluster_name_label : String
  pub deleting_condition : String
  pub condition_true : String
  pub deleting : String
  pub waiting_for_pre_drain_hook : String
  pub draining_node : String
  pub waiting_for_volume_detach : String
  pub waiting_for_pre_terminate_hook : String
  pub internal_ip : String
  pub external_ip : String
  pub host_name : String

pub record ObjectKey : Type 0 where
  pub namespace : String
  pub name : String

pub record Address : Type 0 where
  pub kind : String
  pub address : String

pub record Condition : Type 0 where
  pub kind : String
  pub status : String
  pub reason : String

pub record Ref : Type 0 where
  pub kind : String
  pub api_group : String
  pub name : String

-- clusterv1.Machine. Timestamps count seconds; a zero deletion timestamp is `none`.
pub record Machine : Type 0 where
  pub name : String
  pub namespace : String
  pub labels : Dict String
  pub annotations : Dict String
  pub creation_timestamp : ℕ
  pub deletion_timestamp : Option ℕ
  pub cluster_name : String
  pub bootstrap : Ref
  pub infrastructure : Ref
  pub node_ref : String
  pub addresses : List Address
  pub conditions : List Condition

-- clusterv1.Cluster
pub record Cluster : Type 0 where
  pub deletion_timestamp : Option ℕ

-- The three fields of a TinkerbellMachine that address.go reads. An entry of `addresses` that is no
-- map is `none`; a field that is absent or no string is "".
pub record InfraMachine : Type 0 where
  pub namespace : String
  pub addresses : List (Option Address)
  pub hardware_name : String
  pub target_namespace : String

-- tinkv1.Hardware: for each interface, its DHCP IP address if it has one.
pub record Hardware : Type 0 where
  pub interfaces : List (Option (Option String))

-- corev1.Secret
pub record Secret : Type 0 where
  pub name : String
  pub namespace : String
  pub resource_version : String
  pub labels : Dict String
  pub annotations : Dict String
  pub contents : Dict String

unfoldable pub hook_value : String
hook_value = "talos-machine-teardown"

-- HookAnnotation: the pre-terminate prefix and a stable suffix.
unfoldable pub hook_annotation : ClusterApi → String
hook_annotation api = api.pre_terminate_prefix <> "/talos-teardown"

abbrev pub observed_at_annotation : String
observed_at_annotation = "teardown.tinkerbell.org/pre-terminate-observed-at"

abbrev pub etcd_annotation : String
etcd_annotation = "teardown.tinkerbell.org/etcd"

abbrev pub reset_annotation : String
reset_annotation = "teardown.tinkerbell.org/reset"

abbrev pub cluster_name_label : String
cluster_name_label = "teardown.tinkerbell.org/cluster-name"

abbrev pub cluster_namespace_label : String
cluster_namespace_label = "teardown.tinkerbell.org/cluster-namespace"

abbrev pub etcd_leaving_annotation : String
etcd_leaving_annotation = "controlplane.cluster.x-k8s.io/etcd-leaving"

-- Values of the etcd annotation.
pub data EtcdOutcome : Type 0 where
  not_member left removed orphaned skipped_cluster_delete : EtcdOutcome

-- Values of the reset annotation.
pub data ResetOutcome : Type 0 where
  done skipped_timeout skipped_no_address : ResetOutcome

unfoldable pub etcd_text : EtcdOutcome → String
etcd_text not_member = "not-member"
etcd_text left = "left"
etcd_text removed = "removed"
etcd_text orphaned = "orphaned"
etcd_text skipped_cluster_delete = "skipped-cluster-delete"

unfoldable pub reset_text : ResetOutcome → String
reset_text done = "done"
reset_text skipped_timeout = "skipped-timeout"
reset_text skipped_no_address = "skipped-no-address"
