-- ===== src/Grpc/Messages.antt =====
-- pkg/proto/proto.go: the messages of the two gRPC services. A nil pointer is
-- `none`.
use syncmesh.Common.{ℤ, String, Bool, Option, List, Map}
use syncmesh.FileSync.State.{Bytes}

pub record SyncFileRequest : Type 0 where
  pub file_path : String
  pub operation : String
  pub content : Bytes
  pub checksum : String
  pub size : ℤ
  pub mod_time : ℤ
  pub from_node : String
  pub version : ℤ
  pub metadata : Map String

pub record SyncFileResponse : Type 0 where
  pub success : Bool
  pub message : String
  pub error_code : String
  pub version : ℤ

pub record GetFileStatusRequest : Type 0 where
  pub file_path : String

pub record GetFileStatusResponse : Type 0 where
  pub exists : Bool
  pub size : ℤ
  pub checksum : String
  pub mod_time : ℤ
  pub version : ℤ
  pub status : String
  pub metadata : Map String

pub record FileChunk : Type 0 where
  pub file_name : String
  pub chunk_number : ℤ
  pub content : Bytes
  pub checksum : String
  pub is_last : Bool
  pub total_size : ℤ

pub record StreamFileResponse : Type 0 where
  pub success : Bool
  pub message : String
  pub bytes_written : ℤ
  pub error_code : String

pub record WatchFilesRequest : Type 0 where
  pub patterns : List String
  pub include_existing : Bool

pub record FileEvent : Type 0 where
  pub file_path : String
  pub operation : String
  pub timestamp : ℤ
  pub size : ℤ
  pub checksum : String
  pub version : ℤ
  pub metadata : Map String

pub record JoinClusterRequest : Type 0 where
  pub node_id : String
  pub address : String
  pub version : String
  pub metadata : Map String

pub record ClusterNode : Type 0 where
  pub node_id : String
  pub address : String
  pub status : String
  pub is_leader : Bool
  pub version : String
  pub last_seen : ℤ
  pub joined_at : ℤ
  pub metadata : Map String

pub record JoinClusterResponse : Type 0 where
  pub success : Bool
  pub message : String
  pub leader_id : String
  pub nodes : List ClusterNode

pub record LeaveClusterRequest : Type 0 where
  pub node_id : String
  pub reason : String

pub record LeaveClusterResponse : Type 0 where
  pub success : Bool
  pub message : String

pub record GetClusterStatusRequest : Type 0 where
  pub include_details : Bool

pub record HealthCheck : Type 0 where
  pub name : String
  pub status : String
  pub message : String
  pub last_check : ℤ
  pub duration_ms : ℤ

pub record ClusterHealth : Type 0 where
  pub status : String
  pub checks : List HealthCheck
  pub last_check : ℤ

pub record GetClusterStatusResponse : Type 0 where
  pub leader_id : String
  pub nodes : List ClusterNode
  pub total_nodes : ℤ
  pub active_nodes : ℤ
  pub health : Option ClusterHealth

pub record StreamClusterEventsRequest : Type 0 where
  pub event_types : List String

pub record ClusterEvent : Type 0 where
  pub type : String
  pub node_id : String
  pub timestamp : ℤ
  pub content : Map String
