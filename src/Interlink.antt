-- ===== src/Interlink.antt =====
-- The part of natsprovider/interlink.py that the gateway uses: the request for a pod, as the
-- Kubernetes client deserializes it, and the status that goes back to interLink.
use interlink_condorce_plugi.Prelude.{Text, List, Option}
use interlink_condorce_plugi.Prelude.Dicts.{Dict}
use interlink_condorce_plugi.Prelude.Int.{ℤ}

pub record Toleration : Type 0 where
  pub key : Text
  pub value : Text

-- `metadata` holds "name", "namespace" and "uid"; of the containers only the names are kept.
pub record PodRequest : Type 0 where
  pub metadata : Dict Text Text
  pub tolerations : Option (List Toleration)
  pub init_containers : Option (List Text)
  pub containers : List Text

pub data ContainerStates : Type 0 where
  terminated : (exit_code : ℤ) → (reason : Text) → ContainerStates
  running : ContainerStates
  waiting : (reason message : Text) → ContainerStates

pub record ContainerStatus : Type 0 where
  pub name : Text
  pub state : ContainerStates

pub record PodStatus : Type 0 where
  pub name : Text
  pub uid : Text
  pub namespace : Text
  pub containers : List ContainerStatus
  pub init_containers : List ContainerStatus

-- of the options of a log request only `Tail` is read
pub record LogRequest : Type 0 where
  pub namespace : Text
  pub pod_uid : Text
  pub pod_name : Text
  pub container_name : Text
  pub tail : Option ℤ
