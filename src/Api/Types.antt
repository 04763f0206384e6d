-- ===== src/Api/Types.antt =====
-- The structs of api/v5alpha1/jumperless_types.go. A pointer field is an `Option`.
use k8s_jumperless.Base.{Bool, Option, List, Bytes, ℤ}

pub record Dac : Type 0 where
  pub channel : Bytes
  pub voltage : Bytes
  pub save : Option Bool

pub record JumperlessHostSsh : Type 0 where
  pub hostname : Bytes
  pub username : Bytes
  -- `corev1.SecretReference`: name and namespace.
  pub ssh_key_ref : Bytes × Bytes
  pub port : Option ℤ

pub record JumperlessHostLocal : Type 0 where
  pub port : Option Bytes
  pub baud_rate : Option ℤ

pub record JumperlessHost : Type 0 where
  pub local : Option JumperlessHostLocal
  pub ssh : Option JumperlessHostSsh

pub record JumperlessSpec : Type 0 where
  pub host : JumperlessHost
  pub dacs : List Dac

pub record DacStatus : Type 0 where
  pub channel : Bytes
  pub voltage : Bytes

pub record Net : Type 0 where
  pub index : ℤ
  pub name : Bytes
  pub voltage : Option Bytes
  pub color : Option Bytes
  pub extra : Option Bytes
  pub nodes : List Bytes

pub record JumperlessConfigEntry : Type 0 where
  pub key : Bytes
  pub value : Bytes

pub record JumperlessConfigSection : Type 0 where
  pub name : Bytes
  pub entries : List JumperlessConfigEntry

-- `Conditions` stands for `[]metav1.Condition`.
pub record JumperlessStatus (Conditions : Type 0) : Type 0 where
  pub firmware_version : Option Bytes
  pub local_port : Option Bytes
  pub dacs : List DacStatus
  pub nets : List Net
  pub config : List JumperlessConfigSection
  pub conditions : Conditions

-- Of the metadata, the name, the namespace and the generation.
pub record Jumperless (Conditions : Type 0) : Type 0 where
  pub name : Bytes
  pub namespace : Bytes
  pub generation : ℤ
  pub spec : JumperlessSpec
  pub status : JumperlessStatus Conditions
