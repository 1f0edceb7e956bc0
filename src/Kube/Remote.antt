-- ===== src/Kube/Remote.antt =====
-- The objects for a workload on a tenant's own cluster, with the fields that the controller uses:
-- Gardener's certificates and DNS entries, and the kinds of objects on the remote cluster.
use showroom_msp_private_llm.Prelude.{String, Bool, List}
use showroom_msp_private_llm.Prelude.Dict.{Dict}
use showroom_msp_private_llm.Prelude.Int.{ℤ}
use showroom_msp_private_llm.Kube.{ObjectMeta}

pub data ObjectKind : Type 0 where
  deployment service secret config_map : ObjectKind

-- A field of an unstructured object: missing or null, or of one of the kinds that the code tells
-- apart.
pub data Field : Type 0 where
  absent malformed : Field
  boolean : Bool → Field
  text : String → Field
  other : String → Field

-- The `spec` of a Certificate. `rest` stands for everything that is not in the form of the other
-- fields, as its JSON; the empty text if there is nothing.
pub record CertificateSpec : Type 0 where
  pub dns_names : List String
  pub secret_name : String
  pub secret_namespace : String
  pub issuer_name : String
  pub issuer_namespace : String
  pub secret_labels : Dict
  pub renew : Field
  pub ensure_renewed_after : Field
  pub rest : String

pub record Certificate : Type 0 where
  pub meta : ObjectMeta
  pub spec : CertificateSpec
  pub state : String
  pub observed_generation : ℤ

-- `rest` as of a Certificate.
pub record DnsEntry : Type 0 where
  pub meta : ObjectMeta
  pub dns_name : String
  pub targets : List String
  pub ttl : ℤ
  pub rest : String
