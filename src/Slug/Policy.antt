-- ===== src/Slug/Policy.antt =====
-- The slug policy of internal/slugpolicy/policy.go: parsing the operator's configuration, and the
-- selection of a slug for an instance.
pub mod WellFormed
pub mod Prefixes
pub mod Selection
use Prim.Native.String.{len}
use showroom_msp_private_llm.Prelude.{
  ℕ, suc, ◌^◌, String, Bool, true, false, Option, none, some, List, [], ◌∷◌, ◌||◌, ◌&&◌, not, ◌==◌,
  if◌then◌else◌, ltb, nat_eq,
}
use showroom_msp_private_llm.Prelude.Lists.{length}
use showroom_msp_private_llm.Prelude.Text.{◌+++◌, has_prefix, trim_space}
use showroom_msp_private_llm.Kube.{ObjectMeta}
use showroom_msp_private_llm.Api.{Result, ok, err, failure}
use showroom_msp_private_llm.Slug.Keys.{Token, reject_duplicate_keys, contains}

-- `entry`
pub record Entry : Type 0 where
  pub uid : String
  pub namespace : String
  pub name : String
  pub mode : String
  pub slug : String

-- `configuration`
pub record Configuration : Type 0 where
  pub cutover : String
  pub entries : List Entry

-- `Policy`; the map from UIDs to entries, the newest first.
pub record Policy : Type 0 where
  pub cutover : ℕ
  pub entries : List (String × Entry)

-- `Selection`
pub record Chosen : Type 0 where
  pub slug : String
  pub source : String

-- The libraries that the package calls: `encoding/json` over the bytes of the configuration
-- (`tokens` of one decoder; `decode` with `DisallowUnknownFields`; whether only white space is left
-- behind that document), `time.Parse(time.RFC3339, …)` with 0 for the zero time, the validators of
-- `k8s.io/apimachinery/pkg/util/validation` (true where they return no error), and
-- `hex(sha256(…)[:16])`.
pub record Libraries : Type 0 where
  pub tokens : String → List Token
  pub decode : String → Result Configuration
  pub at_end : String → Bool
  pub parse_time : String → Option ℕ
  pub is_dns1123_label : String → Bool
  pub is_dns1123_subdomain : String → Bool
  pub is_label_value : String → Bool
  pub digest : String → String

abbrev pub reserved : String
reserved = "llm-"

module _ (libraries : Libraries) where
  open libraries use {is_dns1123_label, is_dns1123_subdomain, is_label_value}

  -- `validateEntry`; true where it returns nil
  unfoldable pub validate_entry : Entry → Bool
  validate_entry item =
      if item.uid == ""
        || not (trim_space item.uid == item.uid)
        || not (is_dns1123_label item.namespace)
        || not (is_dns1123_subdomain item.name)
      then false
      else if item.mode == "legacy"
      then not (
          item.slug == ""
          || not (is_label_value item.slug)
          || has_prefix item.slug reserved
          || has_prefix reserved item.slug)
      else if item.mode == "derive"
      then item.slug == ""
      else false

unfoldable pub find : String → List (String × Entry) → Option Entry
find uid [] = none
find uid ((k, item) ∷ rest) = if k == uid then some item else find uid rest

-- `_, exists := policy.entries[uid]`
unfoldable pub exists : String → List (String × Entry) → Bool
exists uid [] = false
exists uid ((k, item) ∷ rest) = k == uid || exists uid rest

abbrev pub identity : Entry → String
identity item = item.namespace +++ "/" +++ item.name

-- The loop over the slugs that were taken before.
unfoldable pub overlaps : List String → String → Bool
overlaps [] slug = false
overlaps (s ∷ rest) slug = has_prefix s slug || (has_prefix slug s || overlaps rest slug)

-- What the loop of `Parse` has gathered.
pub record Gathered : Type 0 where
  pub entries : List (String × Entry)
  pub slugs : List String
  pub identities : List String

abbrev is_legacy : Entry → Bool
is_legacy item = item.mode == "legacy"

abbrev gather : Entry → Gathered → Gathered
gather item g = record {
  entries = (item.uid, item) ∷ g.entries;
  slugs = if is_legacy item then item.slug ∷ g.slugs else g.slugs;
  identities = identity item ∷ g.identities;
}

abbrev nothing_gathered : Gathered
nothing_gathered = record { entries = []; slugs = []; identities = [] }

module _ (libraries : Libraries) where
  -- One round of the loop over `config.Entries`.
  unfoldable pub add_entry : Entry → Gathered → Result Gathered
  add_entry item g =
      if not (validate_entry libraries item)
      then err (failure "invalid slug policy entry")
      else if exists item.uid g.entries || contains g.identities (identity item)
      then err (failure "slug policy contains duplicate instance identity")
      else if is_legacy item && overlaps g.slugs item.slug
      then err (failure "slug policy contains duplicate or prefix-overlapping legacy slugs")
      else ok (gather item g)

  unfoldable pub add_entries : List Entry → Gathered → Result Gathered
  add_entries [] g = ok g
  add_entries (item ∷ items) g = elim (add_entry item g) [
    | err e ↦ err e
    | ok g' ↦ add_entries items g'
  ]

  -- `Parse` from the configuration's fields on
  unfoldable pub build : Configuration → Result Policy
  build config = elim (libraries.parse_time config.cutover) [
    | none ↦ err (failure "slug policy requires a fixed RFC3339 cutover timestamp")
    | some cutover ↦
        if nat_eq cutover 0
        then err (failure "slug policy requires a fixed RFC3339 cutover timestamp")
        else elim (add_entries config.entries nothing_gathered) [
          | err e ↦ err e
          | ok g ↦ ok (record { cutover = cutover; entries = g.entries })
        ]
  ]

  -- `Parse`, from the text that `io.ReadAll(io.LimitReader(reader, (1<<20)+1))` returned. The token
  -- walk has fuel for every token.
  unfoldable pub parse : Result String → Result Policy
  parse (err e) = err e
  parse (ok text) =
      if ltb (2 ^ 20) (len text)
      then err (failure "slug policy exceeds 1 MiB")
      else elim (reject_duplicate_keys (length (libraries.tokens text)) (libraries.tokens text)) [
        | err e ↦ err e
        | ok _ ↦ elim (libraries.decode text) [
          | err e ↦ err e
          | ok config ↦
              if libraries.at_end text
              then build config
              else err (failure "slug policy must contain exactly one JSON document")
        ]
      ]

  abbrev pub derived : String → Chosen
  derived uid = record {
    slug = reserved +++ libraries.digest ("llm.privatellms.msp/slug/v1:" +++ uid);
    source = "Derived";
  }

  -- an object with an entry of its UID
  abbrev select_entry : ObjectMeta → Entry → Result Chosen
  select_entry object item =
      if not (item.namespace == object.namespace) || not (item.name == object.name)
      then err (failure "instance identity does not match the slug policy")
      else if is_legacy item
      then ok (record { slug = item.slug; source = "Legacy" })
      else ok (derived object.uid)

  abbrev select_created : Policy → ObjectMeta → ℕ → Result Chosen
  select_created p object created = elim (find object.uid p.entries) [
    | some item ↦ select_entry object item
    | none ↦
        if ltb p.cutover created
        then ok (derived object.uid)
        else err (failure "legacy instance has no reviewed slug mapping")
  ]

  -- `Select`; the policy of a nil pointer is `none`
  unfoldable pub select : Option Policy → ObjectMeta → Result Chosen
  select none object = err (failure "instance identity does not match the slug policy")
  select (some p) object =
      if object.uid == ""
      then err (failure "instance identity does not match the slug policy")
      else elim object.created [
        | none ↦ err (failure "instance identity does not match the slug policy")
        | some created ↦ select_created p object created
      ]
