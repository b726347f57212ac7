-- ===== src/Docker/Recreate.antt =====
-- internal/docker/recreate.go: what a container keeps of its own when it is recreated on a newer
-- image, and the plan of a swap as data. Where Go ranges over a map, the order makes no difference.
use tidewaiter.Common.{
  ℕ, String, ◌+s◌, Bool, true, false, not, ◌&&◌, ◌||◌, Option, none, some, List, [], ◌∷◌, Map,
  lookup, contains, is_empty, if◌then◌else◌, str_eq, ◌==◌, decimal,
}
use tidewaiter.Model.{
  Protocol, tcp, udp, ContainerSpec, PortBinding, Healthcheck, Mount, NetworkAttachment, is_unset,
}

-- `RollbackName`.
unfoldable pub rollback_name : String → String
rollback_name name = name +s "-tidewaiter-rollback"

pub record ImageDefaults : Type 0 where
  pub env : List String
  pub cmd : List String
  pub entrypoint : Option (List String)
  pub labels : Map String
  pub exposed : List String
  pub user : String
  pub working_dir : String
  pub stop_signal : String
  pub healthcheck : Option Healthcheck
  pub volumes : List String

-- `slices.Equal`.
abbrev pub same_items : List String → List String → Bool
same_items [] [] = true
same_items (a ∷ xs) (b ∷ ys) = str_eq a b && same_items xs ys
same_items _ _ = false

-- The items of a list that may be nil.
abbrev pub items : Option (List String) → List String
items none = []
items (some xs) = xs

-- `sameList`.
abbrev pub same_list : Option (List String) → Option (List String) → Bool
same_list none none = true
same_list (some xs) (some ys) = same_items xs ys
same_list _ _ = false

-- The items that the image does not have.
abbrev pub own_items : List String → List String → List String
own_items image [] = []
own_items image (x ∷ xs) =
    let rest = own_items image xs in if contains image x then rest else x ∷ rest

-- The labels that are not the image's.
abbrev pub is_label_of : Map String → String → String → Bool
is_label_of image key value = elim (lookup key image) [
  | none ↦ false
  | some default ↦ str_eq value default
]

abbrev pub own_labels : Map String → Map String → Map String
own_labels image [] = []
own_labels image ((key, value) ∷ rest) =
    if is_label_of image key value
    then own_labels image rest
    else (key, value) ∷ own_labels image rest

abbrev pub protocol_text : Protocol → String
protocol_text tcp = "tcp"
protocol_text udp = "udp"

-- `published[port]`.
abbrev pub publishes : List PortBinding → String → Bool
publishes [] port = false
publishes (b ∷ bs) port =
    str_eq (decimal b.port.container_port +s "/" +s protocol_text b.port.protocol) port
    || publishes bs port

abbrev pub own_exposed : List PortBinding → List String → List String → List String
own_exposed bindings image [] = []
own_exposed bindings image (port ∷ rest) =
    let kept = own_exposed bindings image rest in
    if publishes bindings port || not (contains image port) then port ∷ kept else kept

abbrev pub own_text : String → String → String
own_text own image = if str_eq own image then "" else own

abbrev pub own_number : ℕ → ℕ → ℕ
own_number own image = if own == image then 0 else own

-- `ownHealthcheck`.
abbrev pub less_fields : Healthcheck → Healthcheck → Healthcheck
less_fields check image = record {
  test = if same_items check.test image.test then [] else check.test;
  interval = own_number check.interval image.interval;
  timeout = own_number check.timeout image.timeout;
  retries = own_number check.retries image.retries;
  start_period = own_number check.start_period image.start_period;
  start_interval = own_number check.start_interval image.start_interval;
}

unfoldable pub own_healthcheck : Option Healthcheck → Option Healthcheck → Option Healthcheck
own_healthcheck none image = none
own_healthcheck (some check) none = some check
own_healthcheck (some check) (some image) =
    let own = less_fields check image in if is_unset own then none else some own

-- `ownEntrypoint` of `WithoutImageDefaults`.
abbrev pub has_own_entrypoint : ContainerSpec → ImageDefaults → Bool
has_own_entrypoint spec image =
    not (same_list spec.entrypoint image.entrypoint)
    || (is_empty (items spec.cmd) && not (is_empty image.cmd))

-- `WithoutImageDefaults`.
unfoldable pub without_image_defaults : ContainerSpec → ImageDefaults → ContainerSpec
unfolding own_healthcheck
without_image_defaults spec image =
    let own_entrypoint = has_own_entrypoint spec image in
    record spec {
      env = own_items image.env spec.env;
      labels = own_labels image.labels spec.labels;
      exposed = own_exposed spec.bindings image.exposed spec.exposed;
      entrypoint = if own_entrypoint then spec.entrypoint else none;
      cmd =
          if not (own_entrypoint && not (is_empty (items spec.entrypoint)))
            && same_items (items spec.cmd) image.cmd
          then none
          else spec.cmd;
      user = own_text spec.user image.user;
      working_dir = own_text spec.working_dir image.working_dir;
      stop_signal = own_text spec.stop_signal image.stop_signal;
      healthcheck = own_healthcheck spec.healthcheck image.healthcheck;
      volumes = own_items image.volumes spec.volumes;
    }

-- `Unrecreatable`; "" is that it can be recreated.
abbrev pub anonymous_mount : List Mount → String
anonymous_mount [] = ""
anonymous_mount (m ∷ ms) =
    if m.anonymous
    then "has an anonymous volume at " +s m.target
      +s ", which cannot be recreated without losing its data; deferring - give it a named volume to enable updates"
    else anonymous_mount ms

unfoldable pub unrecreatable : ContainerSpec → String
unrecreatable spec = anonymous_mount spec.mounts

-- `Step`: one Docker call of a swap, with the fields that its `Op` gives a meaning.
pub data Step : Type 0 where
  stop : (container : String) (grace : ℕ) → Step
  rename : (container to : String) → Step
  create : (spec : ContainerSpec) → Step
  connect : (container : String) (network : NetworkAttachment) (spec : ContainerSpec) → Step
  start : (container : String) → Step
  remove : (container : String) (force : Bool) → Step

pub record Plan : Type 0 where
  pub swap : List Step
  pub commit : List Step
  pub rollback : List Step

-- `ExtraNetworks`.
abbrev pub beyond_first : List NetworkAttachment → List NetworkAttachment
beyond_first [] = []
beyond_first (n ∷ ns) = ns

abbrev pub extra_networks : ContainerSpec → List NetworkAttachment
extra_networks spec = beyond_first spec.networks

-- The steps from the loop over the extra networks on.
abbrev pub connects : String → ContainerSpec → List NetworkAttachment → List Step
connects name spec [] = start name ∷ []
connects name spec (n ∷ ns) = connect name n spec ∷ connects name spec ns

-- `PlanSwap`.
unfoldable pub plan_swap : ContainerSpec → ContainerSpec → ℕ → Plan
plan_swap spec new_spec grace =
    let name = spec.name in
    let parked = rollback_name spec.name in
    record {
      swap =
          stop name grace
          ∷ rename name parked
          ∷ create new_spec
          ∷ connects name new_spec (extra_networks new_spec);
      commit = remove parked true ∷ [];
      rollback = remove name true ∷ rename parked name ∷ start name ∷ [];
    }
