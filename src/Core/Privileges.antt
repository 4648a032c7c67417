-- ===== src/Core/Privileges.antt =====
-- src/core/privileges.ts: the parameters that force a root@pam ticket. What the source asks of a path
-- by a regular expression is asked here by equality and by what stands behind a prefix. `print_value` is
-- `String(value)` of a value that is no string, and the documented list is generated: parameters.
pub mod Reported
pub mod Options
pub mod Deletes
use pve_agent.Base.{
  ltb, ◌==◌, if◌then◌else◌, length, drop, any, all, find, Text, codes, text_eq, includes_text,
  starts_with, is_space, is_digit, lower, ℕ, String, Bool, true, false, not, ◌&&◌, ◌||◌, Option,
  none, some, List, [], ◌∷◌, ◌++◌, map,
}
use pve_agent.Core.Values.{
  JsValue, undefined, null_value, boolean, number, string, finite, not_finite,
}
use pve_agent.Core.Props.Names.{split_indexed_key}
use pve_agent.Core.Props.Parts.{PropertyParts, split_property_parts}

abbrev guest_path : String → Text
guest_path rest = codes "/nodes/{node}/" ++ codes rest

-- `^p(\/|$)`.
unfoldable pub is_under : Text → Text → Bool
unfolding text_eq starts_with
is_under p path = text_eq path p || starts_with path (p ++ b'/' ∷ [])

-- QEMU_GUEST and the rest, as tests of a path.
abbrev pub PathTest : Type 0
PathTest = Text → Bool

unfoldable pub is_one_of : List String → PathTest
unfolding text_eq
is_one_of rests path = any (λ rest. text_eq path (guest_path rest)) rests

abbrev pub qemu_guest : PathTest
qemu_guest = is_under (guest_path "qemu/{vmid}")

abbrev pub qemu_start : PathTest
qemu_start = is_one_of ("qemu/{vmid}/status/start" ∷ [])

abbrev pub qemu_stop : PathTest
qemu_stop = is_one_of ("qemu/{vmid}/status/stop" ∷ [])

abbrev pub qemu_create_or_config : PathTest
qemu_create_or_config = is_one_of ("qemu" ∷ "qemu/{vmid}/config" ∷ [])

abbrev pub qemu_config : PathTest
qemu_config = is_one_of ("qemu/{vmid}/config" ∷ [])

abbrev pub lxc_create_or_config : PathTest
lxc_create_or_config = is_one_of ("lxc" ∷ "lxc/{vmid}/config" ∷ [])

abbrev pub guest_create_or_config : PathTest
guest_create_or_config path = qemu_create_or_config path || lxc_create_or_config path

abbrev pub guest : PathTest
guest path = qemu_guest path || is_under (guest_path "lxc/{vmid}") path

abbrev pub node_shell : PathTest
node_shell = is_one_of ("termproxy" ∷ "vncshell" ∷ "spiceshell" ∷ [])

abbrev pub start_or_stop : PathTest
start_or_stop path = qemu_start path || qemu_stop path

-- `entries.find(([name]) => name === key)?.[1]`.
unfoldable pub find_entry : Text → List (Text × Text) → Option Text
unfolding text_eq
find_entry key [] = none
find_entry key ((name, value) ∷ entries) =
    let rest = find_entry key entries in if text_eq name key then some value else rest

abbrev first_or : List Text → Option Text → Option Text
first_or [] other = other
first_or (bare ∷ _) other = some bare

abbrev or_nothing : Option Text → Text
or_nothing none = []
or_nothing (some s) = s

abbrev is_given : Option Text → Bool
is_given none = false
is_given (some s) = true

unfoldable pub parallel_digits : Text → Bool
parallel_digits [] = false
parallel_digits (d ∷ ds) = all is_digit (d ∷ ds)

-- `/^parallel\d+$/`.
unfoldable pub is_parallel : Text → Bool
unfolding starts_with parallel_digits is_digit
is_parallel name = starts_with name (codes "parallel") && parallel_digits (drop 8 name)

abbrev pub unclassed_qemu_options : List String
unclassed_qemu_options =
    "affinity" ∷ "amd-sev" ∷ "arch" ∷ "hugepages" ∷ "intel-tdx" ∷ "ivshmem" ∷ "keephugepages"
    ∷ "spice_enhancements" ∷ "vmgenid" ∷ []

unfoldable pub is_root_only_qemu_option : Text → Bool
unfolding text_eq is_parallel
is_root_only_qemu_option name =
    text_eq name (codes "args")
    || (text_eq name (codes "lock")
        || (text_eq name (codes "hookscript")
            || (is_parallel name
                || any (λ option. text_eq (codes option) name) unclassed_qemu_options)))

-- `value.split(/[,;\s]+/)`, but with an empty piece between two separators.
unfoldable pub option_names : Text → Text → List Text
unfolding is_space
option_names piece [] = piece ∷ []
option_names piece (c ∷ s) = elim (c == b',' || (c == b';' || is_space c)) [
  | true ↦ piece ∷ option_names [] s
  | false ↦ option_names (piece ++ c ∷ []) s
]

unfoldable pub is_set_value : JsValue → Bool
unfolding text_eq
is_set_value undefined = false
is_set_value null_value = false
is_set_value (boolean b) = b
is_set_value (number (finite d)) = not (d.digits == 0)
is_set_value (number not_finite) = true
is_set_value (string s) = not (text_eq s (codes "0") || length s == 0)
is_set_value _ = true

pub record RootOnlyParamRule : Type 0 where
  pub param : Text
  pub path : PathTest
  pub reason : String
  pub applies : JsValue → Bool

pub record RootOnlyParamHit : Type 0 where
  pub param : Text
  pub reason : String

abbrev always : JsValue → Bool
always value = true

abbrev rule : String → PathTest → String → RootOnlyParamRule
rule param path reason = record {
  param = codes param;
  path = path;
  reason = reason;
  applies = always;
}

abbrev rule_when : String → PathTest → String → (JsValue → Bool) → RootOnlyParamRule
rule_when param path reason applies = record {
  param = codes param;
  path = path;
  reason = reason;
  applies = applies;
}

abbrev pub unclassed_reason : String
unclassed_reason = "the config permission check has no privilege class for this option"

module _ (print_value : JsValue → Text) where
  unfoldable pub text_of : JsValue → Text
  text_of (string s) = s
  text_of undefined = []
  text_of null_value = []
  text_of value = print_value value

  abbrev parts_of : JsValue → PropertyParts
  parts_of value = split_property_parts (text_of value)

  unfoldable pub sub_key : JsValue → String → Option Text
  unfolding split_property_parts text_of find_entry
  sub_key value key = find_entry (codes key) (parts_of value).entries

  unfoldable pub is_non_volume_mount_point : JsValue → Bool
  unfolding split_property_parts text_of sub_key starts_with
  is_non_volume_mount_point value =
      starts_with (or_nothing (first_or (parts_of value).bare (sub_key value "volume"))) (codes "/")

  unfoldable pub uses_privileged_lxc_feature : JsValue → Bool
  unfolding split_property_parts text_of text_eq
  uses_privileged_lxc_feature value =
      any (λ e. not (text_eq e.0 (codes "nesting"))) (parts_of value).entries
      || ltb 0 (length (parts_of value).bare)

  unfoldable pub host_device : JsValue → Option Text
  unfolding split_property_parts text_of sub_key
  host_device value = first_or (parts_of value).bare (sub_key value "host")

  unfoldable pub is_raw_usb : Option Text → Bool
  unfolding text_eq lower
  is_raw_usb none = false
  is_raw_usb (some host) = not (text_eq (map lower host) (codes "spice"))

  unfoldable pub deletes_root_only : JsValue → Bool
  unfolding option_names is_root_only_qemu_option text_of
  deletes_root_only value = any is_root_only_qemu_option (option_names [] (text_of value))

  abbrev pub root_only_param_rules : List RootOnlyParamRule
  root_only_param_rules =
      map (λ param. rule param qemu_create_or_config unclassed_reason) unclassed_qemu_options
      ++ rule "parallel[n]" qemu_create_or_config unclassed_reason
        ∷ rule_when "delete" qemu_config
            "deleting an option needs the privilege setting it needs, and one of these is root-only"
            deletes_root_only
        ∷ rule "skiplock" guest "skiplock is honoured only for root@pam"
        ∷ rule "hookscript" guest_create_or_config "a hookscript runs arbitrary code on the node"
        ∷ rule "args" qemu_create_or_config "args is passed straight to kvm"
        ∷ rule "lock" qemu_create_or_config "the config lock can only be set by root@pam"
        ∷ rule_when "serial[n]" qemu_create_or_config
            "a serial port backed by a real host device needs root@pam"
            (λ value. not (text_eq (text_of value) (codes "socket")))
        ∷ rule_when "usb[n]" qemu_create_or_config
            "raw USB passthrough needs root@pam; use a mapping= entry or host=spice instead"
            (λ value. is_raw_usb (host_device value))
        ∷ rule_when "hostpci[n]" qemu_create_or_config
            "raw PCI passthrough and romfile need root@pam; use a mapping= entry without romfile instead"
            (λ value. is_given (host_device value) || is_given (sub_key value "romfile"))
        ∷ rule "stateuri" qemu_start "restoring VM state from a URI needs root@pam"
        ∷ rule "migratedfrom" start_or_stop
            "migratedfrom is set by the migration worker, which runs as root@pam"
        ∷ rule "targetstorage" qemu_start
            "a storage map on start belongs to the migration worker, which runs as root@pam"
        ∷ rule "force-cpu" qemu_start "overriding the CPU model on start needs root@pam"
        ∷ rule "with-conntrack-state" qemu_start "restoring conntrack state needs root@pam"
        ∷ rule "nets-host-mtu" qemu_start "overriding host MTUs on start needs root@pam"
        ∷ rule "keepActive" qemu_stop "keeping the VM active after stop needs root@pam"
        ∷ rule "migration_type" qemu_guest "choosing the migration transport needs root@pam"
        ∷ rule "migration_network" qemu_guest "choosing the migration network needs root@pam"
        ∷ rule "dev[n]" lxc_create_or_config "passing a host device into a container needs root@pam"
        ∷ rule_when "rootfs" lxc_create_or_config
            "a bind or device rootfs needs root@pam; a storage volume does not"
            is_non_volume_mount_point
        ∷ rule_when "mp[n]" lxc_create_or_config
            "bind and device mount points need root@pam; a storage volume does not"
            is_non_volume_mount_point
        ∷ rule_when "features" lxc_create_or_config
            "container features other than nesting need root@pam" uses_privileged_lxc_feature
        ∷ rule_when "cmd" node_shell "a shell command other than login needs root@pam"
            (λ value. not (text_eq (text_of value) (codes "login")))
        ∷ []

  abbrev pub family_name : Option (Text × ℕ) → Option Text
  family_name none = none
  family_name (some (base, n)) = some (base ++ codes "[n]")

  abbrev pub is_name : Text → Option Text → Bool
  is_name param none = false
  is_name param (some name) = text_eq param name

  unfoldable pub rule_for : Text → Text → Option RootOnlyParamRule
  unfolding split_indexed_key text_eq is_under is_one_of
  rule_for name path =
      let indexed = family_name (split_indexed_key name) in
      find (λ rule. rule.path path && (text_eq rule.param name || is_name rule.param indexed))
        root_only_param_rules

  abbrev pub hit_of : Option RootOnlyParamRule → List Text → Text → JsValue → List RootOnlyParamHit
  hit_of (some rule) documented name value =
      if rule.applies value then (record { param = name; reason = rule.reason }) ∷ [] else []
  hit_of none documented name value =
      if includes_text documented name
      then (record { param = name; reason = "the API schema marks this parameter as root-only" })
        ∷ []
      else []

  -- The loop over `Object.entries(params)`, with the documented list of this endpoint.
  unfoldable pub root_only_params : List Text → Text → List (Text × JsValue) → List RootOnlyParamHit
  unfolding is_set_value rule_for
  root_only_params documented path [] = []
  root_only_params documented path ((name, value) ∷ entries) =
      (if is_set_value value then hit_of (rule_for name path) documented name value else [])
      ++ root_only_params documented path entries
