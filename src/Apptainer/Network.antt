-- ===== src/Apptainer/Network.antt =====
-- `NetworkConfig` of natsprovider/apptainer_cmd_builder/network.py, and `_make_network_config` of
-- from_kubernetes.py beside it. The text of network.sh and of /etc/resolv.conf are parameters.
use interlink_condorce_plugi.Prelude.{
  Text, codes, List, [], ◌∷◌, Option, none, some, Bool, true, false, not, ◌||◌, get_or, Result, ok,
  err, ◌>>=◌, nat_eq, list_eq, ◌==◌, if◌then◌else◌, attribute_error,
}
use interlink_condorce_plugi.Prelude.Dicts.{Dict, get}
use interlink_condorce_plugi.Prelude.Format.{interpolate}
use interlink_condorce_plugi.Prelude.Numbers.{decimal}
use interlink_condorce_plugi.BuildConfig.{NetworkOptions}

pub record NetworkConfig : Type 0 where
  pub initialization : Text
  pub connection : Text
  pub proxy_cmd : Text
  pub finalization : Text
  pub enabled : Bool

abbrev pub disabled : NetworkConfig
disabled = record {
  initialization = [];
  connection = [];
  proxy_cmd = [];
  finalization = [];
  enabled = false;
}

unfoldable pub initialize : NetworkConfig → Text
initialize n = if n.enabled then n.initialization else []

unfoldable pub connect : NetworkConfig → Text
connect n = if n.enabled then n.connection else []

unfoldable pub finalize : NetworkConfig → Text
finalize n = if n.enabled then n.finalization else []

-- `proxy()`, as the list that `ContainerSpec.exec` makes of it
unfoldable pub proxy : NetworkConfig → List Text
proxy n = if n.enabled then n.proxy_cmd ∷ [] else []

-- The options by name, in text: the template is filled by `%(name)s` only. `str` of a Boolean is
-- "True" or "False".
unfoldable pub network_items : NetworkOptions → Dict Text Text
unfolding decimal codes
network_items o =
    (codes "allowed", if o.allowed then codes "True" else codes "False")
    ∷ (codes "wstunnel_binary", o.wstunnel_binary)
    ∷ (codes "slirp4netns_binary", o.slirp4netns_binary)
    ∷ (codes "dynamic_fwd_port", decimal o.dynamic_fwd_port)
    ∷ (codes "tmp_resolv_conf", o.tmp_resolv_conf)
    ∷ (codes "tap_cidr", o.tap_cidr)
    ∷ (codes "tap_mtu", decimal o.tap_mtu)
    ∷ (codes "tun_ip", o.tun_ip)
    ∷ (codes "tun2socks_binary", o.tun2socks_binary)
    ∷ (codes "proxy_cmd", o.proxy_cmd)
    ∷ (codes "tunnel_finalization", o.tunnel_finalization)
    ∷ []

-- `connection is None or connection in ["", " ", False]`
unfoldable pub connection_of : Dict Text Text → Option Text
unfolding get codes
connection_of annotations = elim (get annotations (codes "interlink.eu/wstunnel-client-commands")) [
  | none ↦ none
  | some c ↦ if (c == []) || (c == codes " ") then none else some c
]

module _ (template resolv_conf : Text) where
  unfoldable pub enabled_config :
      NetworkOptions → Dict Text Text → (connection : Text) → Result NetworkConfig
  unfolding network_items interpolate get codes
  enabled_config o annotations connection = do
    initialization ←
        interpolate
          ((
            codes "cluster_resolv_conf",
            get_or (get annotations (codes "interlink.eu/resolv-conf")) resolv_conf,
          )
            ∷ (
              codes "cluster_cidr",
              get_or (get annotations (codes "interlink.eu/cluster-cidr")) (codes "10.42.0.0/15"),
            )
            ∷ network_items o)
          template
    ok (record {
      initialization = initialization;
      connection = connection;
      proxy_cmd = o.proxy_cmd;
      finalization = o.tunnel_finalization;
      enabled = true;
    })

  -- A pod without annotations has None for them.
  unfoldable pub annotated_config : NetworkOptions → Option (Dict Text Text) → Result NetworkConfig
  unfolding connection_of enabled_config
  annotated_config o none = err attribute_error
  annotated_config o (some annotations) = elim (connection_of annotations) [
    | none ↦ ok disabled
    | some c ↦ enabled_config o annotations c
  ]

  unfoldable pub make_network_config :
      (setup_network : Bool) → NetworkOptions → Option (Dict Text Text) → Result NetworkConfig
  unfolding annotated_config
  make_network_config setup_network o annotations =
      if not setup_network || not o.allowed then ok disabled else annotated_config o annotations
