-- ===== src/Reconcile/Network.antt =====
-- The NetworkPolicy part in the main loop.
use permission_binder_operat.Prelude.{String, false, ◌≡◌, List, []}
use permission_binder_operat.Ownership.{can_take_ownership}
use permission_binder_operat.Cluster.{System, RoleBinding, found, Honest}
use permission_binder_operat.RoleBindings.Gate.{key_of}
use permission_binder_operat.NetworkPolicy.Single.{NetState}
use permission_binder_operat.NetworkPolicy.Periodic.Frame.{ScheduleBlind}
use permission_binder_operat.NetworkPolicy.Run.{RunSetup, network_part}
use permission_binder_operat.NetworkPolicy.Run.Frame.{network_part-frame}
use permission_binder_operat.Reconcile.{PermissionBinder, Setup, reconcile}
use permission_binder_operat.Reconcile.Foreign.{Reliable, reconcile-foreign}

-- The object after the NetworkPolicy part.
abbrev recorded : {W : Type 0} → PermissionBinder → NetState W → PermissionBinder
recorded pb t = record pb {
  status = record pb.status {
    network_policies = t.entries;
    last_network_policy_reconciliation = t.last_run;
  };
}

-- The block of `Reconcile` for the object in memory, with the settings that its spec gives.
unfoldable pub network_of :
    {W : Type 0}
    → (PermissionBinder → RunSetup W)
    → PermissionBinder
    → List String
    → W
    → PermissionBinder × W
network_of settings pb namespaces w =
    let after = network_part (settings pb) namespaces (record {
      world = w;
      entries = pb.status.network_policies;
      last_run = pb.status.last_network_policy_reconciliation;
      metrics = [];
    }) in
    (recorded pb after, after.world)

-- The main loop with this in the place of its NetworkPolicy part.
abbrev pub with_network : {W : Type 0} → (PermissionBinder → RunSetup W) → Setup W → Setup W
with_network settings env = record env { network = network_of settings }

network_of-apart :
    {W V : Type 0} (view : W → V) (settings : PermissionBinder → RunSetup W)
    → ((pb : PermissionBinder) → ScheduleBlind view (settings pb).schedule)
    → (pb : PermissionBinder) (namespaces : List String) (w : W)
    → view (network_of settings pb namespaces w).1 ≡ view w
unfolding network_of
network_of-apart view settings blind pb namespaces w =
    network_part-frame view (settings pb) (blind pb) namespaces _

-- On an API server as in `Reliable` that lists what is stored, a run of the main loop with its
-- NetworkPolicy part changes no role binding that another PermissionBinder has a live claim on, if
-- files, Git with its provider, and the writes of a status are apart from the role bindings.
pub reconcile-with_network-foreign :
    {W : Type 0} (env : Setup W) (settings : PermissionBinder → RunSetup W)
    → Reliable env
    → (namespace name : String) (s : System W) (k : String × String) (rb : RoleBinding)
    → ((key : String × String) (pb : PermissionBinder)
        → ScheduleBlind (env.client.role_bindings.get key) (settings pb).schedule)
    → Honest key_of env.client.role_bindings s.world
    → env.client.role_bindings.get k s.world ≡ found rb
    → can_take_ownership rb.annotations (record { name = name; namespace = namespace }) ≡ false
    → env.client.role_bindings.get k
        (reconcile (with_network settings env) (namespace, name) s).1.world
      ≡ found rb
reconcile-with_network-foreign env settings rely namespace name s k rb blind =
    reconcile-foreign (with_network settings env)
      (record {
        laws = rely.laws;
        namespaces = rely.namespaces;
        accounts = rely.accounts;
        keyed = rely.keyed;
        binder-update = rely.binder-update;
        binder-status = rely.binder-status;
        network-apart = λ pb names w key.
            network_of-apart (env.client.role_bindings.get key) settings (blind key) pb names w;
      })
      namespace name s k rb
