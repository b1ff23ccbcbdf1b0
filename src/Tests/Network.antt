-- ===== src/Tests/Network.antt =====
-- Runs of the NetworkPolicy part, and its theorems at a repository in memory.
use permission_binder_operat.Prelude.{
  String, true, false, ◌≡◌, refl, ◌≢◌, ◌⊎◌, some, List, [], ◌∷◌, ok, err, All, In, inl, ◌==◌,
  eq_iff, arith,
}
use permission_binder_operat.NetworkPolicy.Status.{Entry, fresh, clean_entries}
use permission_binder_operat.NetworkPolicy.Disk.{read_file, file_exists, write_file}
use permission_binder_operat.NetworkPolicy.Git.{Site}
use permission_binder_operat.NetworkPolicy.Plan.{NewFile, files_to_create, may_back_up, path_of}
use permission_binder_operat.NetworkPolicy.Plan.Laws.{policies_covered}
use permission_binder_operat.NetworkPolicy.Plan.Planned.{IsPlanned, files_to_create-IsPlanned}
use permission_binder_operat.NetworkPolicy.Single.{
  NetState, propose, write_files, kustomization_path, has_backup, is_open, step, branched, ensured,
  written, pushed, new_pull, description, title, proposed, merge, record_pr, record_entries,
  pr_state, add_resource, write_rest, auto_merge, labels_of, merge_enabled,
}
use permission_binder_operat.NetworkPolicy.Kustomization.{
  ensure_kustomization_exists, update_kustomization_resources,
}
use permission_binder_operat.NetworkPolicy.Status.{update_network_policy_status_with_pr}
use permission_binder_operat.NetworkPolicy.Provider.{
  get_network_policy_file_path, should_backup_existing_policy, is_namespace_excluded,
  is_policy_from_template, get_network_policy_name, generate_branch_name,
}
use permission_binder_operat.NetworkPolicy.Sources.{backup_network_policy}
use permission_binder_operat.GoMap.{lookup}
use permission_binder_operat.GoString.{◌<>◌, trim_suffix, cut_suffix}
use permission_binder_operat.GoPath.{join}
use permission_binder_operat.NetworkPolicy.Single.Merge.{with_merge, propose-manual}
use permission_binder_operat.NetworkPolicy.Single.Outcome.{Proposed, propose_outcome}
use permission_binder_operat.NetworkPolicy.Single.Stored.{Separate}
use permission_binder_operat.NetworkPolicy.Single.Files.{existing_kept}
use permission_binder_operat.NetworkPolicy.Periodic.{
  check_template_changes, periodic_network_policy_reconciliation,
}
use permission_binder_operat.NetworkPolicy.Periodic.Laws.{
  with_writes, check_template_changes_idle, periodic_network_policy_reconciliation-reads,
}
use permission_binder_operat.NetworkPolicy.Run.{processed}
use permission_binder_operat.Tests.Lab.{
  Lab, lab, lab_run, lab_schedule, lab_disk, lab_disk-laws, lab_client, lab_codec, lab_spec,
  lab_yaml, policy, world, start,
}

abbrev site : Site
site = record {
  provider = "github";
  api_base_url = "";
  repo_url = "https://github.com/o/r.git";
  credentials = record { token = "t"; username = "u"; email = "e" };
  tls_verify = true;
}

abbrev kept : NewFile
kept = record {
  path = "networkpolicies/c/shop/allow-dns.yaml";
  content = "kind: NetworkPolicy";
  is_backup = true;
}

-- A provider that refuses to merge makes no difference where a file is a backup.
propose-manual_example :
    propose (with_merge (λ site' number w. (false, w)) lab) site "/tmp/t" "shop" (kept ∷ []) start
    ≡ propose lab site "/tmp/t" "shop" (kept ∷ []) start
propose-manual_example =
    propose-manual lab (λ site' number w. (false, w)) site "shop" (kept ∷ [])
      (inl (unfold has_backup in refl)) "/tmp/t" start

abbrev second : NewFile
second = record {
  path = "networkpolicies/c/shop/shop-web.yaml";
  content = "kind: NetworkPolicy";
  is_backup = false;
}

proposed_ok : (propose lab site "/tmp/t" "shop" (kept ∷ second ∷ []) start).0 ≡ ok tt
unfolding propose step branched ensured written pushed new_pull description title proposed merge
    record_pr record_entries pr_state write_files add_resource write_rest auto_merge labels_of
    has_backup merge_enabled generate_branch_name ensure_kustomization_exists
    update_kustomization_resources update_network_policy_status_with_pr lookup join lab_yaml
    write_file
proposed_ok = refl

paths_differ :
    ((join ("/tmp/t" ∷ kept.path ∷ []) == join ("/tmp/t" ∷ second.path ∷ [])) ≡ false)
    × ((join ("/tmp/t" ∷ kept.path ∷ []) == join ("/tmp/t" ∷ kustomization_path "c" ∷ [])) ≡ false)
    × ((join ("/tmp/t" ∷ second.path ∷ []) == join ("/tmp/t" ∷ kustomization_path "c" ∷ []))
        ≡ false)
unfolding join
paths_differ = (refl, refl, refl)

differ : (a b : String) → (a == b) ≡ false → a ≢ b
differ a b h e = absurd (ground (arith, eq_iff a b, e))

two-Separate : Separate lab "/tmp/t" (kept ∷ second ∷ [])
two-Separate = (
  differ _ _ paths_differ.1,
  (differ _ _ paths_differ.0, tt),
  (differ _ _ paths_differ.2, tt, tt),
)

propose_outcome_example :
    (is_open (lab.git.pr_by_branch site "networkpolicy/c/shop" start.world) ≡ true)
      × (propose lab site "/tmp/t" "shop" (kept ∷ second ∷ []) start ≡ (ok tt, start))
    ⊎ ((w : Lab) × (lab.git.checkout "/tmp/t" "networkpolicy/c/shop" true
            (lab.git.delete_branch site "networkpolicy/c/shop" start.world)
          ≡ (true, w))
        × Proposed lab site "shop" "/tmp/t"
            (kept ∷ second ∷ [])
            start
            w
            (propose lab site "/tmp/t" "shop" (kept ∷ second ∷ []) start).1)
propose_outcome_example =
    propose_outcome lab site "shop" "/tmp/t" (kept ∷ second ∷ []) lab_disk-laws two-Separate start
      proposed_ok

-- The file of a template was there before: it is not written again.
planned_old :
    files_to_create lab_disk lab_client lab_codec lab.match lab_spec "/tmp/t" "shop"
      ("deny.yaml" ∷ [])
      (policy ∷ [])
      world
    ≡ kept ∷ []
unfolding files_to_create file_exists lookup join get_network_policy_file_path trim_suffix
    cut_suffix should_backup_existing_policy is_namespace_excluded is_policy_from_template
    get_network_policy_name backup_network_policy
planned_old = refl

backed_up :
    backup_network_policy lab_disk lab_client lab_codec "shop" "allow-dns" world
    ≡ ok "kind: NetworkPolicy"
unfolding backup_network_policy
backed_up = refl

allowed : may_back_up lab_disk lab_client lab_codec lab.match lab_spec "shop" ≡ true
unfolding should_backup_existing_policy is_namespace_excluded
allowed = refl

policies_covered_example :
    (file_exists lab_disk "/tmp/t"
        (path_of lab_disk lab_client lab_codec lab.match lab_spec "shop" ("allow-dns" <> ".yaml"))
        world
      ≡ true)
    ⊎ In
        (record {
          path =
              path_of lab_disk lab_client lab_codec lab.match lab_spec "shop"
                ("allow-dns" <> ".yaml");
          content = "kind: NetworkPolicy";
          is_backup = true;
        })
        (files_to_create lab_disk lab_client lab_codec lab.match lab_spec "/tmp/t" "shop"
          ("deny.yaml" ∷ [])
          (policy ∷ [])
          world)
policies_covered_example =
    policies_covered lab_disk lab_client lab_codec lab.match lab_spec "/tmp/t" "shop" world
      ("deny.yaml" ∷ []) (policy ∷ []) policy "kind: NetworkPolicy" (inl refl) allowed backed_up

files_to_create-IsPlanned_example :
    All (IsPlanned lab_disk lab_client lab_codec lab.match lab_spec "/tmp/t" "shop" world) (
      files_to_create lab_disk lab_client lab_codec lab.match lab_spec "/tmp/t" "shop"
        ("deny.yaml" ∷ [])
        (policy ∷ [])
        world)
files_to_create-IsPlanned_example =
    files_to_create-IsPlanned lab_disk lab_client lab_codec lab.match lab_spec "/tmp/t" "shop" world
      ("deny.yaml" ∷ []) (policy ∷ [])

abbrev old_file : String
old_file = "networkpolicies/c/shop/shop-deny.yaml"

other_file :
    (join ("/tmp/t" ∷ old_file ∷ []) == join ("/tmp/t" ∷ kustomization_path "c" ∷ [])) ≡ false
unfolding join
other_file = refl

apart : join ("/tmp/t" ∷ old_file ∷ []) ≢ join ("/tmp/t" ∷ kustomization_path "c" ∷ [])
apart e = absurd (
    ground (
      arith,
      other_file,
      eq_iff (join ("/tmp/t" ∷ old_file ∷ [])) (join ("/tmp/t" ∷ kustomization_path "c" ∷ [])),
      e,
    ))

old_there : read_file lab_disk "/tmp/t" old_file world ≡ some "old"
unfolding read_file lookup join
old_there = refl

existing_kept_example :
    read_file lab_disk "/tmp/t" old_file
      (write_files lab "/tmp/t"
        (files_to_create lab_disk lab_client lab_codec lab.match lab_spec "/tmp/t" "shop"
          ("deny.yaml" ∷ [])
          (policy ∷ [])
          world)
        world).1
    ≡ read_file lab_disk "/tmp/t" old_file world
existing_kept_example =
    existing_kept lab lab_disk-laws "/tmp/t" old_file apart "shop" "old" ("deny.yaml" ∷ [])
      (policy ∷ []) world world old_there

-- A namespace with an entry that is listed, and one that is not.
abbrev later : NetState Lab
later = record start { entries = fresh "shop" "pr-pending" ∷ []; last_run = some 900 }

periodic_network_policy_reconciliation-reads_example :
    periodic_network_policy_reconciliation
      (with_writes
        (λ r b t c v w. (false, w))
        (λ t n w. (err "refused", w))
        (λ t n w. (false, w))
        (λ t b w. w)
        lab_schedule)
      later
    ≡ periodic_network_policy_reconciliation lab_schedule later
periodic_network_policy_reconciliation-reads_example =
    periodic_network_policy_reconciliation-reads lab_schedule (λ r b t c v w. (false, w))
      (λ t n w. (err "refused", w)) (λ t n w. (false, w)) (λ t b w. w) later

check_template_changes_idle_example : check_template_changes lab_schedule later ≡ later
check_template_changes_idle_example = check_template_changes_idle lab_schedule later

-- A run in which one of the two namespaces of the status is not listed any more.
abbrev two : List Entry
two = fresh "web" "pr-pending" ∷ fresh "shop" "pr-pending" ∷ []

abbrev moved : NetState Lab
moved = record start { world = record world { entries = two }; entries = two; last_run = some 900 }

abbrev names : List String
names = "web" ∷ []

abbrev left_over : List Entry
left_over =
    clean_entries lab_schedule.parse_time "now" 0 names
      (processed lab_run names moved).world.entries
