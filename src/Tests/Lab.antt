-- ===== src/Tests/Lab.antt =====
-- A repository, a provider and a status in memory, for the runs of the NetworkPolicy part.

use permission_binder_operat.Prelude.{
  ℕ, String, Bool, true, false, ◌≡◌, refl, ◌≢◌, Option, none, some, List, [], ◌∷◌, ok,
  if◌then◌else◌, ◌==◌, is_some, eq_iff, eq_refl, not_true, sym, ◌∙◌, ap, arith, Bool-cases, inl,
  inr,
}
use permission_binder_operat.GoMap.{GoMap, lookup, insert, delete}
use permission_binder_operat.GoMap.Laws.{lookup-insert}
use permission_binder_operat.Cluster.{found}
use permission_binder_operat.NetworkPolicy.Status.{Entry, StatusClient}
use permission_binder_operat.NetworkPolicy.Disk.{Disk, DiskLaws}
use permission_binder_operat.NetworkPolicy.Kustomization.{Kustomization, KustomizationYaml}
use permission_binder_operat.NetworkPolicy.Json.{end}
use permission_binder_operat.NetworkPolicy.Policies.{
  Policy, PolicySpec, PolicyClient, PolicyCodec, NetworkSpec,
}
use permission_binder_operat.NetworkPolicy.Git.{Git, Pull}
use permission_binder_operat.NetworkPolicy.Single.{Network, NetState, or_empty}
use permission_binder_operat.NetworkPolicy.Periodic.{Schedule}
use permission_binder_operat.NetworkPolicy.Run.{RunSetup}
use permission_binder_operat.NetworkPolicy.Disk.Frame.{DiskBlind}
use permission_binder_operat.NetworkPolicy.Status.Frame.{StatusBlind}
use permission_binder_operat.NetworkPolicy.Periodic.Frame.{ScheduleBlind}

-- The files of the clone, the status in the cluster, and what no call of the NetworkPolicy part changes.
pub record Lab : Type 0 where
  pub files : GoMap String
  pub entries : List Entry
  pub role_bindings : List String

abbrev pub lab_disk : Disk Lab
lab_disk = record {
  stat = λ path w. is_some (lookup path w.files);
  read = λ path w. lookup path w.files;
  read_dir = λ path w. some (record { name = "deny.yaml"; is_dir = false } ∷ []);
  make_dirs = λ path w. (true, w);
  write = λ path content w. (true, record w { files = insert path content w.files });
  remove = λ path w. (true, record w { files = delete path w.files });
  remove_all = λ path w. w;
}

lookup_self :
    (path content : String) (files : GoMap String)
    → lookup path (insert path content files) ≡ some content
lookup_self path content files = rw (lookup-insert, eq_refl path) refl

lookup_other :
    (path other content : String) (files : GoMap String)
    → other ≢ path
    → lookup other (insert path content files) ≡ lookup other files
lookup_other path other content files h =
    rw (lookup-insert, not_true (path == other) (λ e. h (sym ((eq_iff path other).0 e)))) refl

pub lab_disk-laws : DiskLaws lab_disk
lab_disk-laws = record {
  read-write = λ ps content w h. lookup_self _ content w.files;
  read-write_ne = λ ps qs content w h. lookup_other _ _ content w.files h;
  read-make_dirs = λ path qs w. refl;
  read-stat = λ qs w content e. rw e refl;
}

abbrev pub pull : Pull
pull = record { number = 7; state = "OPEN"; url = "https://git/7"; branch = "networkpolicy/c/shop" }

abbrev pub lab_git : {W : Type 0} → Git W
lab_git = record {
  clone = λ url c tls w. (some "/tmp/t", w);
  open_repo = λ repo w. true;
  fetch = λ repo base c tls w. w;
  checkout = λ repo branch create w. (true, w);
  remote_head = λ repo branch w. none;
  reset = λ repo hash w. w;
  commit_and_push = λ repo branch message c tls w. (true, w);
  pr_by_branch = λ site branch w. none;
  create_pr = λ site new w. (ok pull, w);
  merge_pr = λ site number w. (true, w);
  delete_branch = λ site branch w. w;
}

abbrev pub no_rules : PolicySpec
no_rules = record {
  pod_selector = record { match_labels = []; match_expressions = [] };
  policy_types = [];
  ingress = [];
  egress = [];
}

-- A policy that comes from no template.
abbrev pub policy : Policy
policy = record { namespace = "shop"; name = "allow-dns"; annotations = none; spec = no_rules }

abbrev pub lab_client : {W : Type 0} → PolicyClient W
lab_client = record {
  list = λ namespace w. some (policy ∷ []);
  get = λ key w. found policy;
  dry_run = λ p w. some p;
  secret = λ key w. found (("token", "t") ∷ []);
}

abbrev pub lab_codec : PolicyCodec
lab_codec = record {
  parse = λ text. some policy;
  decode = λ p. some end;
  to_yaml = λ obj. some "kind: NetworkPolicy";
}

parse_resources : String → Option Kustomization
parse_resources text =
    some (record { resources = if text == "" then [] else text ∷ []; other = "" })

print_resources : List String → Option String
print_resources [] = some ""
print_resources (r ∷ []) = if r == "" then none else some r
print_resources (r ∷ s ∷ rest) = none

print_kustomization : Kustomization → Option String
print_kustomization k = if k.other == "" then print_resources k.resources else none

unfoldable pub lab_yaml : KustomizationYaml
unfolding parse_resources print_kustomization print_resources
lab_yaml = record { parse = parse_resources; print = print_kustomization; new_fields = "" }

print_resources-parse :
    (resources : List String) (content : String)
    → print_resources resources ≡ some content
    → (if content == "" then [] else content ∷ []) ≡ resources
unfolding print_resources
print_resources-parse [] content h = rw (sym (ap or_empty h)) refl
print_resources-parse (r ∷ []) content h = elim (Bool-cases (r == "")) [
  | inl blank ↦ absurd (ground arith)
  | inr more ↦
      let same : r ≡ content =
        ap or_empty (ap (λ (b : Bool). if b then none else some r) (sym more) ∙ h) in
      rw (sym same, more) refl
]
print_resources-parse (r ∷ s ∷ rest) content h = absurd (ground arith)

-- What is printed is parsed again.
pub lab_yaml-print :
    (k : Kustomization) (content : String)
    → lab_yaml.print k ≡ some content
    → lab_yaml.parse content ≡ some k
unfolding lab_yaml print_kustomization parse_resources
lab_yaml-print k content h = elim (Bool-cases (k.other == "")) [
  | inl plain ↦ ap some (λ i. record {
    resources =
        print_resources-parse k.resources content
          (ap (λ (b : Bool). if b then print_resources k.resources else none) (sym plain) ∙ h) i;
    other = sym ((eq_iff k.other "").0 plain) i;
  })
  | inr more ↦ absurd (ground arith)
]

abbrev pub lab_spec : NetworkSpec
lab_spec = record {
  git_repository = record {
    provider = "github";
    url = "https://github.com/o/r.git";
    base_branch = "main";
    cluster_name = "c";
    api_base_url = "";
    git_tls_verify = none;
    secret_namespace = "ops";
    secret_name = "git";
  };
  template_dir = "templates";
  auto_merge = none;
  backup_existing = true;
  exclude_namespaces = none;
  exclude_backup_for_namespaces = none;
  reconciliation_interval = "";
  batch_size = 0;
}

abbrev pub lab_status : StatusClient Lab
lab_status = record {
  fetch = λ w. some w.entries;
  write = λ entries w. (true, record w { entries = entries });
  pause = λ w. w;
}

-- A run over some files and some status entries.
abbrev pub run_over :
    {W : Type 0} → Disk W → StatusClient W → (List Entry → ℕ → W → Bool × W) → RunSetup W
run_over disk status touch = record {
  schedule = record {
    network = record {
      disk = disk;
      git = lab_git;
      client = lab_client;
      status = status;
      codec = lab_codec;
      yaml = lab_yaml;
      match = λ pattern' text. some (pattern' == text);
      parse_url = λ url. none;
      now = "now";
      spec = lab_spec;
    };
    texts = record {
      port = λ p. "";
      peer = λ p. "";
      ingress = λ r. "";
      egress = λ r. "";
      spec = λ s. "";
      sha = λ text. text;
    };
    clock = 1000;
    parse_time = λ text. none;
    stale_cutoff = 0;
    touch = touch;
  };
  scope = [];
  binders = λ w. some [];
  parse_duration = λ text. none;
  retention_cutoff = 0;
}

pub run_over-ScheduleBlind :
    {W V : Type 0} (view : W → V) (disk : Disk W) (status : StatusClient W)
    (touch : List Entry → ℕ → W → Bool × W)
    → DiskBlind view disk
    → StatusBlind view status
    → ((entries : List Entry) (clock : ℕ) (w : W) → view (touch entries clock w).1 ≡ view w)
    → ScheduleBlind view (run_over disk status touch).schedule
run_over-ScheduleBlind view disk status touch blind_disk blind_status blind_touch = record {
  network = record {
    disk = blind_disk;
    git = record {
      clone = λ url c tls w. refl;
      fetch = λ repo base c tls w. refl;
      checkout = λ repo branch create w. refl;
      reset = λ repo hash w. refl;
      commit_and_push = λ repo branch message c tls w. refl;
      create_pr = λ at' new w. refl;
      merge_pr = λ at' number w. refl;
      delete_branch = λ at' branch w. refl;
    };
    status = blind_status;
  };
  touch = blind_touch;
}

abbrev pub lab_run : RunSetup Lab
lab_run = run_over lab_disk lab_status (λ entries clock w. (true, record w { entries = entries }))

abbrev pub lab_schedule : Schedule Lab
lab_schedule = lab_run.schedule

abbrev pub lab : Network Lab
lab = lab_schedule.network

-- The state at the start: the file of a template that was processed before, and no kustomization.
abbrev pub world : Lab
world = record {
  files = ("/tmp/t/networkpolicies/c/shop/shop-deny.yaml", "old") ∷ [];
  entries = [];
  role_bindings = "shop/shop-admin" ∷ [];
}

abbrev pub start : NetState Lab
start = record { world = world; entries = []; last_run = none; metrics = [] }
