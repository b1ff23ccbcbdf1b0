-- ===== src/Permission/Parse/Laws.antt =====
-- What a permission string must look like to be parsed, and what it is parsed into.
use text.Mathlib.TextLemmas.{nil-append, append_cancel_right, append-ne-nil_of_right_ne-nil}
use permission_binder_operat.Prelude.{
  String, ◌≡◌, refl, sym, ◌∙◌, ◌≢◌, ◌↔◌, List, In, ok, err, ◌==◌, eq_iff, Bool-cases, inl, inr,
  arith, not_true,
}
use permission_binder_operat.GoString.{◌<>◌, trim_prefix}
use permission_binder_operat.GoString.Affixes.{
  trim_prefix-append, trim_prefix_changes, String-cases,
}
use permission_binder_operat.GoMap.{GoMap, keys}
use permission_binder_operat.Permission.Parse.{
  Best, start, best_role, conclude, role_missing, parse_permission_string,
}
use permission_binder_operat.Permission.Parse.Longest.{IsBest, best_role-IsBest, best_role_complete}

-- The string is `prefix-namespace-role`, for the longest role of the mapping that it ends in.
pub record IsPermission (permission prefix : String) (roles : List String) (namespace role : String)
    : Type 0 where
  pub prefixed : permission ≡ (prefix <> "-") <> namespace <> "-" <> role
  pub best : IsBest (namespace <> "-" <> role) roles namespace role
  pub inhabited : namespace ≢ ""

conclude_sound :
    (b : Best) {n r : String}
    → conclude b ≡ ok (n, r)
    → (b.role ≢ "") × (b.namespace ≢ "") × (b.namespace ≡ n) × (b.role ≡ r)
unfolding conclude
conclude_sound b {n} {r} h = ground (arith, eq_iff b.role "", eq_iff b.namespace "")

conclude_complete :
    (b : Best) → b.role ≢ "" → b.namespace ≢ "" → conclude b ≡ ok (b.namespace, b.role)
unfolding conclude
conclude_complete b h k = ground (arith, eq_iff b.role "", eq_iff b.namespace "")

dash-ne-nil : (p : String) → p <> "-" ≢ ""
dash-ne-nil p = append-ne-nil_of_right_ne-nil p (λ e. absurd (ground (arith, eq_iff "-" "")))

prefixed-ne : (p text : String) → text ≢ (p <> "-") <> text
prefixed-ne p text e =
    dash-ne-nil p (sym (append_cancel_right "" (p <> "-") text (nil-append text ∙ e)))

parse-prefixed :
    (p text : String) (m : GoMap String)
    → parse_permission_string ((p <> "-") <> text) p m ≡ conclude (best_role text start (keys m))
unfolding parse_permission_string
parse-prefixed p text m =
    rw (trim_prefix-append (p <> "-") text, not_true _ (λ e. prefixed-ne p text ((eq_iff _ _).0 e)))

-- Nothing is parsed but what has the prefix.
prefixed_of_ok :
    (s p : String) (m : GoMap String) {a : String × String}
    → parse_permission_string s p m ≡ ok a
    → (text : String) × (s ≡ (p <> "-") <> text)
unfolding parse_permission_string
prefixed_of_ok s p m h = elim (Bool-cases (trim_prefix s (p <> "-") == s)) [
  | inl same ↦ absurd (ground arith)
  | inr cut ↦ (
    trim_prefix s (p <> "-"),
    trim_prefix_changes s (p <> "-")
        (λ e. absurd (ground (arith, eq_iff (trim_prefix s (p <> "-")) s))),
  )
]

IsBest-of_ok :
    (p text : String) (m : GoMap String) {n r : String}
    → conclude (best_role text start (keys m)) ≡ ok (n, r)
    → IsBest text (keys m) n r × (n ≢ "")
IsBest-of_ok p text m {n} {r} h =
    let (named, inhabited, at_n, at_r) = conclude_sound (best_role text start (keys m)) h in
    let found = best_role-IsBest text (keys m) named in
    (rw at_n at (rw at_r at found), rw at_n at inhabited)

pub parse_sound :
    (s p : String) (m : GoMap String) {n r : String}
    → parse_permission_string s p m ≡ ok (n, r)
    → IsPermission s p (keys m) n r
parse_sound s p m {n} {r} h =
    let (text, e) = prefixed_of_ok s p m h in
    let (best, inhabited) = IsBest-of_ok p text m (sym (parse-prefixed p text m) ∙ (rw e at h)) in
    record {
      prefixed = rw (← best.matched) e;
      best = rw best.matched at best;
      inhabited = inhabited;
    }

pub parse_complete :
    (s p : String) (m : GoMap String) {n r : String}
    → IsPermission s p (keys m) n r
    → parse_permission_string s p m ≡ ok (n, r)
parse_complete s p m {n} {r} h =
    let (at_n, at_r) = best_role_complete _ (keys m) h.best in
    let found = best_role (n <> "-" <> r) start (keys m) in
    let done =
      conclude_complete found (λ e. h.best.named (sym at_r ∙ e))
        (λ e. h.inhabited (sym at_n ∙ e)) in
    rw h.prefixed (parse-prefixed p (n <> "-" <> r) m ∙ done ∙ rw (at_n, at_r) refl)

-- A permission string is parsed into a namespace and a role exactly if it is
-- `prefix-namespace-role`, the namespace is not empty, and the role is a key of the mapping, not
-- empty, and at least as long as every key that the string ends in.
pub parse_iff :
    (s p : String) (m : GoMap String) (n r : String)
    → (parse_permission_string s p m ≡ ok (n, r)) ↔ IsPermission s p (keys m) n r
parse_iff s p m n r = (parse_sound s p m, parse_complete s p m)

-- Two mappings with the same keys, whatever the order in which `range` meets them.
abbrev pub SameKeys : GoMap String → GoMap String → Type 0
SameKeys m m' = (k : String) → In k (keys m) ↔ In k (keys m')

IsBest-SameKeys :
    (m m' : GoMap String) {text n r : String}
    → SameKeys m m'
    → IsBest text (keys m) n r
    → IsBest text (keys m') n r
IsBest-SameKeys m m' {r = r} same b = record {
  listed = (same r).0 b.listed;
  named = b.named;
  matched = b.matched;
  longest = λ k q h e. b.longest k q ((same k).1 h) e;
}

abbrev found_in : String → GoMap String → Best
found_in text m = best_role text start (keys m)

conclude_nameless : (b : Best) → b.role ≡ "" → conclude b ≡ err role_missing
unfolding conclude
conclude_nameless b e = ground (arith, eq_iff b.role "")

conclude_same :
    (b b' : Best) → b.namespace ≡ b'.namespace → b.role ≡ b'.role → conclude b ≡ conclude b'
unfolding conclude
conclude_same b b' e f = rw (e, f) refl

conclude_order_found :
    (text : String) (m m' : GoMap String)
    → SameKeys m m'
    → (found_in text m).role ≢ ""
    → conclude (found_in text m) ≡ conclude (found_in text m')
conclude_order_found text m m' same named =
    let moved = IsBest-SameKeys m m' same (best_role-IsBest text (keys m) named) in
    let (at_n, at_r) = best_role_complete text (keys m') moved in
    conclude_same _ _ (sym at_n) (sym at_r)

conclude_order :
    (text : String) (m m' : GoMap String)
    → SameKeys m m'
    → conclude (found_in text m) ≡ conclude (found_in text m')
conclude_order text m m' same = elim (String-cases (found_in text m).role) [
  | inr named ↦ conclude_order_found text m m' same named
  | inl nameless ↦ elim (String-cases (found_in text m').role) [
    | inr named' ↦ sym (conclude_order_found text m' m (λ k. ((same k).1, (same k).0)) named')
    | inl nameless' ↦ conclude_nameless _ nameless ∙ sym (conclude_nameless _ nameless')
  ]
]

-- The result, an error included, does not depend on the order in which Go ranges over the mapping.
pub parse_order :
    (s p : String) (m m' : GoMap String)
    → SameKeys m m'
    → parse_permission_string s p m ≡ parse_permission_string s p m'
unfolding parse_permission_string
parse_order s p m m' same = rw (conclude_order (trim_prefix s (p <> "-")) m m' same) refl
