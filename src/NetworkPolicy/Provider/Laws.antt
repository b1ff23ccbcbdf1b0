-- ===== src/NetworkPolicy/Provider/Laws.antt =====
-- Which namespaces are excluded, and which API a detected provider is given.
use permission_binder_operat.Prelude.{
  String, Bool, true, false, ◌||◌, ◌≡◌, refl, ap, ◌≢◌, ◌↔◌, ◌⊎◌, inl, inr, Option, none, some, List,
  [], ◌∷◌, In, arith, Bool-cases, eq_iff,
}
use permission_binder_operat.GoString.{contains}
use permission_binder_operat.Whitelist.{contains_string}
use permission_binder_operat.NetworkPolicy.Provider.{
  detect_git_provider, Parse, get_api_base_url, ExcludeList, Match, matched, matches_pattern,
  is_namespace_excluded,
}

clash : {b : Bool} → b ≡ true → b ≡ false → ⊥
clash h k = ground arith

gone : {A : Type 0} {a : A} → ◌≢◌ {A = Option A} none (some a)
gone h = ground arith

same_list : {a b : ExcludeList} → ◌≡◌ {A = Option ExcludeList} (some a) (some b) → a ≡ b
same_list h = ground arith

some_same : {a b : String} → ◌≡◌ {A = Option String} (some a) (some b) → b ≡ a
some_same h = ground arith

pub In-contains_string_iff :
    (key : String) (items : List String) → (contains_string key items ≡ true) ↔ In key items
unfolding contains_string
In-contains_string_iff key [] = ground arith
In-contains_string_iff key (item ∷ rest) =
    ground (arith, In-contains_string_iff key rest, eq_iff key item)

-- One of the patterns is valid and matches.
abbrev pub IsMatched : Match → String → List String → Type 0
IsMatched match namespace patterns = (p : String) × In p patterns × (match p namespace ≡ some true)

matched_some : (o : Option Bool) → matched o ≡ true → o ≡ some true
matched_some none h = absurd (ground arith)
matched_some (some b) h = ap {B = Option Bool} some h

matches_pattern_iff :
    (match : Match) (namespace : String) (patterns : List String)
    → (matches_pattern match namespace patterns ≡ true) ↔ IsMatched match namespace patterns
unfolding matches_pattern
matches_pattern_iff match namespace [] = (λ h. absurd (ground arith), λ h. absurd h.1)
matches_pattern_iff match namespace (p ∷ rest) =
    let ih = matches_pattern_iff match namespace rest in
    elim (Bool-cases (matched (match p namespace))) [
      | inl hit ↦ (λ h. (p, inl refl, matched_some (match p namespace) hit), λ h. rw hit refl)
      | inr miss ↦ (
        λ h. let (q, there, e) = ih.0 (rw miss at h) in (q, inr there, e),
        λ (q, there, e). rw miss (elim there [
          | inl same ↦ absurd (clash (ap matched (rw same at e)) miss)
          | inr more ↦ ih.1 (q, more, e)
        ]),
      )
    ]

-- A namespace is excluded exactly if there is a list that names it or that has a valid pattern which
-- matches it.
pub is_namespace_excluded_iff :
    (match : Match) (namespace : String) (excluded : Option ExcludeList)
    → (is_namespace_excluded match namespace excluded ≡ true) ↔ (
        (list : ExcludeList) × (excluded ≡ some list)
        × (In namespace list.explicit ⊎ IsMatched match namespace list.patterns))
unfolding is_namespace_excluded
is_namespace_excluded_iff match namespace none =
    (λ h. absurd (ground arith), λ h. absurd (gone h.1))
is_namespace_excluded_iff match namespace (some list) =
    let patterns = matches_pattern_iff match namespace list.patterns in
    let explicit = In-contains_string_iff namespace list.explicit in
    elim (Bool-cases (contains_string namespace list.explicit)) [
      | inl listed ↦ (λ h. (list, refl, inl (explicit.0 listed)), λ h. rw listed refl)
      | inr other ↦ (
        λ h. (list, refl, inr (patterns.0 (rw other at h))),
        λ (l, e, reason). rw other (elim reason [
          | inl named ↦ absurd (clash (explicit.1 (rw (same_list e) named)) other)
          | inr hit ↦ patterns.1 (rw (same_list e) hit)
        ]),
      )
    ]

abbrev pub public_endpoints : List String
public_endpoints =
    "https://api.bitbucket.org/2.0" ∷ "https://api.github.com" ∷ "https://gitlab.com/api/v4" ∷ []

public :
    (parse : Parse) (repo_url provider : String)
    → (provider ≡ "bitbucket") ⊎ (provider ≡ "github") ⊎ (provider ≡ "gitlab")
    → In (get_api_base_url parse provider "" repo_url) public_endpoints
unfolding get_api_base_url
public parse repo_url provider (inl e) = rw e (inl refl)
public parse repo_url provider (inr (inl e)) = rw e (inr (inl refl))
public parse repo_url provider (inr (inr e)) = rw e (inr (inr (inl refl)))

-- A provider that was detected from the URL is given the endpoint of the public service, whatever the
-- host of the repository is.
pub get_api_base_url-detected :
    (parse : Parse) (repo_url provider : String)
    → detect_git_provider repo_url "" ≡ some provider
    → In (get_api_base_url parse provider "" repo_url) public_endpoints
unfolding detect_git_provider
get_api_base_url-detected parse repo_url provider h =
    elim (Bool-cases (contains repo_url "bitbucket.org")) [
      | inl hit ↦ public parse repo_url provider (inl (some_same (rw hit at h)))
      | inr miss ↦ elim (Bool-cases (contains repo_url "github.com")) [
        | inl hit ↦ public parse repo_url provider (inr (inl (some_same (rw (miss, hit) at h))))
        | inr miss' ↦
            elim (Bool-cases (contains repo_url "gitlab.com" || contains repo_url "gitlab.")) [
              | inl hit ↦
                  public parse repo_url provider
                    (inr (inr (some_same (rw (miss, miss', hit) at h))))
              | inr none_hit ↦ absurd (gone (rw (miss, miss', none_hit) at h))
            ]
      ]
    ]
