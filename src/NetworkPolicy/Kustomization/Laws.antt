-- ===== src/NetworkPolicy/Kustomization/Laws.antt =====
-- The resources after an update: as a set, and in which order.
use permission_binder_operat.Prelude.{
  String, Bool, true, false, ◌≡◌, refl, sym, ◌∙◌, ◌≢◌, ◌↔◌, ◌⊎◌, inl, inr, List, [], ◌∷◌, ◌++◌, In,
  Distinct, ◌==◌, eq_iff, eq_refl, arith, Bool-cases, subst,
}
use permission_binder_operat.GoSort.{sort_strings}
use permission_binder_operat.GoSort.Laws.{IsAscending, In-sort_by_iff, sort_by-IsAscending}
use permission_binder_operat.Whitelist.{contains_string}
use permission_binder_operat.NetworkPolicy.Provider.Laws.{In-contains_string_iff}
use permission_binder_operat.NetworkPolicy.Kustomization.{
  remove_first, edited, unique, new_resources,
}

abbrev pub id : String → String
id s = s

clash : {b : Bool} → b ≡ false → b ≡ true → ⊥
clash h k = ground arith

unseen :
    (a r : String) (seen : List String)
    → contains_string a (r ∷ seen) ≡ false
    → ((a == r) ≡ false) × (contains_string a seen ≡ false)
unfolding contains_string
unseen a r seen h = ground arith

still_unseen :
    (a r : String) (seen : List String)
    → (a == r) ≡ false
    → contains_string a seen ≡ false
    → contains_string a (r ∷ seen) ≡ false
unfolding contains_string
still_unseen a r seen h k = ground arith

In-unique_iff :
    (a : String) (seen rs : List String)
    → In a (unique seen rs) ↔ (In a rs × (contains_string a seen ≡ false))
unfolding unique
In-unique_iff a seen [] = (λ h. absurd h, λ h. absurd h.0)
In-unique_iff a seen (r ∷ rest) = elim (Bool-cases (contains_string r seen)) [
  | inl old ↦
      let ih = In-unique_iff a seen rest in
      rw old (
        λ m. let (there, new) = ih.0 m in (inr there, new),
        λ (m, new). elim m [
          | inl same ↦ absurd (clash (rw same at new) old)
          | inr there ↦ ih.1 (there, new)
        ],
      )
  | inr fresh ↦
      let ih = In-unique_iff a (r ∷ seen) rest in
      rw fresh (
        λ m. elim m [
          | inl same ↦ (inl same, rw same fresh)
          | inr more ↦ let (there, new) = ih.0 more in (inr there, (unseen a r seen new).1)
        ],
        λ (m, new). elim m [
          | inl same ↦ inl same
          | inr there ↦ elim (Bool-cases (a == r)) [
            | inl same ↦ inl ((eq_iff a r).0 same)
            | inr other ↦ inr (ih.1 (there, still_unseen a r seen other new))
          ]
        ],
      )
]

unique-Distinct : (seen rs : List String) → Distinct (unique seen rs)
unfolding unique
unique-Distinct seen [] = tt
unique-Distinct seen (r ∷ rest) = elim (Bool-cases (contains_string r seen)) [
  | inl old ↦ rw old (unique-Distinct seen rest)
  | inr new ↦ rw new (
    λ m. clash (unseen r r seen ((In-unique_iff r (r ∷ seen) rest).0 m).1).0 (eq_refl r),
    unique-Distinct (r ∷ seen) rest,
  )
]

unique-IsAscending : (seen rs : List String) → IsAscending id rs → IsAscending id (unique seen rs)
unfolding unique
unique-IsAscending seen [] h = tt
unique-IsAscending seen (r ∷ rest) (least, h) = elim (Bool-cases (contains_string r seen)) [
  | inl old ↦ rw old (unique-IsAscending seen rest h)
  | inr new ↦ rw new (
    λ y m. least y ((In-unique_iff y (r ∷ seen) rest).0 m).0,
    unique-IsAscending (r ∷ seen) rest h,
  )
]

In-remove_first :
    (a p : String) (rs : List String) → Distinct rs → In a (remove_first p rs) ↔ (In a rs × (a ≢ p))
unfolding remove_first
In-remove_first a p [] h = (λ m. absurd m, λ m. absurd m.0)
In-remove_first a p (r ∷ rest) (once, h) = elim (Bool-cases (r == p)) [
  | inl here ↦
      let e = (eq_iff r p).0 here in
      rw here (
        λ m. (inr m, λ k. once (subst (λ x. In x rest) (k ∙ sym e) m)),
        λ (m, other). elim m [ inl same ↦ absurd (other (same ∙ e)) | inr there ↦ there ],
      )
  | inr away ↦
      let ih = In-remove_first a p rest h in
      rw away (
        λ m. elim m [
          | inl same ↦ (inl same, λ k. clash away ((eq_iff r p).1 (sym same ∙ k)))
          | inr more ↦ let (there, other) = ih.0 more in (inr there, other)
        ],
        λ (m, other). elim m [ inl same ↦ inl same | inr there ↦ inr (ih.1 (there, other)) ],
      )
]

-- `a` is to be in the list, whose entries were `rs`, after an addition or a removal of `p`.
abbrev pub Wanted : Bool → String → String → List String → Type 0
Wanted true a p rs = (a ≡ p) ⊎ In a rs
Wanted false a p rs = In a rs × (a ≢ p)

In-snoc : (a p : String) (rs : List String) → In a (rs ++ (p ∷ [])) ↔ ((a ≡ p) ⊎ In a rs)
In-snoc a p [] = (λ m. m, λ m. m)
In-snoc a p (r ∷ rest) = ground (arith, In-snoc a p rest)

In-edited_iff :
    (add : Bool) (a p : String) (rs : List String)
    → Distinct rs
    → In a (edited add p rs) ↔ Wanted add a p rs
unfolding edited
In-edited_iff true a p rs once = elim (Bool-cases (contains_string p rs)) [
  | inl there ↦ rw there (
    λ m. inr m,
    λ m. elim m [ inl same ↦ rw same ((In-contains_string_iff p rs).0 there) | inr old ↦ old ],
  )
  | inr missing ↦ rw missing (In-snoc a p rs)
]
In-edited_iff false a p rs once = elim (Bool-cases (contains_string p rs)) [
  | inl there ↦ rw there (In-remove_first a p rs once)
  | inr missing ↦ rw missing (
    λ m. (m, λ e. clash missing ((In-contains_string_iff p rs).1 (subst (λ x. In x rs) e m))),
    λ (m, other). m,
  )
]

-- As a set the new list is the wanted one, if no path stood in the old one twice.
pub In-new_resources_iff :
    (add : Bool) (a p : String) (rs : List String)
    → Distinct rs
    → In a (new_resources add p rs) ↔ Wanted add a p rs
unfolding new_resources contains_string
In-new_resources_iff add a p rs once =
    let found = In-unique_iff a [] (sort_strings (edited add p rs)) in
    let sorted = In-sort_by_iff id a (edited add p rs) in
    let wanted = In-edited_iff add a p rs once in
    (λ m. wanted.0 (sorted.0 (found.0 m).0), λ m. found.1 (sorted.1 (wanted.1 m), refl))

pub new_resources-Distinct :
    (add : Bool) (p : String) (rs : List String) → Distinct (new_resources add p rs)
unfolding new_resources
new_resources-Distinct add p rs = unique-Distinct [] (sort_strings (edited add p rs))

pub new_resources-IsAscending :
    (add : Bool) (p : String) (rs : List String) → IsAscending id (new_resources add p rs)
unfolding new_resources
new_resources-IsAscending add p rs =
    unique-IsAscending [] (sort_strings (edited add p rs))
      (sort_by-IsAscending id (edited add p rs))
