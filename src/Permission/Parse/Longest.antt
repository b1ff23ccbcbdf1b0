-- ===== src/Permission/Parse/Longest.antt =====
-- The loop over the role mapping finds the longest role that the text ends in.
use permission_binder_operat.Prelude.{
  String, len, ◌≡◌, refl, sym, ◌∙◌, ◌≢◌, ◌≤◌, ◌<◌, ◌⊎◌, inl, inr, List, [], ◌∷◌, In, ap, ltb,
  ltb→lt, ltb→le, Bool-cases, arith,
}
use permission_binder_operat.GoString.{◌<>◌, has_suffix}
use permission_binder_operat.GoString.Affixes.{
  suffix_unique, has_suffix_sound, has_suffix_of_append, len-zero,
}
use text.Mathlib.TextPositions.{len-append}
use text.Mathlib.TextLemmas.{append_cancel_left}
use permission_binder_operat.Permission.Parse.{Best, start, consider, best_role}

-- `role` is the longest of `roles` with `text = namespace-role`, and it is not empty.
pub record IsBest (text : String) (roles : List String) (namespace role : String) : Type 0 where
  pub listed : In role roles
  pub named : role ≢ ""
  pub matched : text ≡ namespace <> "-" <> role
  pub longest : (k q : String) → In k roles → text ≡ q <> "-" <> k → len k ≤ len role

pub IsBest-unique :
    (text : String) (roles : List String) {n r n' r' : String}
    → IsBest text roles n r
    → IsBest text roles n' r'
    → (n ≡ n') × (r ≡ r')
IsBest-unique text roles {n} {r} {n'} {r'} b b' =
    let same : len r ≡ len r' =
      omega (arith, b.longest r' n' b'.listed b'.matched, b'.longest r n b.listed b.matched) in
    let (front, back) =
      suffix_unique n n' ("-" <> r) ("-" <> r') (sym b.matched ∙ b'.matched)
        (omega (arith, same, len-append "-" r, len-append "-" r')) in
    (front, append_cancel_left "-" r r' back)

record Scanned (text : String) (best : Best) (roles : List String) (found : Best) : Type 0 where
  grows : best.longest ≤ found.longest
  covers : (k q : String) → In k roles → text ≡ q <> "-" <> k → len k ≤ found.longest
  origin :
      (found ≡ best)
      ⊎ (In found.role roles
          × (text ≡ found.namespace <> "-" <> found.role)
          × (found.longest ≡ len found.role)
          × (best.longest < found.longest))

consider-Scanned :
    (text : String) (best : Best) (role : String)
    → Scanned text best (role ∷ []) (consider text best role)
unfolding consider
consider-Scanned text best role = elim (Bool-cases (has_suffix text ("-" <> role))) [
  | inl ends ↦ elim (Bool-cases (ltb best.longest (len role))) [
    | inl longer ↦
        rw (ends, longer)
          (record {
            grows = omega (arith, ltb→lt _ _ longer);
            covers = λ k q h e. ground arith;
            origin = inr (inl refl, has_suffix_sound text _ ends, refl, ltb→lt _ _ longer);
          })
    | inr shorter ↦
        rw (ends, shorter)
          (record {
            grows = omega arith;
            covers = λ k q h e. ground (arith, ltb→le _ _ shorter);
            origin = inl refl;
          })
  ]
  | inr other ↦ rw other (record {
    grows = omega arith;
    covers = λ k q h e. ground (arith, has_suffix_of_append text q ("-" <> k) e);
    origin = inl refl;
  })
]

Scanned-cons :
    {text : String} {best middle found : Best} (role : String) (roles : List String)
    → Scanned text best (role ∷ []) middle
    → Scanned text middle roles found
    → Scanned text best (role ∷ roles) found
Scanned-cons role roles s t = record {
  grows = omega (arith, s.grows, t.grows);
  covers = λ k q h e. elim h [
    | inl here ↦ omega (arith, s.covers k q (inl here) e, t.grows)
    | inr there ↦ t.covers k q there e
  ];
  origin = ground (arith, s.origin, t.origin, s.grows, t.grows);
}

best_role-Scanned :
    (text : String) (best : Best) (roles : List String)
    → Scanned text best roles (best_role text best roles)
unfolding best_role
best_role-Scanned text best [] = record {
  grows = omega arith;
  covers = λ k q h e. absurd h;
  origin = inl refl;
}
best_role-Scanned text best (role ∷ roles) =
    Scanned-cons role roles (consider-Scanned text best role)
      (best_role-Scanned text (consider text best role) roles)

-- A role found by the loop is the best.
pub best_role-IsBest :
    (text : String) (roles : List String)
    → (best_role text start roles).role ≢ ""
    → IsBest text roles (best_role text start roles).namespace (best_role text start roles).role
best_role-IsBest text roles h =
    let s = best_role-Scanned text start roles in
    elim (s.origin) [
      | inl same ↦ absurd (h (ap (λ (b : Best). b.role) same))
      | inr (listed, matched, size, _) ↦ record {
        listed = listed;
        named = h;
        matched = matched;
        longest = λ k q m e. omega (arith, s.covers k q m e, size);
      }
    ]

-- The best role is found.
pub best_role_complete :
    (text : String) (roles : List String) {n r : String}
    → IsBest text roles n r
    → ((best_role text start roles).namespace ≡ n) × ((best_role text start roles).role ≡ r)
best_role_complete text roles {n} {r} b =
    let s = best_role-Scanned text start roles in
    let reached = s.covers r n b.listed b.matched in
    elim (s.origin) [
      | inl same ↦
          absurd (b.named (len-zero r (omega (arith, reached, ap (λ (b : Best). b.longest) same))))
      | inr (listed, matched, size, positive) ↦
          IsBest-unique text roles
            (best_role-IsBest text roles (λ e. absurd (omega (arith, ap len e, size, positive)))) b
    ]
