-- ===== src/Permission/Dn/Laws.antt =====
-- The two readings of a whitelist entry, for the role binding and for the LDAP group, agree.
use permission_binder_operat.Prelude.{
  String, ◌≡◌, refl, ◌≢◌, some, ok, Option-cases, inl, inr, arith, eq_iff, ◌∙◌, ap,
}
use permission_binder_operat.GoString.{◌<>◌, cut_prefix, cut, trim_space}
use permission_binder_operat.GoString.Affixes.{cut_prefix_sound}
use permission_binder_operat.GoString.Search.{cut-prefix, cut_sound}
use permission_binder_operat.Permission.Dn.{
  LdapGroupInfo, up_to_comma, extract_cn_from_dn, parse_cn,
}

parse_cn_parts :
    (cn : String) (info : LdapGroupInfo)
    → parse_cn cn ≡ ok info
    → (rest : String) × (cut_prefix "CN=" cn ≡ some rest)
      × (cut "," rest ≡ some (info.group_name, info.path))
      × (info.group_name ≢ "")
      × (info.path ≢ "")
      × (info.full_dn ≡ cn)
unfolding parse_cn
parse_cn_parts cn info h = elim (Option-cases (cut_prefix "CN=" cn)) [
  | inl missed ↦ absurd (ground arith)
  | inr (rest, e) ↦ elim (Option-cases (cut "," rest)) [
    | inl missed ↦ absurd (ground arith)
    | inr (r, f) ↦ (
      rest,
      e,
      ground arith,
      ground (arith, eq_iff r.0 ""),
      ground (arith, eq_iff r.1 ""),
      ground arith,
    )
  ]
]

extract-cut :
    (dn rest : String) {a b : String}
    → cut "CN=" dn ≡ some ("", rest)
    → cut "," rest ≡ some (a, b)
    → extract_cn_from_dn dn ≡ ok (trim_space a)
unfolding extract_cn_from_dn
extract-cut dn rest e f = rw (e, extract_cn_from_dn) (rw (f, up_to_comma) refl)

-- An entry that is accepted for the LDAP group is `CN=group,path` with both parts not empty, and
-- the group that its role binding names is that group, with the spaces at its ends trimmed.
pub parse_cn-extract_cn :
    (cn : String) (info : LdapGroupInfo)
    → parse_cn cn ≡ ok info
    → (cn ≡ "CN=" <> info.group_name <> "," <> info.path)
      × (info.group_name ≢ "")
      × (info.path ≢ "")
      × (info.full_dn ≡ cn)
      × (extract_cn_from_dn cn ≡ ok (trim_space info.group_name))
parse_cn-extract_cn cn info h =
    let (rest, e, f, named, placed, whole) = parse_cn_parts cn info h in
    let split : rest ≡ info.group_name <> "," <> info.path = cut_sound "," rest f in
    (
      cut_prefix_sound "CN=" cn e ∙ ap (λ (t : String). "CN=" <> t) split,
      named,
      placed,
      whole,
      extract-cut cn rest (cut-prefix "CN=" cn e) f,
    )
