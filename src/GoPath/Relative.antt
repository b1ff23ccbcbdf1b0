-- ===== src/GoPath/Relative.antt =====
-- The way from a directory of names to a file below it.
use permission_binder_operat.Prelude.{
  String, false, ◌≡◌, refl, sym, ap, ◌∙◌, ◌≢◌, List, [], ◌∷◌, none, some, eq_refl, if◌then◌else◌,
  arith,
}
use permission_binder_operat.GoString.{◌<>◌, split}
use permission_binder_operat.GoPath.{
  join_slash, clean_parts, backwards, clean, join, front, dir, is_abs, base_parts, relative, rel,
  down, same_root,
}
use permission_binder_operat.GoPath.Laws.{
  IsName, split_step, split-join_slash, clean-join_slash, join-names, eq_false, has_prefix-slash,
  joined_full, joined_name,
}

longer : {a b c : String} → ◌≡◌ {A = List String} (a ∷ b ∷ []) (c ∷ []) → ⊥
longer e = ground arith

rel_lem :
    (base target : String)
    → rel base target ≡ (
        if same_root (is_abs base) (is_abs target)
        then relative (base_parts (clean base)) (split b'/' (clean target))
        else none)
unfolding rel
rel_lem base target = refl

module _ (a b : String) (name_a : IsName a) (name_b : IsName b) where
  split_front : split b'/' (a <> "/" <> b <> "/" <> "") ≡ a ∷ b ∷ "" ∷ []
  unfolding split
  split_front =
      split_step a (b <> "/" <> "") name_a.no_slash ∙ ap (◌∷◌ a) (split_step b "" name_b.no_slash)

  parts_front : clean_parts false [] (a ∷ b ∷ "" ∷ []) ≡ b ∷ a ∷ []
  unfolding clean_parts
  parts_front =
      rw
        (
          eq_false a "" name_a.not_empty,
          eq_false a "." name_a.not_here,
          eq_false a ".." name_a.not_up,
          eq_false b "" name_b.not_empty,
          eq_false b "." name_b.not_here,
          eq_false b ".." name_b.not_up,
        )
        refl

  -- A directory is cleaned to its names.
  clean_front : clean (a <> "/" <> b <> "/" <> "") ≡ join_slash (a ∷ b ∷ [])
  unfolding clean backwards
  clean_front =
      rw
        (
          has_prefix-slash a ("/" <> b <> "/" <> "") name_a.no_slash name_a.not_empty,
          split_front,
          parts_front,
          joined_full a (b ∷ []) name_a (name_b, tt),
        )
        refl

  two_names : split b'/' (join_slash (a ∷ b ∷ [])) ≡ a ∷ b ∷ []
  two_names = split-join_slash a (b ∷ []) name_a.no_slash (name_b.no_slash, tt)

  not_dot : join_slash (a ∷ b ∷ []) ≢ "."
  unfolding split
  not_dot e = absurd (longer (sym two_names ∙ ap (split b'/') e))

  base_names : base_parts (join_slash (a ∷ b ∷ [])) ≡ a ∷ b ∷ []
  unfolding base_parts
  base_names = rw (eq_false (join_slash (a ∷ b ∷ [])) "." not_dot) two_names

  dir-names : (k : String) → IsName k → dir (join (a ∷ b ∷ k ∷ [])) ≡ join_slash (a ∷ b ∷ [])
  unfolding dir front
  dir-names k name_k =
      rw
        (
          join-names a (b ∷ k ∷ []) name_a (name_b, (name_k, tt)),
          split-join_slash a (b ∷ k ∷ []) name_a.no_slash (name_b.no_slash, (name_k.no_slash, tt)),
        )
        clean_front

  inside :
      (n f : String) → relative (a ∷ b ∷ []) (a ∷ b ∷ n ∷ f ∷ []) ≡ some (join_slash (n ∷ f ∷ []))
  unfolding relative down
  inside n f = rw (eq_refl a, eq_refl b) refl

  -- From the directory of a file in it, a file one directory below is reached by its last two names.
  pub rel-names :
      (k n f : String)
      → IsName k
      → IsName n
      → IsName f
      → rel (dir (join (a ∷ b ∷ k ∷ []))) (join (a ∷ b ∷ n ∷ f ∷ []))
        ≡ some (join_slash (n ∷ f ∷ []))
  unfolding is_abs same_root
  rel-names k n f name_k name_n name_f =
      rw
        (
          rel_lem,
          dir-names k name_k,
          join-names a (b ∷ n ∷ f ∷ []) name_a (name_b, (name_n, (name_f, tt))),
          joined_name a (b ∷ []) name_a,
          joined_name a (b ∷ n ∷ f ∷ []) name_a,
          clean-join_slash a (b ∷ []) name_a (name_b, tt),
          clean-join_slash a (b ∷ n ∷ f ∷ []) name_a (name_b, (name_n, (name_f, tt))),
          base_names,
          split-join_slash a (b ∷ n ∷ f ∷ []) name_a.no_slash
              (name_b.no_slash, (name_n.no_slash, (name_f.no_slash, tt))),
        )
        (inside n f)
