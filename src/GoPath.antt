-- ===== src/GoPath.antt =====
-- The operations of Go's `path/filepath` package that the operator uses, on a system with slashes.
pub mod Laws
pub mod Relative
use permission_binder_operat.Prelude.{
  String, Bool, true, false, ◌||◌, Option, none, some, List, [], ◌∷◌, ◌++◌, map, if◌then◌else◌,
  ◌==◌,
}
use permission_binder_operat.GoString.{◌<>◌, cut_prefix, has_prefix, split}

-- The elements with a slash between them: strings.Join(elements, "/").
unfoldable pub join_slash : List String → String
join_slash [] = ""
join_slash (last ∷ []) = last
join_slash (part ∷ next ∷ rest) = part <> "/" <> join_slash (next ∷ rest)

-- What `..` does to the elements in front of it, the nearest first.
up : Bool → List String → List String
up rooted [] = if rooted then [] else ".." ∷ []
up rooted (top ∷ below) = if top == ".." then ".." ∷ top ∷ below else below

-- The elements that are kept, the last first.
clean_parts : Bool → List String → List String → List String
clean_parts rooted kept [] = kept
clean_parts rooted kept (part ∷ rest) =
    clean_parts rooted
      (if part == "" || part == "."
        then kept
        else if part == ".."
        then up rooted kept
        else part ∷ kept)
      rest

unfoldable pub backwards : List String → List String → List String
backwards done [] = done
backwards done (x ∷ xs) = backwards (x ∷ done) xs

-- filepath.Clean(path)
unfoldable pub clean : String → String
unfolding clean_parts up join_slash backwards split has_prefix cut_prefix
clean path =
    let rooted = has_prefix path "/" in
    let body = join_slash (backwards [] (clean_parts rooted [] (split b'/' path))) in
    if rooted then "/" <> body else if body == "" then "." else body

-- filepath.Join(elements...)
unfoldable pub join : List String → String
unfolding clean join_slash
join [] = ""
join (part ∷ rest) = if part == "" then join rest else clean (join_slash (part ∷ rest))

-- The text up to the last slash, which is kept.
front : List String → String
front [] = ""
front (last ∷ []) = ""
front (part ∷ next ∷ rest) = part <> "/" <> front (next ∷ rest)

-- filepath.Dir(path)
unfoldable pub dir : String → String
unfolding clean front split
dir path = clean (front (split b'/' path))

-- filepath.IsAbs(path)
unfoldable pub is_abs : String → Bool
unfolding has_prefix cut_prefix
is_abs path = has_prefix path "/"

-- The elements of a base directory; `.` has none.
base_parts : String → List String
base_parts base = if base == "." then [] else split b'/' base

-- The way up out of what is left of the base, and down to the target.
down : List String → List String → Option String
down [] [] = some "."
down [] (part ∷ rest) = some (join_slash (part ∷ rest))
down (next ∷ others) target =
    if next == ".." then none else some (join_slash (map (λ p. "..") (next ∷ others) ++ target))

-- Both paths without the elements that they begin with.
relative : List String → List String → Option String
relative [] target = down [] target
relative (next ∷ others) [] = down (next ∷ others) []
relative (next ∷ others) (part ∷ rest) =
    let inside = relative others rest in
    if next == part then inside else down (next ∷ others) (part ∷ rest)

same_root : Bool → Bool → Bool
same_root true b = b
same_root false true = false
same_root false false = true

-- filepath.Rel(base, target), without an answer where it returns an error.
unfoldable pub rel : String → String → Option String
unfolding clean is_abs relative down base_parts same_root split join_slash
rel base target =
    if same_root (is_abs base) (is_abs target)
    then relative (base_parts (clean base)) (split b'/' (clean target))
    else none
