-- ===== src/Impact/Changes.antt =====
-- One file of a diff, and whether only its comments changed, policy/impact.py. Regular expressions
-- and shell patterns are parameters.
use nokinc_factory.Prelude.{
  ℕ, Bool, false, not, ◌&&◌, ◌||◌, List, [], ◌∷◌, ◌++◌, Option, none, some, any, all, keep,
  contains, nonempty, leb, ◌==◌, nat_eq, list_eq, if◌then◌else◌, Text, codes, is_blank, starts_with,
}

pub record FileChange : Type 0 where
  pub path : Text
  pub added_lines : List Text
  pub removed_lines : List Text

-- `re.search` of a pattern without case, `fnmatch.fnmatch`, and whether a line starts with what
-- `_COMMENT_DIRECTIVES` has for a suffix.
pub record Matching : Type 0 where
  pub search : Text → Text → Bool
  pub fnmatch : Text → Text → Bool
  pub is_directive : Text → Text → Bool

-- What stands after the last dot.
unfoldable pub after_dot : Text → Option Text
after_dot [] = none
after_dot (c ∷ cs) = elim (after_dot cs) [
  | none ↦ if c == 46 then some cs else none
  | some t ↦ some t
]

abbrev pub dotted : Option Text → Text
dotted none = []
dotted (some t) = 46 ∷ t

unfoldable pub suffix : Text → Text
unfolding after_dot
suffix path = dotted (after_dot path)

-- `text.endswith(end)`.
unfoldable pub ends_with : Text → Text → Bool
ends_with [] end = not (nonempty end)
ends_with (c ∷ cs) end = (c ∷ cs) == end || ends_with cs end

-- `part in text`.
unfoldable pub has_part : Text → Text → Bool
unfolding starts_with
has_part [] part = not (nonempty part)
has_part (c ∷ cs) part = starts_with (c ∷ cs) part || has_part cs part

-- `text.lstrip(...)`, of the characters that a test names.
unfoldable pub lstrip : (ℕ → Bool) → Text → Text
lstrip p [] = []
lstrip p (c ∷ cs) = let rest = lstrip p cs in if p c then rest else c ∷ cs

abbrev pub is_dot_or_slash : ℕ → Bool
is_dot_or_slash c = c == 46 || c == 47

abbrev pub is_blank_or_tab : ℕ → Bool
is_blank_or_tab c = c == 32 || c == 9

-- The line boundaries of `splitlines`.
abbrev pub is_boundary : ℕ → Bool
is_boundary c = leb 10 c && leb c 13 || leb 28 c && leb c 30 || c == 133 || c == 8232 || c == 8233

abbrev pub onto_first : ℕ → List Text → List Text
onto_first c [] = (c ∷ []) ∷ []
onto_first c (l ∷ ls) = (c ∷ l) ∷ ls

-- `entry.splitlines()`; a line feed that follows a carriage return ends no line.
unfoldable pub split_lines : Bool → Text → List Text
split_lines returned [] = []
split_lines returned (c ∷ cs) =
    let plain = split_lines false cs in
    let next = split_lines (c == 13) cs in
    if returned && c == 10 then plain else if is_boundary c then [] ∷ next else onto_first c plain

-- `line.removeprefix(marker)`, of one character.
abbrev pub remove_marker : ℕ → Text → Text
remove_marker marker [] = []
remove_marker marker (c ∷ cs) = if c == marker then cs else c ∷ cs

unfoldable pub stripped : ℕ → List Text → List Text
unfolding lstrip
stripped marker [] = []
stripped marker (l ∷ ls) = lstrip is_blank_or_tab (remove_marker marker l) ∷ stripped marker ls

unfoldable pub lines_of : ℕ → List Text → List Text
unfolding split_lines stripped
lines_of marker [] = []
lines_of marker (entry ∷ entries) =
    stripped marker (split_lines false entry) ++ lines_of marker entries

-- `_LINE_COMMENTS`.
unfoldable pub line_comments : Text → List Text
line_comments s =
    if contains (codes ".py" ∷ codes ".rb" ∷ codes ".yaml" ∷ codes ".yml" ∷ codes ".toml" ∷ []) s
    then codes "#" ∷ []
    else if contains
        (codes ".ts"
          ∷ codes ".tsx"
          ∷ codes ".js"
          ∷ codes ".jsx"
          ∷ codes ".java"
          ∷ codes ".go"
          ∷ codes ".cs"
          ∷ [])
        s
    then codes "//" ∷ []
    else if s == codes ".tf"
    then codes "#" ∷ codes "//" ∷ []
    else []

module _ (m : Matching) where
  -- Whether the lines that are not blank are all comments, and none a directive.
  unfoldable pub only_comments : Text → List Text → List Text → Bool
  unfolding starts_with has_part
  only_comments s prefixes nonblank =
      not (any (m.is_directive s) nonblank)
      && not (s == codes ".java" && any (λ line. has_part line (codes "\\u")) nonblank)
      && nonempty nonblank
      && all (λ line. any (starts_with line) prefixes) nonblank

  unfoldable pub is_cosmetic : FileChange → Bool
  unfolding suffix line_comments lines_of is_blank only_comments
  is_cosmetic change =
      nonempty (line_comments (suffix change.path))
      && only_comments (suffix change.path) (line_comments (suffix change.path)) (
          keep (λ line. not (is_blank line))
            (lines_of 43 change.added_lines ++ lines_of 45 change.removed_lines))
