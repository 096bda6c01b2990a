-- ===== src/Impact/Classify.antt =====
-- The registry and the classification of policy/impact.py; the rationale's texts are left out.
use nokinc_factory.Prelude.{
  Bool, true, false, not, ◌&&◌, ◌||◌, List, [], ◌∷◌, ◌++◌, any, keep, contains, ◌==◌, nat_eq,
  list_eq, if◌then◌else◌, Text, codes, starts_with,
}
use nokinc_factory.Impact.Classes.{ImpactClass, class_eq, Evidence, invalidates}
use nokinc_factory.Impact.Changes.{
  FileChange, Matching, suffix, ends_with, has_part, lstrip, is_dot_or_slash, is_cosmetic,
}

-- `patterns` is the dict of a registry, by the names and the expressions.
pub record SecuritySensitiveRegistry : Type 0 where
  pub paths : List Text
  pub patterns : List (Text × Text)
  pub known_extensions : List Text

pub record ImpactResult : Type 0 where
  pub classes : List ImpactClass
  pub invalidated : List Evidence

abbrev pub requires_human : ImpactResult → Bool
requires_human r = contains r.classes ImpactClass.unclassifiable

-- `pattern[3:]`.
abbrev pub drop_three : Text → Text
drop_three (a ∷ b ∷ c ∷ rest) = rest
drop_three (a ∷ b ∷ []) = []
drop_three (a ∷ []) = []
drop_three [] = []

-- `_PATTERN_TO_CLASS`, with the class of any other name.
unfoldable pub class_of_pattern : Text → ImpactClass
class_of_pattern name =
    if name == codes "authorization_predicate"
    then ImpactClass.authz_changed
    else if name == codes "sql_construction" || name == codes "transaction_boundary"
    then ImpactClass.persistence_semantics
    else if name == codes "outbound_network"
    then ImpactClass.new_egress_or_store
    else if name == codes "pii_dataflow"
    then ImpactClass.pii_dataflow_changed
    else ImpactClass.security_sensitive

-- `"\n".join(lines)`.
unfoldable pub join_lines : List Text → Text
join_lines [] = []
join_lines (l ∷ []) = l
join_lines (l ∷ k ∷ ls) = l ++ 10 ∷ join_lines (k ∷ ls)

abbrev pub diff_text : FileChange → Text
diff_text change = join_lines (change.added_lines ++ change.removed_lines)

abbrev pub when : Bool → ImpactClass → List ImpactClass
when true c = c ∷ []
when false c = []

-- A file without a signal is ordinary.
abbrev pub or_ordinary : List ImpactClass → List ImpactClass
or_ordinary [] = ImpactClass.ordinary_implementation ∷ []
or_ordinary (c ∷ cs) = c ∷ cs

module _ (m : Matching) (registry : SecuritySensitiveRegistry) where
  unfoldable pub path_is_sensitive : Text → Bool
  unfolding lstrip starts_with
  path_is_sensitive path =
      any
        (λ pattern.
          m.fnmatch (lstrip is_dot_or_slash path) pattern
          || starts_with pattern (codes "**/")
            && m.fnmatch (lstrip is_dot_or_slash path) (drop_three pattern))
        registry.paths

  -- The classes of the patterns that match.
  unfoldable pub pattern_classes : Text → List (Text × Text) → List ImpactClass
  unfolding class_of_pattern
  pattern_classes text [] = []
  pattern_classes text ((name, expression) ∷ rest) =
      when (m.search expression text) (class_of_pattern name) ++ pattern_classes text rest

  unfoldable pub file_classes : FileChange → List ImpactClass
  unfolding path_is_sensitive pattern_classes join_lines ends_with has_part lstrip
  file_classes change = or_ordinary (
      when (path_is_sensitive change.path) ImpactClass.security_sensitive
      ++ pattern_classes (diff_text change) registry.patterns
      ++ when (ends_with change.path (codes ".tf")) ImpactClass.iac_changed
      ++ when
          (has_part (47 ∷ lstrip is_dot_or_slash change.path) (codes "/migrations/")
            || ends_with change.path (codes ".sql"))
          ImpactClass.db_migration)

  unfoldable pub change_classes : FileChange → List ImpactClass
  unfolding suffix file_classes is_cosmetic
  change_classes change =
      if not (contains registry.known_extensions (suffix change.path))
      then ImpactClass.unclassifiable ∷ []
      else if is_cosmetic m change
      then ImpactClass.cosmetic ∷ []
      else file_classes change

  unfoldable pub all_classes : List FileChange → List ImpactClass
  unfolding change_classes
  all_classes [] = []
  all_classes (c ∷ cs) = change_classes c ++ all_classes cs

-- `classes.discard(COSMETIC)`, if another class is there.
unfoldable pub without_cosmetic : List ImpactClass → List ImpactClass
without_cosmetic classes =
    if any (λ c. not (c == ImpactClass.cosmetic)) classes
    then keep (λ c. not (c == ImpactClass.cosmetic)) classes
    else classes

unfoldable pub invalidated_by : List ImpactClass → List Evidence
unfolding invalidates
invalidated_by [] = []
invalidated_by (c ∷ cs) = invalidates c ++ invalidated_by cs

abbrev pub result_of : List ImpactClass → ImpactResult
result_of classes = record { classes = classes; invalidated = invalidated_by classes }

unfoldable pub classify :
    Matching → SecuritySensitiveRegistry → List FileChange → Bool → Bool → ImpactResult
unfolding all_classes without_cosmetic invalidated_by
classify m registry changes surface_changed new_dependencies = result_of (
    without_cosmetic (
      or_ordinary (
        when surface_changed ImpactClass.interface_surface
        ++ when new_dependencies ImpactClass.new_dependency
        ++ all_classes m registry changes)))
