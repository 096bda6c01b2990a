-- ===== src/Tests/Impact.antt =====
-- A diff of a Python file, a comment and a file of an unknown type, and the theorems on
-- classifications applied to it.
use nokinc_factory.Prelude.{
  ◌≡◌, refl, true, false, ◌||◌, [], ◌∷◌, ◌==◌, list_eq, nat_eq, codes, contains, is_blank, is_space,
  starts_with, ℕ_discrete,
}
use nokinc_factory.Impact.Classes.{
  ImpactClass, ImpactClass-discrete, class_eq, Evidence, evidence_eq,
}
use nokinc_factory.Impact.Changes.{
  FileChange, Matching, suffix, after_dot, ends_with, has_part, lstrip, split_lines, stripped,
  lines_of, line_comments, only_comments, is_cosmetic,
}
use nokinc_factory.Impact.Classify.{
  SecuritySensitiveRegistry, requires_human, class_of_pattern, join_lines, path_is_sensitive,
  pattern_classes, file_classes, change_classes, all_classes, without_cosmetic, classify,
}
use nokinc_factory.Impact.Union.{classify-append, classify-unclassifiable}

-- A search that finds nothing but the expression itself.
abbrev matching : Matching
matching = record {
  search = λ expression text. expression == text;
  fnmatch = λ path pattern. false;
  is_directive = λ suffix line. false;
}

abbrev registry : SecuritySensitiveRegistry
registry = record {
  paths = codes "**/auth/**" ∷ [];
  patterns = (codes "authorization_predicate", codes "role") ∷ [];
  known_extensions = codes ".py" ∷ [];
}

abbrev guarded : FileChange
guarded = record { path = codes "a.py"; added_lines = []; removed_lines = codes "role" ∷ [] }

abbrev commented : FileChange
commented = record { path = codes "b.py"; added_lines = codes "+ # why" ∷ []; removed_lines = [] }

abbrev unknown : FileChange
unknown = record { path = codes "c.exe"; added_lines = []; removed_lines = [] }

comment_only : is_cosmetic matching commented ≡ true
unfolding suffix after_dot line_comments lines_of split_lines stripped lstrip is_blank is_space
    only_comments is_cosmetic starts_with has_part ℕ_discrete
comment_only = refl

guarded_class :
    (classify matching registry (guarded ∷ commented ∷ []) false false).classes
    ≡ ImpactClass.authz_changed ∷ []
unfolding suffix after_dot ends_with line_comments lines_of split_lines stripped lstrip is_blank
    is_space only_comments is_cosmetic starts_with has_part class_of_pattern join_lines
    path_is_sensitive pattern_classes file_classes change_classes all_classes without_cosmetic
    classify ImpactClass-discrete ℕ_discrete
guarded_class = refl

classify-append_example :
    contains
      (classify matching registry (guarded ∷ commented ∷ []) false true).invalidated
      Evidence.security_review
    ≡ (contains
          (classify matching registry (guarded ∷ []) false true).invalidated
          Evidence.security_review
        || contains
            (classify matching registry (commented ∷ []) false true).invalidated
            Evidence.security_review)
classify-append_example =
    classify-append matching registry (guarded ∷ []) (commented ∷ []) false true
      Evidence.security_review refl refl

classify-unclassifiable_example :
    (requires_human (classify matching registry (guarded ∷ unknown ∷ []) false false) ≡ true)
    × (contains
          (classify matching registry (guarded ∷ unknown ∷ []) false false).invalidated
          Evidence.sbom
        ≡ true)
unfolding suffix after_dot ℕ_discrete
classify-unclassifiable_example =
    classify-unclassifiable matching registry (guarded ∷ unknown ∷ []) false false Evidence.sbom
      refl
