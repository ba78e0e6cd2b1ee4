-- ===== src/Modules/Vocabulary/Grades.antt =====
-- An engine's letter grade is parsed to the grade of that letter, and to nothing else.
use testing_platform_backend.Core.Enums.{
  ScanGrade, grade_a, grade_a_plus, grade_b, grade_c, grade_d, grade_f,
}
use testing_platform_backend.Modules.Findings.{Text}
use testing_platform_backend.Modules.Vocabulary.{
  VocabularyError, all_grades, grade_from, grade_value, map_engine_grade, unmapped_value, upper,
}
use testing_platform_backend.Prelude.{
  Bool-cases, List, Option, Option-cases, Result, [], ap, err, inl, inr, none, ok, ok-injective,
  refl, some, some-equal, sym, ◌↔◌, ◌∙◌, ◌∷◌, ◌≡◌,
}
use testing_platform_backend.Text.{strip, text_eq}
use testing_platform_backend.Text.Laws.{text_eq_iff}

grade_from-value :
    (value : Text) (gs : List ScanGrade) (g : ScanGrade)
    → grade_from value gs ≡ some g
    → grade_value g ≡ value
grade_from-value value [] g h = cc
grade_from-value value (x ∷ gs) g h = elim (Bool-cases (text_eq (grade_value x) value)) [
  | inl y ↦
      let e : ◌≡◌ {A = Option ScanGrade} (some x) (some g) = rw y at h in
      ap grade_value (sym (some-equal x g e)) ∙ (text_eq_iff (grade_value x) value).0 y
  | inr n ↦ grade_from-value value gs g (rw n at h)
]

grade_from_own : (g : ScanGrade) → grade_from (grade_value g) all_grades ≡ some g
unfolding text_eq
grade_from_own grade_a_plus = refl
grade_from_own grade_a = refl
grade_from_own grade_b = refl
grade_from_own grade_c = refl
grade_from_own grade_d = refl
grade_from_own grade_f = refl

-- A text is parsed to a grade just when it is the letter of that grade, in whatever case and with
-- whatever white space around it.
pub map_engine_grade_iff :
    (engine_grade : Text) (g : ScanGrade)
    → (map_engine_grade engine_grade ≡ ok g) ↔ (upper (strip engine_grade) ≡ grade_value g)
unfolding map_engine_grade
map_engine_grade_iff engine_grade g =
    elim (Option-cases (grade_from (upper (strip engine_grade)) all_grades)) [
      | inl n ↦ (
        λ h.
            let clash : ◌≡◌ {A = Result VocabularyError ScanGrade}
                (err (unmapped_value engine_grade)) (ok g) =
              rw (map_engine_grade, n) at h in
            cc,
        λ e.
            let clash : ◌≡◌ {A = Option ScanGrade} none (some g) =
              sym n ∙ ap (λ t. grade_from t all_grades) e ∙ grade_from_own g in
            cc,
      )
      | inr (x, f) ↦ (
        λ h.
            let same : ◌≡◌ {A = Result VocabularyError ScanGrade} (ok x) (ok g) =
              rw (map_engine_grade, f) at h in
            sym (grade_from-value (upper (strip engine_grade)) all_grades x f)
            ∙ ap grade_value (ok-injective same),
        λ e. rw (map_engine_grade, ap (λ t. grade_from t all_grades) e, grade_from_own g) refl,
      )
    ]
