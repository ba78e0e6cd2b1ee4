-- ===== src/Modules/Vocabulary/Folding.antt =====
-- A vocabulary means what its declaration says, in whatever case and spacing.
use testing_platform_backend.Core.Enums.{FindingSeverity}
use testing_platform_backend.Modules.Findings.{Text}
use testing_platform_backend.Modules.Vocabulary.{
  EngineVocabulary, SeverityTable, VocabularyError, canonical, declared_twice, empty_table,
  empty_value, engine_vocabulary, fold_table, is_empty_text, lookup, map_severity,
  unnamed_vocabulary,
}
use testing_platform_backend.Prelude.{
  Bool-cases, Option, Option-cases, Result, Result-cases, Some, [], ap, err, false≢true,
  if◌then◌else◌, inl, inr, none, ok, ok-injective, refl, some, some-equal, sym, ◌++◌, ◌↔◌, ◌∙◌, ◌∷◌,
  ◌≡◌, ◌⊎◌,
}
use testing_platform_backend.Text.{strip, text_eq}
use testing_platform_backend.Text.Laws.{text_eq_iff}

-- The entry declares that severity for the values that fold to `key`.
abbrev pub Declares : Text → FindingSeverity → Text × FindingSeverity → Type 0
Declares key severity (value, s) = (canonical value ≡ key) × (s ≡ severity)

-- The keys of the canonical table, each once.
lookup-append :
    (key k : Text) (s : FindingSeverity) (table : SeverityTable)
    → lookup key (table ++ ((k, s) ∷ []))
      ≡ elim (lookup key table) [ some t ↦ some t | none ↦ if text_eq k key then some s else none ]
unfolding lookup
lookup-append key k s [] = refl
lookup-append key k s ((v, t) ∷ table) = elim (Bool-cases (text_eq v key)) [
  | inl y ↦ rw y refl
  | inr n ↦ rw n (lookup-append key k s table)
]

fold_table-cons :
    (value : Text) (s : FindingSeverity) (entries folded out : SeverityTable)
    → fold_table ((value, s) ∷ entries) folded ≡ ok out
    → (lookup (canonical value) folded ≡ none)
      × (fold_table entries (folded ++ ((canonical value, s) ∷ [])) ≡ ok out)
unfolding fold_table
fold_table-cons value s entries folded out h = elim (Bool-cases (is_empty_text (canonical value))) [
  | inl y ↦
      let clash : ◌≡◌ {A = Result VocabularyError SeverityTable} (err empty_value) (ok out) =
        rw (fold_table, y) at h in
      cc
  | inr n ↦ elim (Option-cases (lookup (canonical value) folded)) [
    | inl m ↦ (m, rw (fold_table, n, m) at h)
    | inr (t, e) ↦
        let clash : ◌≡◌ {A = Result VocabularyError SeverityTable} (err declared_twice) (ok out) =
          rw (fold_table, n, e) at h in
        cc
  ]
]

-- The table with one entry more.
lookup-more :
    (value key : Text) (s severity : FindingSeverity) (folded : SeverityTable)
    → lookup (canonical value) folded ≡ none
    → (lookup key (folded ++ ((canonical value, s) ∷ [])) ≡ some severity)
      ↔ ((lookup key folded ≡ some severity) ⊎ Declares key severity (value, s))
lookup-more value key s severity folded missing_yet = elim (Option-cases (lookup key folded)) [
  | inr (t, e) ↦
      rw (lookup-append key (canonical value) s folded, e)
        (
          λ h. inl h,
          λ h. elim h [
            | inl g ↦ g
            | inr (k, q) ↦
                let clash : ◌≡◌ {A = Option FindingSeverity} none (some t) =
                  sym missing_yet ∙ ap (λ w. lookup w folded) k ∙ e in
                cc
          ],
        )
  | inl n ↦ elim (Bool-cases (text_eq (canonical value) key)) [
    | inl y ↦
        rw (lookup-append key (canonical value) s folded, n, y)
          (
            λ h. inr ((text_eq_iff (canonical value) key).0 y, some-equal s severity h),
            λ h. elim h [ inl g ↦ cc | inr (k, q) ↦ ap some q ],
          )
    | inr x ↦
        rw (lookup-append key (canonical value) s folded, n, x)
          (
            λ h. cc,
            λ h. elim h [
              | inl g ↦ g
              | inr (k, q) ↦ absurd (false≢true (sym x ∙ (text_eq_iff (canonical value) key).1 k))
            ],
          )
  ]
]

-- What the loop folds: the table so far, and the entries still to read.
fold_table-lookup :
    (entries folded out : SeverityTable) (key : Text) (severity : FindingSeverity)
    → fold_table entries folded ≡ ok out
    → (lookup key out ≡ some severity)
      ↔ ((lookup key folded ≡ some severity) ⊎ Some (Declares key severity) entries)
unfolding fold_table
fold_table-lookup [] folded out key severity h =
    let same : folded ≡ out = ok-injective h in
    (λ e. inl (rw same e), λ e. elim e [ inl f ↦ rw (← same) f | inr f ↦ absurd f ])
fold_table-lookup ((value, s) ∷ entries) folded out key severity h =
    let (missing_yet, rest) = fold_table-cons value s entries folded out h in
    let ih =
      fold_table-lookup entries (folded ++ ((canonical value, s) ∷ [])) out key severity rest in
    let more = lookup-more value key s severity folded missing_yet in
    (
      λ e. elim (ih.0 e) [
        | inl f ↦ elim (more.0 f) [ inl g ↦ inl g | inr d ↦ inr (inl d) ]
        | inr r ↦ inr (inr r)
      ],
      λ e. elim e [
        | inl g ↦ ih.1 (inl (more.1 (inl g)))
        | inr d ↦ elim d [ inl w ↦ ih.1 (inl (more.1 (inr w))) | inr r ↦ ih.1 (inr r) ]
      ],
    )

folded_table :
    (name : Text) (table : SeverityTable) (v : EngineVocabulary)
    → engine_vocabulary name table ≡ ok v
    → fold_table table [] ≡ ok v.table
unfolding engine_vocabulary
folded_table name [] v h = elim (Bool-cases (is_empty_text (strip name))) [
  | inl y ↦
      let clash : ◌≡◌ {A = Result VocabularyError EngineVocabulary} (err unnamed_vocabulary)
          (ok v) =
        rw (engine_vocabulary, y) at h in
      cc
  | inr n ↦
      let clash : ◌≡◌ {A = Result VocabularyError EngineVocabulary} (err empty_table) (ok v) =
        rw (engine_vocabulary, n) at h in
      cc
]
folded_table name (e ∷ es) v h = elim (Bool-cases (is_empty_text (strip name))) [
  | inl y ↦
      let clash : ◌≡◌ {A = Result VocabularyError EngineVocabulary} (err unnamed_vocabulary)
          (ok v) =
        rw (engine_vocabulary, y) at h in
      cc
  | inr n ↦ elim (Result-cases (fold_table (e ∷ es) [])) [
    | inl (x, f) ↦
        let clash : ◌≡◌ {A = Result VocabularyError EngineVocabulary} (err x) (ok v) =
          rw (engine_vocabulary, n, f) at h in
        cc
    | inr (t, f) ↦
        let same : ◌≡◌ {A = Result VocabularyError EngineVocabulary}
            (ok (record { name = name; table = t })) (ok v) =
          rw (engine_vocabulary, n, f) at h in
        f ∙ ap (λ (w : EngineVocabulary). ok w.table) (ok-injective same)
  ]
]

map_severity-lookup :
    (v : EngineVocabulary) (value : Text) (severity : FindingSeverity)
    → (map_severity v value ≡ ok severity) ↔ (lookup (canonical value) v.table ≡ some severity)
unfolding map_severity
map_severity-lookup v value severity = elim (Option-cases (lookup (canonical value) v.table)) [
  | inl n ↦ rw (map_severity, n) (λ h. cc, λ h. cc)
  | inr (t, e) ↦ rw (map_severity, e) (λ h. cc, λ h. cc)
]

-- In a vocabulary that is constructed, a value maps to a severity just when the declaration gives
-- that severity to some value that differs from it in case and surrounding white space at most.
pub map_severity_iff :
    (name : Text) (table : SeverityTable) (v : EngineVocabulary) (value : Text)
    (severity : FindingSeverity)
    → engine_vocabulary name table ≡ ok v
    → (map_severity v value ≡ ok severity) ↔ Some (Declares (canonical value) severity) table
unfolding engine_vocabulary map_severity
map_severity_iff name table v value severity h =
    let found = map_severity-lookup v value severity in
    let folds =
      fold_table-lookup table [] v.table (canonical value) severity (folded_table name table v h) in
    (λ m. elim (folds.0 (found.0 m)) [ inl n ↦ cc | inr d ↦ d ], λ d. found.1 (folds.1 (inr d)))
