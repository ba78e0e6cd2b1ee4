-- ===== src/Modules/Namespaced/Segments.antt =====
-- The matcher of namespaced text against the segments between its dots.
use testing_platform_backend.Modules.Namespaced.{full_match, is_word, segment_rest, segment_start}
use testing_platform_backend.Prelude.{
  Bool, Bool-cases, List, [], all, arith, false, inl, inr, leb, length, refl, subst, true, ℕ, ◌&&◌,
  ◌==◌, ◌||◌, ◌∷◌, ◌≡◌,
}
use testing_platform_backend.Text.{split}

abbrev is_segment : List ℕ → Bool
is_segment [] = false
is_segment (c ∷ s) = is_word c && all is_word s

-- at least two segments, or one behind a dot, and every one a word
abbrev pub are_segments : Bool → List (List ℕ) → Bool
are_segments dotted parts = all is_segment parts && (dotted || leb 2 (length parts))

-- the same from inside the first segment, of which the rest may be empty
abbrev ends_segments : Bool → List (List ℕ) → Bool
ends_segments dotted [] = false
ends_segments dotted (p ∷ ps) = all is_word p && all is_segment ps && (dotted || leb 1 (length ps))

split-cons : (s : List ℕ) → (p : List ℕ) × (ps : List (List ℕ)) × (split 46 s ≡ p ∷ ps)
unfolding split
split-cons [] = ([], [], refl)
split-cons (c ∷ s) =
    let (p, ps, e) = split-cons s in
    elim (Bool-cases (c == 46)) [
      | inl y ↦ ([], p ∷ ps, rw (e, y) refl)
      | inr n ↦ (c ∷ p, ps, rw (e, n) refl)
    ]

Matched : List ℕ → List (List ℕ) → Type 0
Matched s parts =
    ((dotted : Bool) → segment_start dotted s ≡ are_segments dotted parts)
    × ((dotted : Bool) → segment_rest dotted s ≡ ends_segments dotted parts)

Matched-[] : Matched [] ([] ∷ [])
unfolding Matched segment_start
Matched-[] = (λ dotted. refl, λ dotted. ground arith)

dot_starts : (c : ℕ) (next : Bool) → (c == 46) ≡ true → is_word c && next ≡ false
dot_starts c next y = grind arith

dot_step :
    (c : ℕ) (s p : List ℕ) (ps : List (List ℕ))
    → (c == 46) ≡ true
    → Matched s (p ∷ ps)
    → Matched (c ∷ s) ([] ∷ p ∷ ps)
unfolding Matched segment_start
dot_step c s p ps y (starts, rests) =
    (λ dotted. dot_starts c (segment_rest dotted s) y, λ dotted. rw (y, starts true) ground arith)

word_step :
    (c : ℕ) (s p : List ℕ) (ps : List (List ℕ))
    → (c == 46) ≡ false
    → Matched s (p ∷ ps)
    → Matched (c ∷ s) ((c ∷ p) ∷ ps)
unfolding Matched segment_start
word_step c s p ps n (starts, rests) =
    (λ dotted. rw (rests dotted) ground arith, λ dotted. rw (n, rests dotted) ground arith)

Matched-split : (s : List ℕ) → Matched s (split 46 s)
unfolding split
Matched-split [] = Matched-[]
Matched-split (c ∷ s) =
    let (p, ps, e) = split-cons s in
    let tail : Matched s (p ∷ ps) = subst (Matched s) e (Matched-split s) in
    elim (Bool-cases (c == 46)) [
      | inl y ↦ rw (e, y) (dot_step c s p ps y tail)
      | inr n ↦ rw (e, n) (word_step c s p ps n tail)
    ]

-- A text matches the expression exactly when its parts between dots are at least two and each is a
-- non-empty run of lower-case letters, digits and underscores.
pub full_match-split : (s : List ℕ) → full_match s ≡ are_segments false (split 46 s)
unfolding full_match Matched
full_match-split s = (Matched-split s).0 false
