-- ===== src/Assets/Names/Coverage.antt =====
-- What a proof covers, on labels: the name itself, or the name and all that is beneath it.
use mathlib.Core.List.{append_assoc}
use testing_platform_backend.Assets.Names.{
  covers, drop, labels, labels_cover, same_labels, take_last,
}
use testing_platform_backend.Core.Enums.{VerificationScope, exact, zone}
use testing_platform_backend.Prelude.{
  List, List-cases, [], ap, arith, false≢true, inl, inr, length, length-append, refl, suc, sym,
  true, zero, ℕ, ◌++◌, ◌-◌, ◌↔◌, ◌∙◌, ◌∷◌, ◌≡◌, ◌≢◌,
}
use testing_platform_backend.Text.Laws.{text_eq_iff}

same_labels_iff : (ps qs : List (List ℕ)) → (same_labels ps qs ≡ true) ↔ (ps ≡ qs)
unfolding same_labels
same_labels_iff [] [] = (λ h. refl, λ h. refl)
same_labels_iff [] (q ∷ qs) = (λ h. cc, λ h. cc)
same_labels_iff (p ∷ ps) [] = (λ h. cc, λ h. cc)
same_labels_iff (p ∷ ps) (q ∷ qs) = (
  λ h. ground (arith, same_labels_iff ps qs, text_eq_iff p q),
  λ h. ground (arith, same_labels_iff ps qs, text_eq_iff p q),
)

drop-append : (front back : List (List ℕ)) → drop (length front) (front ++ back) ≡ back
unfolding drop
drop-append [] back = refl
drop-append (p ∷ front) back = drop-append front back

drop-split : (n : ℕ) (ps : List (List ℕ)) → (front : List (List ℕ)) × (ps ≡ front ++ drop n ps)
unfolding drop
drop-split zero ps = ([], refl)
drop-split (suc n) [] = ([], refl)
drop-split (suc n) (p ∷ ps) = let (front, e) = drop-split n ps in (p ∷ front, ap (λ q. p ∷ q) e)

-- `zone` on labels is the relation "ends with"
labels_cover-zone :
    (proof target : List (List ℕ))
    → (labels_cover zone proof target ≡ true)
      ↔ ((front : List (List ℕ)) × (target ≡ front ++ proof))
unfolding labels_cover take_last
labels_cover-zone proof target = (
  (λ h.
      let (front, e) = drop-split (length target - length proof) target in
      let k = (same_labels_iff (drop (length target - length proof) target) proof).0 h in
      (front, e ∙ ap (λ q. front ++ q) k)),
  (λ (front, e).
      let n : length target - length proof ≡ length front =
        rw e (omega (arith, length-append front proof)) in
      (same_labels_iff (drop (length target - length proof) target) proof).1
        (rw n (rw e (drop-append front proof)))),
)

-- the label list of a covered name against that of the proof
abbrev pub Within : VerificationScope → List (List ℕ) → List (List ℕ) → Type 0
Within exact proof target = target ≡ proof
Within zone proof target = (front : List (List ℕ)) × (target ≡ front ++ proof)

labels_cover-Within :
    (s : VerificationScope) (proof target : List (List ℕ))
    → (labels_cover s proof target ≡ true) ↔ Within s proof target
unfolding labels_cover
labels_cover-Within exact proof target =
    (λ h. sym ((same_labels_iff proof target).0 h), λ e. (same_labels_iff proof target).1 (sym e))
labels_cover-Within zone proof target = labels_cover-zone proof target

-- A proof covers a name just when both are usable names and, label by label from the right, the
-- name is the proven name, or with the scope of the zone ends with it.
covers-Within :
    (v : List ℕ) (s : VerificationScope) (t : List ℕ)
    → (covers v s t ≡ true) ↔ ((labels v ≢ []) × (labels t ≢ []) × Within s (labels v) (labels t))
unfolding covers
covers-Within v s t = elim (List-cases (labels v)) [
  | inl e ↦ (λ h. absurd (false≢true (rw (covers, e) at h)), λ k. absurd (k.0 e))
  | inr (p, ps, e) ↦ elim (List-cases (labels t)) [
    | inl f ↦ (λ h. absurd (false≢true (rw (covers, e, f) at h)), λ k. absurd (k.1 f))
    | inr (q, qs, f) ↦
        let c : covers v s t ≡ labels_cover s (p ∷ ps) (q ∷ qs) = rw (covers, e, f) refl in
        rw (e, f)
          (
            λ h. ((λ n. cc), (λ n. cc), (labels_cover-Within s (p ∷ ps) (q ∷ qs)).0 (sym c ∙ h)),
            λ k. c ∙ (labels_cover-Within s (p ∷ ps) (q ∷ qs)).1 k.2,
          )
  ]
]

-- A name in the zone of a name in the zone of a proof is in the zone of the proof.
covers-zone_trans :
    (a b c : List ℕ) → covers a zone b ≡ true → covers b zone c ≡ true → covers a zone c ≡ true
covers-zone_trans a b c h k =
    let (na, nb, (front, e)) = (covers-Within a zone b).0 h in
    let (nb', nc, (front', f)) = (covers-Within b zone c).0 k in
    (covers-Within a zone c).1 (
      na,
      nc,
      (front' ++ front, f ∙ ap (λ q. front' ++ q) e ∙ sym (append_assoc front' front (labels a))),
    )
