-- ===== src/Examples/Limits.antt =====
-- The theorems on the rate windows and the challenges at concrete values.
use testing_platform_backend.Core.Csrf.{
  OriginRequest, contains, header_text, is_state_changing, passes_origin_check, rstrip_slashes,
}
use testing_platform_backend.Core.Csrf.Origins.{passes_origin_check_iff}
use testing_platform_backend.Core.Redis.{get_entry, issue_challenge, verify_and_consume}
use testing_platform_backend.Core.Redis.Challenges.{verify_and_consume-issue_challenge}
use testing_platform_backend.Core.Redis.Windows.{grants, grants-min}
use testing_platform_backend.Modules.Namespaced.{codes}
use testing_platform_backend.Prelude.{
  List, [], arith, cons≢nil, none, refl, some, true, ℕ, ◌++◌, ◌↔◌, ◌∷◌, ◌≡◌, ◌⊎◌,
}
use testing_platform_backend.Text.{text_eq}

grants-min_example : grants (codes "ip") 2 60 (100 ∷ 101 ∷ 150 ∷ []) [] ≡ 2
unfolding get_entry
grants-min_example =
    grants-min (codes "ip") 2 60 100 (101 ∷ 150 ∷ []) [] refl (omega arith)
      (omega arith, (omega arith, tt))

abbrev drawn_nonce : List ℕ
drawn_nonce = codes "0123456789abcdef0123456789abcdef"

verify_and_consume-issue_challenge_example :
    (codes "launch" ≡ codes "launch") × (drawn_nonce ≡ drawn_nonce)
unfolding verify_and_consume issue_challenge text_eq
verify_and_consume-issue_challenge_example =
    verify_and_consume-issue_challenge (codes "launch") drawn_nonce (codes "launch") drawn_nonce 20
      300 100 200 20 [] refl refl refl

abbrev foreign_post : OriginRequest
foreign_post = record {
  is_http = true;
  method = codes "POST";
  cookie = some (codes "__Host-session=x");
  origin = some (codes "https://evil.example");
  referer = none;
}

passes_origin_check_iff_example :
    (passes_origin_check (codes "https://nc3.example/") foreign_post ≡ true) ↔ (
      ((o : List ℕ) × (foreign_post.origin ≡ some o)
        × (rstrip_slashes o ≡ rstrip_slashes (codes "https://nc3.example/")))
      ⊎ ((foreign_post.origin ≡ none)
          × ((page : List ℕ) × (header_text foreign_post.referer
                ≡ (rstrip_slashes (codes "https://nc3.example/") ++ (47 ∷ [])) ++ page))))
unfolding is_state_changing contains rstrip_slashes text_eq
passes_origin_check_iff_example =
    passes_origin_check_iff (codes "https://nc3.example/") foreign_post refl refl refl
      (cons≢nil 104 (codes "ttps://nc3.example"))
