-- ===== src/Core/Csrf.antt =====
-- core/csrf.py: the check of the origin of a request. A header is a list of code points, with `none`
-- for one that is missing.
pub mod Origins
use testing_platform_backend.Modules.Namespaced.{codes}
use testing_platform_backend.Prelude.{
  Bool, List, Option, [], any, false, if◌then◌else◌, none, not, some, true, ℕ, ◌++◌, ◌==◌, ◌||◌,
  ◌∷◌,
}
use testing_platform_backend.Text.{starts_with, text_eq}

pub record OriginRequest : Type 0 where
  pub is_http : Bool
  pub method : List ℕ
  pub cookie : Option (List ℕ)
  pub origin : Option (List ℕ)
  pub referer : Option (List ℕ)

-- `_STATE_CHANGING`
unfoldable pub is_state_changing : List ℕ → Bool
is_state_changing method =
    any (text_eq method) (codes "POST" ∷ codes "PUT" ∷ codes "PATCH" ∷ codes "DELETE" ∷ [])

abbrev pub slash_first : ℕ → List ℕ → List ℕ
slash_first c [] = if c == 47 then [] else c ∷ []
slash_first c (d ∷ s) = c ∷ d ∷ s

-- `rstrip("/")`
unfoldable pub rstrip_slashes : List ℕ → List ℕ
rstrip_slashes [] = []
rstrip_slashes (c ∷ s) = slash_first c (rstrip_slashes s)

-- `part in text`
unfoldable pub contains : List ℕ → List ℕ → Bool
unfolding starts_with
contains part [] = starts_with part []
contains part (c ∷ s) = starts_with part (c ∷ s) || contains part s

abbrev pub header_text : Option (List ℕ) → List ℕ
header_text none = []
header_text (some s) = s

-- the session cookie is among the cookies
abbrev pub bears_session : OriginRequest → Bool
bears_session r = contains (codes "__Host-session=") (header_text r.cookie)

-- `permitted`
unfoldable pub is_permitted : List ℕ → OriginRequest → Bool
unfolding rstrip_slashes starts_with
is_permitted allowed r = elim r.origin [
  | some o ↦ text_eq (rstrip_slashes o) allowed
  | none ↦ starts_with (allowed ++ (47 ∷ [])) (header_text r.referer)
]

abbrev pub is_unset : List ℕ → Bool
is_unset [] = true
is_unset (c ∷ s) = false

-- `OriginCheckMiddleware.__call__`: whether the request is passed to the application
unfoldable pub passes_origin_check : List ℕ → OriginRequest → Bool
unfolding is_state_changing contains is_permitted
passes_origin_check auth_public_origin r =
    if not r.is_http || not (is_state_changing r.method)
    then true
    else if is_unset (rstrip_slashes auth_public_origin)
    then true
    else if not (bears_session r)
    then true
    else is_permitted (rstrip_slashes auth_public_origin) r
