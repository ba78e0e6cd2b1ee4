-- ===== src/Modules/Namespaced.antt =====
-- Namespaced text: `_TEST_KEY_RE` of modules/contract.py and `CHECK_ID_RE` of
-- modules/normalization/findings.py, the one regular expression `[a-z0-9_]+(\.[a-z0-9_]+)+`.
pub mod Segments
use Prim.Native.Char.{code}
use testing_platform_backend.Prelude.{
  Bool, List, String, [], false, if◌then◌else◌, leb, true, ℕ, ◌&&◌, ◌==◌, ◌||◌, ◌∷◌,
}

-- `[a-z0-9_]`
abbrev pub is_word : ℕ → Bool
is_word c = (leb 97 c && leb c 122) || (leb 48 c && leb c 57) || c == 95

-- The code points of a text.
abbrev pub codes : String → List ℕ
codes String.[] = []
codes (String.◌∷◌ c s) = code c ∷ codes s

-- The states of the matcher: at the start of a segment, or inside one; and whether a dot was read.
mutual
  pub segment_start : Bool → List ℕ → Bool
  segment_start dotted [] = false
  segment_start dotted (c ∷ s) = is_word c && segment_rest dotted s

  pub segment_rest : Bool → List ℕ → Bool
  segment_rest dotted [] = dotted
  segment_rest dotted (c ∷ s) =
      let next = segment_start true s in
      let more = segment_rest dotted s in if c == 46 then next else (is_word c && more)

-- `_TEST_KEY_RE.fullmatch(text)`
unfoldable pub full_match : List ℕ → Bool
unfolding segment_start
full_match s = segment_start false s
