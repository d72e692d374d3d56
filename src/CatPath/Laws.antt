-- ===== src/CatPath/Laws.antt =====
-- What `cat_path` writes, and when it fails.
use thingsboard_sdk.Base.{
  ◌<◌, ℕ, ◌-◌, ◌≡◌, Option, none, some, List, [], ◌∷◌, ◌++◌, append-nil, append_assoc, Bytes,
  length, length-append, ltb, if◌then◌else◌, arith,
}
use thingsboard_sdk.Types.{ok, err, enomem}
use thingsboard_sdk.CatPath.{cat_path_from, cat_path}

-- The path that the elements up to the first null pointer spell.
abbrev pub joined : List (Option Bytes) → Bytes
joined [] = []
joined (none ∷ elements) = []
joined (some element ∷ elements) = b'/' ∷ element ++ joined elements

cat_path_from_lem :
    (elements : List (Option Bytes)) (out : Bytes) (left : ℕ)
    → cat_path_from elements out left
      ≡ (if ltb (length (joined elements)) left then ok (out ++ joined elements) else err enomem)
unfolding cat_path_from
cat_path_from_lem [] out left = ground (arith, append-nil out)
cat_path_from_lem (none ∷ elements) out left = ground (arith, append-nil out)
cat_path_from_lem (some x ∷ elements) out left = ground (
  arith,
  cat_path_from_lem elements (out ++ b'/' ∷ x) (left - 1 - length x),
  length-append x (joined elements),
  append_assoc out (b'/' ∷ x) (joined elements),
)

pub cat_path_lem :
    (elements : List (Option Bytes)) (out_len : ℕ)
    → cat_path elements out_len
      ≡ (if ltb (length (joined elements)) out_len then ok (joined elements) else err enomem)
unfolding cat_path
cat_path_lem elements out_len = cat_path_from_lem elements [] out_len

pub cat_path-fits :
    (elements : List (Option Bytes)) (out_len : ℕ) (p : Bytes)
    → cat_path elements out_len ≡ ok p
    → length p < out_len
cat_path-fits elements out_len p h = ground (arith, cat_path_lem elements out_len)
