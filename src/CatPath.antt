-- ===== src/CatPath.antt =====
-- `thingsboard_cat_path` of src/thingsboard.c and the paths that src/tb_internal.h spells as
-- macros.
pub mod Laws
use thingsboard_sdk.Base.{
  ℕ, ◌+◌, ◌-◌, Bool, Option, none, some, List, [], ◌∷◌, ◌++◌, Bytes, ascii, length, ltb,
  if◌then◌else◌,
}
use thingsboard_sdk.Types.{Result, ok, err, Kconfig, enomem}
use thingsboard_sdk.World.{Client}

-- The loop over `in`, which ends at the first null pointer: `out` is what has been written, so
-- `pos` is its length, and `left` is what is left of the buffer.
cat_path_from : List (Option Bytes) → Bytes → ℕ → Result Bytes
cat_path_from [] out left = if ltb left 1 then err enomem else ok out
cat_path_from (none ∷ elements) out left = if ltb left 1 then err enomem else ok out
cat_path_from (some element ∷ elements) out left =
    if ltb left 1
    then err enomem
    else if ltb (left - 1) (length element)
    then err enomem
    else cat_path_from elements (out ++ b'/' ∷ element) (left - 1 - length element)

-- The string that is left in a buffer of `out_len` bytes, without the NUL behind it.
unfoldable pub cat_path : List (Option Bytes) → ℕ → Result Bytes
unfolding cat_path_from
cat_path elements out_len = cat_path_from elements [] out_len

-- THINGSBOARD_PATH
unfoldable pub api_path : Kconfig → Client → Bytes → List (Option Bytes)
api_path k c name =
    if k.dtls
    then some (ascii "api") ∷ some (ascii "v1") ∷ some name ∷ []
    else some (ascii "api") ∷ some (ascii "v1") ∷ c.access_token ∷ some name ∷ []

-- THINGSBOARD_SHORT_PATH
unfoldable pub short_path : Kconfig → Client → Bytes → List (Option Bytes)
short_path k c name = if k.dtls then some name ∷ [] else some name ∷ c.access_token ∷ []
