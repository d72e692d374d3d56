-- ===== src/World/Keeps.antt =====
-- Functions that relate the state before to the state after, and how they compose.
use thingsboard_sdk.Base.{Bool, true, false, if◌then◌else◌}
use thingsboard_sdk.World.{World, M, ◌>>=◌, when}

abbrev pub Keeps : {A : Type 0} → (World → World → Type 0) → M A → Type 0
Keeps R m = (w : World) → R w (m w).0

pub record IsPreorder (R : World → World → Type 0) : Type 0 where
  pub reflexive : (w : World) → R w w
  pub transitive : (u v w : World) → R u v → R v w → R u w

module _ {R : World → World → Type 0} (p : IsPreorder R) where
  pub bind-Keeps :
      {A B : Type 0} (m : M A) (f : A → M B)
      → Keeps R m
      → ((a : A) → Keeps R (f a))
      → Keeps R (m >>= f)
  bind-Keeps m f h k w = p.transitive w (m w).0 ((m >>= f) w).0 (h w) (k (m w).1 (m w).0)

  pub if-Keeps :
      {A : Type 0} (b : Bool) (m n : M A) → Keeps R m → Keeps R n → Keeps R (if b then m else n)
  if-Keeps true m n h k = h
  if-Keeps false m n h k = k

  pub when-Keeps : (b : Bool) (m : M (Unit {0})) → Keeps R m → Keeps R (when b m)
  when-Keeps true m h w = h w
  when-Keeps false m h w = p.reflexive w
