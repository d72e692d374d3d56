-- ===== src/Attributes/Keeps.antt =====
-- What the taking of attributes keeps: any relation that allows what passes no request, and the
-- start of an update.
use thingsboard_sdk.Base.{refl, Bool, inl, inr, true, false, arith}
use thingsboard_sdk.Types.{Attributes}
use thingsboard_sdk.Types.Cases.{Result-cases}
use thingsboard_sdk.Platform.{Env, Delivery}
use thingsboard_sdk.World.{World, M, when, modify_client}
use thingsboard_sdk.World.Keeps.{Keeps}
use thingsboard_sdk.Codec.{attributes_decode, attributes_update}
use thingsboard_sdk.Requests.Traffic.{Quiet}
use thingsboard_sdk.Fota.Start.{fota_on_attributes}
use thingsboard_sdk.Attributes.{spread_attributes, store_attributes, take_attributes}

module _ (e : Env) (R : World → World → Type 0) (quiet : (v w : World) → Quiet v w → R v w)
    (transitive : (u v w : World) → R u v → R v w → R u w)
    (update : Keeps R (fota_on_attributes e)) where
  when-Keeps : (b : Bool) (m : M (Unit {0})) → Keeps R m → Keeps R (when b m)
  when-Keeps true m h w = h w
  when-Keeps false m h w = quiet w w refl

  spread_attributes-Keeps : (changes : Attributes) → Keeps R (spread_attributes e changes)
  unfolding spread_attributes
  spread_attributes-Keeps changes w =
      let v = (when e.kconfig.fota (fota_on_attributes e) w).0 in
      transitive w v (spread_attributes e changes w).0
        (when-Keeps e.kconfig.fota (fota_on_attributes e) update w)
        (quiet v (spread_attributes e changes w).0 (ground arith))

  store_attributes-Keeps : (changes : Attributes) → Keeps R (store_attributes e changes)
  unfolding store_attributes
  store_attributes-Keeps changes w =
      elim (Result-cases (attributes_update e changes w.client.shared_attributes)) [
        | inl ((count, current), p) ↦
            let v = (modify_client (λ c. record c { shared_attributes = current }) w).0 in
            rw (p, store_attributes)
              (transitive w v (spread_attributes e changes v).0 (quiet w v refl)
                (spread_attributes-Keeps changes v))
        | inr (x, p) ↦ rw (p, store_attributes) (quiet w w refl)
      ]

  pub take_attributes-Keeps : (d : Delivery) → Keeps R (take_attributes e d)
  unfolding take_attributes
  take_attributes-Keeps d w = elim (Result-cases (attributes_decode e d.payload)) [
    | inl (changes, p) ↦ ground (arith, p, quiet w w refl, store_attributes-Keeps changes w)
    | inr (x, p) ↦ ground (arith, p, quiet w w refl)
  ]
