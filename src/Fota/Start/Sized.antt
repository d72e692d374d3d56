-- ===== src/Fota/Start/Sized.antt =====
-- The request for a firmware image fits into its buffers.
use thingsboard_sdk.Base.{ℕ, refl, ascii, Option-cases, inl, inr, arith}
use thingsboard_sdk.Types.Cases.{Result-cases}
use thingsboard_sdk.Platform.{Env}
use thingsboard_sdk.World.Keeps.{Keeps}
use thingsboard_sdk.CatPath.{cat_path, short_path}
use thingsboard_sdk.Requests.{after_alloc, request_alloc, request_free, send_coap}
use thingsboard_sdk.Requests.Sized.{Sized}
use thingsboard_sdk.Fota.Start.{prepare_image, fw_request_image}

module _ (e : Env) where
  prepare_image-Sized : (r : ℕ) → Keeps (Sized e.kconfig) (prepare_image e r)
  unfolding prepare_image request_free send_coap
  prepare_image-Sized r w =
      let elements = short_path e.kconfig w.client (ascii "fw") in
      elim (Result-cases (cat_path elements e.kconfig.request_max_path_length)) [
        | inl (p, q) ↦ ground (arith, q)
        | inr (x, q) ↦ ground (arith, q)
      ]

  pub fw_request_image-Sized : Keeps (Sized e.kconfig) (fw_request_image e)
  unfolding fw_request_image request_alloc
  fw_request_image-Sized w = elim (Option-cases (e.mem_slab_alloc w.history)) [
    | inl p ↦ rw (p, fw_request_image, request_alloc) refl
    | inr (r, p) ↦ rw (p, fw_request_image, request_alloc) (prepare_image-Sized r (after_alloc r w))
  ]
