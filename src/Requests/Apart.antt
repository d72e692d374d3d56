-- ===== src/Requests/Apart.antt =====
-- What sending telemetry leaves alone of the firmware update.
use thingsboard_sdk.Base.{ℕ, Bool, false, suc, ◌+◌, ◌≡◌, [], ◌∷◌, length, ◌==◌, if◌then◌else◌}
use thingsboard_sdk.Types.{ok, err, ReturnCode}
use thingsboard_sdk.Platform.{History, dfu_identify, dfu_write, dfu_schedule_update}
use thingsboard_sdk.World.{World}

-- The bytes that were written to the DFU target.
abbrev pub written : History → ℕ
written [] = 0
written (dfu_write buf (ok n) ∷ h) = (if n == 0 then length buf else 0) + written h
written (_ ∷ h) = written h

-- How often the installation of a new image was ordered.
abbrev pub installs : History → ℕ
installs [] = 0
installs (dfu_schedule_update ∷ h) = suc (installs h)
installs (_ ∷ h) = installs h

abbrev pub is_zero : ReturnCode → Bool
is_zero (ok n) = n == 0
is_zero (err _) = false

-- How often the DFU target refused a block: it was no image, or was not written.
abbrev pub refusals : History → ℕ
refusals [] = 0
refusals (dfu_identify b ∷ h) = (if b then 0 else 1) + refusals h
refusals (dfu_write buf res ∷ h) = (if is_zero res then 0 else 1) + refusals h
refusals (_ ∷ h) = refusals h

abbrev pub Apart : World → World → Type 0
Apart v w =
    (w.fota ≡ v.fota)
    × (w.client.shared_attributes ≡ v.client.shared_attributes)
    × (written w.history ≡ written v.history)
    × (installs w.history ≡ installs v.history)
    × (refusals w.history ≡ refusals v.history)
