-- ===== src/Fota/Chunks.antt =====
-- The blocks of an image: what is written, counted and installed.
use thingsboard_sdk.Base.{
  ℕ, suc, ◌+◌, ◌%◌, ◌^◌, ◌≤◌, ◌<◌, ◌≡◌, ◌⊎◌, Bytes, length, ltb, true, false, if◌then◌else◌, arith,
  none, some,
}
use thingsboard_sdk.Types.{
  FwState, downloading, downloaded, updating, failed, verified, updated, idle,
}
use thingsboard_sdk.Platform.{Env, Delivery}
use thingsboard_sdk.World.{World}
use thingsboard_sdk.Requests.{request_free}
use thingsboard_sdk.Rpc.{is_content}
use thingsboard_sdk.Requests.Apart.{written, installs, refusals}
use thingsboard_sdk.Telemetry.Apart.{send_telemetry-Apart}
use thingsboard_sdk.Fota.{
  state_str, set_fw, report_state, set_fw_state, fw_apply, install, write_chunk, first_chunk,
  fw_chunk_process, chunk_state, react, handle_fw_chunk,
}

-- The answer is not 2.05, or empty, or the DFU target refused its bytes.
abbrev pub IsNoBlock : Delivery → World → World → Type 0
IsNoBlock d v w =
    (is_content d.result_code ≡ false)
    ⊎ (length d.payload ≡ 0)
    ⊎ (refusals w.history ≡ suc (refusals v.history))

-- Nothing was written and nothing counted, since this is no block or the DFU target refused it.
abbrev pub Rejected : Delivery → World → World → FwState → Type 0
Rejected d v w s =
    (s ≡ failed)
    × IsNoBlock d v w
    × (w.fota.offset ≡ v.fota.offset)
    × (written w.history ≡ written v.history)
    × (installs w.history ≡ installs v.history)

-- A block, that the DFU target took, was written and counted, and the image is complete or not.
abbrev pub Accepted : ℕ → World → World → FwState → Type 0
Accepted len v w s =
    (w.fota.offset ≡ (v.fota.offset + len) % 2 ^ 32)
    × (w.fota.size ≡ v.fota.size)
    × (written w.history ≡ len + written v.history)
    × (installs w.history ≡ installs v.history)
    × (refusals w.history ≡ refusals v.history)
    × (s ≡ (if ltb w.fota.offset w.fota.size then downloading else downloaded))

abbrev pub Processed : ℕ → World → World → FwState → Type 0
Processed len v w s =
    ((s ≡ failed)
      × (refusals w.history ≡ suc (refusals v.history))
      × (w.fota.offset ≡ v.fota.offset)
      × (written w.history ≡ written v.history)
      × (installs w.history ≡ installs v.history))
    ⊎ Accepted len v w s

-- What the handler of an answer leaves behind.
abbrev pub Outcome : Delivery → World → World → Type 0
Outcome d v w =
    ((w.fota.fw_state ≡ failed)
      × IsNoBlock d v w
      × (w.fota.offset ≡ v.fota.offset)
      × (written w.history ≡ written v.history)
      × (installs w.history ≡ installs v.history))
    ⊎ ((is_content d.result_code ≡ true)
        × (0 < length d.payload)
        × (refusals w.history ≡ refusals v.history)
        × (w.fota.offset ≡ (v.fota.offset + length d.payload) % 2 ^ 32)
        × (written w.history ≡ length d.payload + written v.history)
        × (((w.fota.offset < v.fota.size)
              × (w.fota.fw_state ≡ downloading)
              × (installs w.history ≡ installs v.history))
            ⊎ ((v.fota.size ≤ w.fota.offset)
                × (((w.fota.fw_state ≡ downloaded) × (installs w.history ≡ installs v.history))
                    ⊎ ((w.fota.fw_state ≡ updating)
                        × (installs w.history ≡ suc (installs v.history)))))))

module _ (e : Env) where
  write_chunk-Processed :
      (buf : Bytes) (w : World)
      → Processed (length buf) w (write_chunk e buf w).0 (write_chunk e buf w).1
  unfolding write_chunk
  write_chunk-Processed buf w = ground arith

  first_chunk-Processed :
      (buf : Bytes) (w : World)
      → Processed (length buf) w (first_chunk e buf w).0 (first_chunk e buf w).1
  unfolding first_chunk write_chunk
  first_chunk-Processed buf w = ground arith

  fw_chunk_process-Processed :
      (buf : Bytes) (w : World)
      → Processed (length buf) w (fw_chunk_process e buf w).0 (fw_chunk_process e buf w).1
  unfolding fw_chunk_process
  fw_chunk_process-Processed buf w =
      ground (arith, first_chunk-Processed buf w, write_chunk-Processed buf w)

  chunk_state-Processed :
      (d : Delivery) (w : World)
      → Rejected d w (chunk_state e d w).0 (chunk_state e d w).1
        ⊎ ((is_content d.result_code ≡ true)
            × (0 < length d.payload)
            × Accepted (length d.payload) w (chunk_state e d w).0 (chunk_state e d w).1)
  unfolding chunk_state
  chunk_state-Processed d w = ground (arith, fw_chunk_process-Processed d.payload w)

  -- The report changes the state of the update and nothing else of it.
  pub set_fw_state-lem :
      (s : FwState) (w : World)
      → ((set_fw_state e s w).0.fota ≡ record w.fota { fw_state = s })
        × (written (set_fw_state e s w).0.history ≡ written w.history)
        × (installs (set_fw_state e s w).0.history ≡ installs w.history)
        × (refusals (set_fw_state e s w).0.history ≡ refusals w.history)
  unfolding set_fw_state report_state
  set_fw_state-lem s w = ground (
    arith,
    send_telemetry-Apart e
        (record {
          fw_state = some (state_str s);
          current_fw_title = none;
          current_fw_version = none;
        })
        (set_fw s w).0,
  )

  -- What is ordered of a complete image: that it be installed, unless the DFU target refuses it.
  react-lem :
      (s : FwState) (w : World)
      → w.fota.fw_state ≡ s
      → ((react e s w).0.fota.offset ≡ w.fota.offset)
        × (written (react e s w).0.history ≡ written w.history)
        × (refusals (react e s w).0.history ≡ refusals w.history)
        × (((installs (react e s w).0.history ≡ installs w.history)
              × ((react e s w).0.fota.fw_state ≡ s))
            ⊎ ((s ≡ downloaded)
                × (installs (react e s w).0.history ≡ suc (installs w.history))
                × ((react e s w).0.fota.fw_state ≡ updating)))
  unfolding react fw_apply install
  react-lem downloading w p = ground arith
  react-lem downloaded w p = grind (arith, set_fw_state-lem)
  react-lem failed w p = ground arith
  react-lem verified w p = ground arith
  react-lem updating w p = ground arith
  react-lem updated w p = ground arith
  react-lem idle w p = ground arith

-- Of each answer to the request of an image one of three things holds. It was not 2.05, or it was
-- empty, or the DFU target refused its bytes once, as no image or with an error of the write: nothing
-- was written or counted, no installation was ordered and the update has FAILED. Or it was a block
-- that the DFU target took: its bytes were written and added to the offset (of 32 bits), which is
-- still below the size, the update goes on DOWNLOADING and no installation was ordered. Or it was
-- such a block and the offset has reached the size: the update is DOWNLOADED and no installation was
-- ordered, or it is UPDATING and the installation was ordered once.
pub handle_fw_chunk-Outcome :
    (e : Env) (d : Delivery) (r : ℕ) (w : World) → Outcome d w (handle_fw_chunk e d r w).0
unfolding handle_fw_chunk request_free
handle_fw_chunk-Outcome e d r w =
    let c = chunk_state e d w in
    let s = set_fw_state e c.1 c.0 in
    ground (arith, chunk_state-Processed e d w, set_fw_state-lem e c.1 c.0, react-lem e c.1 s.0)
