-- ===== src/Fota/Download.antt =====
-- The download of an image, block by block.
use thingsboard_sdk.Base.{
  ℕ, suc, ◌+◌, ◌^◌, ◌≤◌, ◌<◌, ◌≡◌, refl, ◌⊎◌, ◌==◌, Bytes, List, [], ◌∷◌, length, Bool, true, ◌&&◌,
  not, arith,
}
use thingsboard_sdk.Types.{ok, FwState, downloading, downloaded, updating}
use thingsboard_sdk.Platform.{Env, Delivery, History}
use thingsboard_sdk.World.{World}
use thingsboard_sdk.Rpc.{is_content}
use thingsboard_sdk.Requests.{request_free}
use thingsboard_sdk.Requests.Apart.{written, installs}
use thingsboard_sdk.Fota.{
  dfu_identify, ask, set_fw_state, fw_apply, install, write_chunk, first_chunk, reject_image,
  advance, fw_chunk_process, chunk_state, react, handle_fw_chunk,
}
use thingsboard_sdk.Fota.Chunks.{Accepted, handle_fw_chunk-Outcome, set_fw_state-lem}

-- The answers to the request of an image, in order.
abbrev pub download : Env → List Delivery → ℕ → World → World
download e [] r w = w
download e (d ∷ ds) r w = download e ds r (handle_fw_chunk e d r w).0

abbrev pub total : List Delivery → ℕ
total [] = 0
total (d ∷ ds) = length d.payload + total ds

-- The size stays, or is 0 since the image was refused.
abbrev pub Sized : World → World → Type 0
Sized v w = (w.fota.size ≡ v.fota.size) ⊎ (w.fota.size ≡ 0)

module _ (e : Env) where
  chunk_state-Sized : (d : Delivery) (w : World) → Sized w (chunk_state e d w).0
  unfolding chunk_state fw_chunk_process first_chunk write_chunk reject_image advance
  chunk_state-Sized d w = ground arith

  react-size : (s : FwState) (w : World) → (react e s w).0.fota.size ≡ w.fota.size
  unfolding react fw_apply install
  react-size s w = grind (arith, set_fw_state-lem)

  react-downloading : (w : World) → react e downloading w ≡ (w, tt)
  unfolding react
  react-downloading w = refl

  handle_fw_chunk-Sized : (d : Delivery) (r : ℕ) (w : World) → Sized w (handle_fw_chunk e d r w).0
  unfolding handle_fw_chunk request_free
  handle_fw_chunk-Sized d r w =
      let c = chunk_state e d w in
      let s = set_fw_state e c.1 c.0 in
      ground (arith, chunk_state-Sized d w, set_fw_state-lem e c.1 c.0, react-size c.1 s.0)

  -- Between the two worlds at most `n` bytes were written, and the offset counts them.
  abbrev pub Counts : ℕ → World → World → Type 0
  Counts n v w =
      (w.fota.offset + written v.history ≡ v.fota.offset + written w.history)
      × (written v.history ≤ written w.history)
      × (written w.history ≤ n + written v.history)

  -- An installation was ordered only of a complete image, or after an image was refused.
  abbrev pub Guarded : World → World → Type 0
  Guarded v w =
      (installs w.history ≡ installs v.history) ⊎ (v.fota.size ≤ w.fota.offset) ⊎ (w.fota.size ≡ 0)

  handle_fw_chunk-Counts :
      (d : Delivery) (r : ℕ) (w : World)
      → w.fota.offset + length d.payload < 2 ^ 32
      → Counts (length d.payload) w (handle_fw_chunk e d r w).0
        × Guarded w (handle_fw_chunk e d r w).0
        × Sized w (handle_fw_chunk e d r w).0
  handle_fw_chunk-Counts d r w b =
      let o = handle_fw_chunk-Outcome e d r w in
      let s = handle_fw_chunk-Sized d r w in ground (arith, o, s)

  -- After any sequence of answers to the request of an image, whose bytes together with the offset at
  -- the start stay below 2^32: the offset has grown by exactly the bytes that were written to the DFU
  -- target, which are at most those of the answers. And no installation was ordered, or the offset
  -- has reached the size that was expected at the start, or the size is 0. The size is that of the
  -- start or 0.
  pub download-Counts :
      (ds : List Delivery) (r : ℕ) (v : World)
      → v.fota.offset + total ds < 2 ^ 32
      → Counts (total ds) v (download e ds r v)
        × Guarded v (download e ds r v)
        × Sized v (download e ds r v)
  download-Counts [] r v b = ground arith
  download-Counts (d ∷ ds) r v b =
      let u = (handle_fw_chunk e d r v).0 in
      let h = handle_fw_chunk-Counts d r v (omega arith) in
      let g = download-Counts ds r u (omega arith) in ground arith

-- The DFU target takes every block, and the image.
abbrev pub TargetWorks : Env → Type 0
TargetWorks e =
    ((h : History) (buf : Bytes) → e.identify h buf ≡ true)
    × ((h : History) (buf : Bytes) → e.write_result h buf ≡ ok 0)
    × ((h : History) (b : Bool) → e.done_result h b ≡ ok 0)

-- Answers 2.05 with a block.
abbrev pub is_block : Delivery → Bool
is_block d = is_content d.result_code && not (length d.payload == 0)

abbrev pub are_blocks : List Delivery → Bool
are_blocks [] = true
are_blocks (d ∷ ds) = is_block d && are_blocks ds

module _ (e : Env) (works : TargetWorks e) where
  write_chunk-works :
      (buf : Bytes) (w : World)
      → Accepted (length buf) w (write_chunk e buf w).0 (write_chunk e buf w).1
  unfolding write_chunk advance
  write_chunk-works buf w = ground (arith, works.1 w.history buf)

  first_chunk-works :
      (buf : Bytes) (w : World)
      → Accepted (length buf) w (first_chunk e buf w).0 (first_chunk e buf w).1
  unfolding first_chunk
  first_chunk-works buf w =
      let v = (ask (λ h. e.identify h buf) dfu_identify w).0 in
      ground (arith, works.0 w.history buf, write_chunk-works buf v)

  chunk_state-works :
      (d : Delivery) (w : World)
      → is_block d ≡ true
      → Accepted (length d.payload) w (chunk_state e d w).0 (chunk_state e d w).1
  unfolding chunk_state fw_chunk_process
  chunk_state-works d w b =
      ground (arith, first_chunk-works d.payload w, write_chunk-works d.payload w)

  react-works :
      (w : World)
      → ((react e downloaded w).0.fota.fw_state ≡ updating)
        × (installs (react e downloaded w).0.history ≡ suc (installs w.history))
        × (written (react e downloaded w).0.history ≡ written w.history)
        × ((react e downloaded w).0.fota.offset ≡ w.fota.offset)
  unfolding react fw_apply install
  react-works w = grind (arith, works.2, set_fw_state-lem)

  handle_fw_chunk-works :
      (d : Delivery) (r : ℕ) (w : World)
      → is_block d ≡ true
      → w.fota.offset + length d.payload < 2 ^ 32
      → let v = (handle_fw_chunk e d r w).0 in
        (v.fota.offset ≡ w.fota.offset + length d.payload)
        × (written v.history ≡ length d.payload + written w.history)
        × ((v.fota.offset < w.fota.size
              → (v.fota.size ≡ w.fota.size) × (installs v.history ≡ installs w.history))
            × (w.fota.size ≤ v.fota.offset
                → (v.fota.fw_state ≡ updating) × (installs v.history ≡ suc (installs w.history))))
  unfolding handle_fw_chunk request_free
  handle_fw_chunk-works d r w b o =
      let c = chunk_state e d w in
      let s = set_fw_state e c.1 c.0 in
      ground (
        arith,
        chunk_state-works d w b,
        set_fw_state-lem e c.1 c.0,
        react-size e c.1 s.0,
        react-works s.0,
        react-downloading e s.0,
      )

  -- If the DFU target takes every block and the image, and the answers to the request of an image are
  -- blocks that together make up what is missing of it, which is at least a byte, and the size fits
  -- 32 bits, then after the last of them the update is UPDATING, the installation was ordered once,
  -- and all bytes of the blocks were written.
  pub download-works :
      (ds : List Delivery) (r : ℕ) (v : World)
      → are_blocks ds ≡ true
      → v.fota.offset + total ds ≡ v.fota.size
      → v.fota.offset < v.fota.size
      → v.fota.size < 2 ^ 32
      → ((download e ds r v).fota.fw_state ≡ updating)
        × (installs (download e ds r v).history ≡ suc (installs v.history))
        × (written (download e ds r v).history ≡ total ds + written v.history)
  download-works [] r v b o l m = ground arith
  download-works (d ∷ []) r v b o l m =
      ground (arith, handle_fw_chunk-works d r v (ground arith) (omega arith))
  download-works (d ∷ f ∷ ds) r v b o l m =
      let u = (handle_fw_chunk e d r v).0 in
      let h = handle_fw_chunk-works d r v (ground arith) (omega arith) in
      let p : is_block f ≡ true = ground arith in
      let q : u.fota.offset < v.fota.size = ground (arith, h, p) in
      let g = (h.2).0 q in
      let x =
        download-works (f ∷ ds) r u (ground arith) (omega (arith, h, g)) (omega (arith, q, g))
          (omega (arith, g)) in
      ground (arith, x, h, g)
