-- ===== src/Requests/Balance.antt =====
-- Who owns a request block: a count over the history of calls.
use thingsboard_sdk.Base.{
  refl, true, ℕ, suc, ◌+◌, ◌-◌, ◌≤◌, ◌≡◌, Bool, false, none, some, [], ◌∷◌, ◌==◌, if◌then◌else◌,
  arith,
}
use thingsboard_sdk.Types.{ReturnCode, ok, err, Handler, attribute_notification}
use thingsboard_sdk.Platform.{
  Env, Call, History, k_mem_slab_alloc, k_mem_slab_free, coap_client_req, callback, out_of_bounds,
}
use thingsboard_sdk.World.{World}

-- 1 if the two blocks are one.
pub same : ℕ → ℕ → ℕ
same r k = if r == k then 1 else 0

pub same_refl : (k : ℕ) → same k k ≡ 1
unfolding same
same_refl k = ground arith

-- Whether the CoAP client is done with the request: its last block, and of an observation, which
-- goes on after a response, only an error.
abbrev pub ends_request : Handler → ReturnCode → Bool → Bool
ends_request attribute_notification (ok _) last_block = false
ends_request attribute_notification (err _) last_block = last_block
ends_request _ _ last_block = last_block

-- The SDK gets block `k`: from the slab, or back from the CoAP client.
abbrev pub gain : ℕ → Call → ℕ
gain k (k_mem_slab_alloc (some r)) = same r k
gain k (callback h res last_block r) = if ends_request h res last_block then same r k else 0
gain k _ = 0

-- The SDK gives block `k` away: to the slab, or to the CoAP client, which has taken the request.
abbrev pub spend : ℕ → Call → ℕ
spend k (k_mem_slab_free (some r)) = same r k
spend k (coap_client_req q (ok _)) = same q.user_data k
spend k _ = 0

abbrev pub gained : ℕ → History → ℕ
gained k [] = 0
gained k (c ∷ h) = gain k c + gained k h

-- A read behind the end of `requests` gives block `k`, which was not obtained by it.
abbrev pub receive : ℕ → Call → ℕ
receive k (out_of_bounds (some r)) = same r k
receive k c = gain k c

-- The blocks that were gained, and those that were read behind the end of `requests`.
abbrev pub received : ℕ → History → ℕ
received k [] = 0
received k (c ∷ h) = receive k c + received k h

-- Nothing was read or written behind the end of `requests`.
abbrev pub is_in_bounds : History → Bool
is_in_bounds [] = true
is_in_bounds (out_of_bounds o ∷ h) = false
is_in_bounds (_ ∷ h) = is_in_bounds h

pub received-gained : (k : ℕ) (h : History) → is_in_bounds h ≡ true → received k h ≡ gained k h
received-gained k [] b = refl
received-gained k (out_of_bounds o ∷ h) b = ground arith
received-gained k (_ ∷ h) b = omega (arith, received-gained k h b)

abbrev pub spent : ℕ → History → ℕ
spent k [] = 0
spent k (c ∷ h) = spend k c + spent k h

-- Between the two histories, block `k` was received `n` times more than it was given away.
abbrev pub Owes : ℕ → ℕ → History → History → Type 0
Owes k n before after = received k after + spent k before ≡ n + received k before + spent k after

-- Between the two worlds, block `k` was given away as often as it was received.
abbrev pub Balanced : ℕ → World → World → Type 0
Balanced k before after = Owes k 0 before.history after.history

-- The blocks of the slab that are in use.
abbrev pub in_use : History → ℕ
in_use [] = 0
in_use (k_mem_slab_alloc (some r) ∷ h) = suc (in_use h)
in_use (k_mem_slab_free (some r) ∷ h) = in_use h - 1
in_use (_ ∷ h) = in_use h

-- The slab has CONFIG_COAP_CLIENT_MAX_REQUESTS blocks: while all are in use it gives none.
abbrev pub SlabIsBounded : Env → Type 0
SlabIsBounded e =
    (h : History) → e.kconfig.coap_client_max_requests ≤ in_use h → e.mem_slab_alloc h ≡ none

-- The slab gives no block that the SDK holds.
abbrev pub SlabIsExclusive : Env → Type 0
SlabIsExclusive e = (h : History) (r : ℕ) → e.mem_slab_alloc h ≡ some r → gained r h ≤ spent r h
