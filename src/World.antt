-- ===== src/World.antt =====
-- The state of the SDK: `thingsboard_client` (src/thingsboard.c, src/tb_internal.h), the static
-- variables of src/tb_fota.c, src/tb_time.c and src/provision.c, the request slab and the history
-- of calls. A C function is a function on this state.
pub mod Keeps
use thingsboard_sdk.Base.{ℕ, Bool, Option, ◌∷◌, Bytes, if◌then◌else◌, ◌==◌}
use thingsboard_sdk.Types.{
  ThingsboardState, FwState, FirmwareInfo, Configuration, Attributes, Request,
}
use thingsboard_sdk.Platform.{Call, History}

pub record SockAddr : Type 0 where
  pub addr : ℕ
  pub port : ℕ

-- `server_socket` is `none` for -1.
pub record Client : Type 0 where
  pub state : ThingsboardState
  pub config : Option Configuration
  pub server_address : Option SockAddr
  pub server_socket : Option ℕ
  pub attributes_observation : Option ℕ
  pub access_token : Option Bytes
  pub shared_attributes : Attributes

pub record FotaCtx : Type 0 where
  pub title : Bytes
  pub version : Bytes
  pub offset : ℕ
  pub size : ℕ
  pub fw_state : FwState

-- Three int64, by their bit patterns.
pub record TimeCtx : Type 0 where
  pub tb_time : ℕ
  pub own_time : ℕ
  pub last_request : ℕ

pub record World : Type 0 where
  pub client : Client
  pub fota : FotaCtx
  pub current_firmware : Option FirmwareInfo
  pub time : TimeCtx
  pub prov_token : Bytes
  pub prov_cb : Bool
  pub slab : ℕ → Request
  pub history : History

-- A C function with a result.
abbrev pub M : Type 0 → Type 0
M A = World → World × A

infixl 5 ◌>>=◌ ◌>>◌
abbrev pub ◌>>=◌ : {A B : Type 0} → M A → (A → M B) → M B
◌>>=◌ m f w = f (m w).1 (m w).0

abbrev pub ◌>>◌ : {A B : Type 0} → M A → M B → M B
◌>>◌ m k w = k (m w).0

abbrev pub pure : {A : Type 0} → A → M A
pure a w = (w, a)

abbrev pub done : M (Unit {0})
done w = (w, tt)

abbrev pub get_world : M World
get_world w = (w, w)

-- Record a call that returns nothing.
abbrev pub emit : Call → M (Unit {0})
emit c w = (record w { history = c ∷ w.history }, tt)

-- Make a call: the answer, and the call with its answer in the history.
abbrev pub ask : {A : Type 0} → (History → A) → (A → Call) → M A
ask answer call w = (record w { history = call (answer w.history) ∷ w.history }, answer w.history)

abbrev pub modify_client : (Client → Client) → M (Unit {0})
modify_client f w = (record w { client = f w.client }, tt)

abbrev pub modify_fota : (FotaCtx → FotaCtx) → M (Unit {0})
modify_fota f w = (record w { fota = f w.fota }, tt)

abbrev pub when : Bool → M (Unit {0}) → M (Unit {0})
when b m = if b then m else done

abbrev pub update : (ℕ → Request) → ℕ → Request → ℕ → Request
update s r v q = if q == r then v else s q

abbrev pub modify_request : ℕ → (Request → Request) → M (Unit {0})
modify_request r f w = (record w { slab = update w.slab r (f (w.slab r)) }, tt)
