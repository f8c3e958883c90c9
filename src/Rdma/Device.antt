-- ===== src/Rdma/Device.antt =====
-- `init_ibv_device` and the two name tables of csrc/rdma_utils.cc.
use Prim.Native.String.{String}
use flash_reduce_dev.Common.{
  ℕ, ◌≡◌, ◌≢◌, refl, ap, ◌∙◌, true, false, ℤ, is_zero, List, [], ◌∷◌, ◌++◌, All, ◌==◌, ne→==,
  if◌then◌else◌, Outcome, done, check_failed, undefined,
}

-- The verbs library in the state `K`, and `strcmp`. Names, devices and contexts are pointers; a
-- null list or context stands for failure.
pub record Verbs (K : Type 0) : Type 0 where
  pub get_device_list : K → K × ℕ × List ℕ
  pub get_device_name : (device : ℕ) → ℕ
  pub strcmp : (left right : ℕ) → ℤ
  pub open_device : K → (device : ℕ) → K × ℕ
  pub free_device_list : K → (list : ℕ) → K

module _ {K : Type 0} (v : Verbs K) where
  -- The loop over the devices, which leaves `device` as it is when none has the name.
  unfoldable pub pick_device : (device : ℕ) → List ℕ → (name : ℕ) → ℕ
  pick_device device [] name = device
  pick_device device (d ∷ ds) name =
      let rest = pick_device device ds name in
      if is_zero (v.strcmp (v.get_device_name d) name) then d else rest

  -- The end, with the device at hand. `ibv_open_device` reads through its argument.
  unfoldable pub open_picked : K → (list device : ℕ) → Outcome (K × ℕ × ℕ)
  open_picked k list device =
      let (k', context) = v.open_device k device in
      if device == 0
      then undefined
      else if context == 0
      then check_failed
      else done (v.free_device_list k' list, device, context)

  -- `device` is what the caller's variable holds before. The result has what the two variables
  -- hold after.
  unfoldable pub init_ibv_device : K → (device name : ℕ) → Outcome (K × ℕ × ℕ)
  unfolding pick_device open_picked
  init_ibv_device k device name =
      let (k, list, devices) = v.get_device_list k in
      if list == 0 then check_failed else open_picked k list (pick_device device devices name)

  -- The device has another name.
  abbrev pub Unlike : (name device : ℕ) → Type 0
  Unlike name d = is_zero (v.strcmp (v.get_device_name d) name) ≡ false

  pub pick_device-first :
      (device : ℕ) (front : List ℕ) (d : ℕ) (back : List ℕ) (name : ℕ)
      → All (Unlike name) front
      → is_zero (v.strcmp (v.get_device_name d) name) ≡ true
      → pick_device device (front ++ d ∷ back) name ≡ d
  unfolding pick_device
  pick_device-first device [] d back name unlike like = rw like refl
  pick_device-first device (e ∷ front) d back name unlike like =
      rw unlike.0 (pick_device-first device front d back name unlike.1 like)

  pick_device-missing :
      (device : ℕ) (ds : List ℕ) (name : ℕ)
      → All (Unlike name) ds
      → pick_device device ds name ≡ device
  unfolding pick_device
  pick_device-missing device [] name unlike = refl
  pick_device-missing device (d ∷ ds) name unlike =
      rw unlike.0 (pick_device-missing device ds name unlike.1)

  -- When the list of devices is there, and the first in it with the name can be opened, that device
  -- and its context are the result, whatever the caller's variable held before.
  pub init_ibv_device-first :
      (k : K) (device name d : ℕ) (front back : List ℕ)
      → (v.get_device_list k).1 ≢ 0
      → (v.get_device_list k).2 ≡ front ++ d ∷ back
      → All (Unlike name) front
      → is_zero (v.strcmp (v.get_device_name d) name) ≡ true
      → d ≢ 0
      → (v.open_device (v.get_device_list k).0 d).1 ≢ 0
      → init_ibv_device k device name
        ≡ done (
          v.free_device_list (v.open_device (v.get_device_list k).0 d).0 (v.get_device_list k).1,
          d,
          (v.open_device (v.get_device_list k).0 d).1,
        )
  unfolding init_ibv_device
  init_ibv_device-first k device name d front back some_list listed unlike like real opens =
      rw
        (
          ne→== (v.get_device_list k).1 0 some_list,
          ap (λ (ds : List ℕ). pick_device device ds name) listed
              ∙ pick_device-first device front d back name unlike like,
          ne→== d 0 real,
          ne→== (v.open_device (v.get_device_list k).0 d).1 0 opens,
        )
        refl

  -- When no device of the list has the name and the caller's variable is null, as in the example
  -- program, a null device is opened.
  pub init_ibv_device-missing :
      (k : K) (name : ℕ)
      → (v.get_device_list k).1 ≢ 0
      → All (Unlike name) (v.get_device_list k).2
      → init_ibv_device k 0 name ≡ undefined
  unfolding init_ibv_device
  init_ibv_device-missing k name some_list unlike =
      rw
        (
          ne→== (v.get_device_list k).1 0 some_list,
          pick_device-missing 0 (v.get_device_list k).2 name unlike,
        )
        refl

-- `other` is a value outside the enumeration.
pub data PortState : Type 0 where
  port_nop port_down port_init port_armed port_active port_active_defer : PortState
  port_other : ℕ → PortState

abbrev pub port_state_to_string : PortState → String
port_state_to_string port_nop = "NOP"
port_state_to_string port_down = "DOWN"
port_state_to_string port_init = "INIT"
port_state_to_string port_armed = "ARMED"
port_state_to_string port_active = "ACTIVE"
port_state_to_string port_active_defer = "ACTIVE_DEFER"
port_state_to_string (port_other n) = "UNKNOWN"

pub data Mtu : Type 0 where
  mtu_256 mtu_512 mtu_1024 mtu_2048 mtu_4096 : Mtu
  mtu_other : ℕ → Mtu

abbrev pub mtu_to_string : Mtu → String
mtu_to_string mtu_256 = "256"
mtu_to_string mtu_512 = "512"
mtu_to_string mtu_1024 = "1024"
mtu_to_string mtu_2048 = "2048"
mtu_to_string mtu_4096 = "4096"
mtu_to_string (mtu_other n) = "UNKNOWN"
