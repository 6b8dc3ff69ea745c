-- ===== src/Gadget/Functions.antt =====
-- The registry of function drivers, gadget/functions.c. The lock that each operation takes makes it one
-- step.
pub mod Registry
use unisoc_usb.Prelude.{
  ℕ, Bool, true, false, List, [], ◌∷◌, ◌++◌, Option, none, some, Code, Errno, ◌==◌, if◌then◌else◌,
}

-- `struct usb_function_driver`: `id` stands for its address, `name` for its string.
pub record FunctionDriver : Type 0 where
  pub id : ℕ
  pub name : ℕ

-- The driver of this name in a list.
abbrev pub find_name : ℕ → List FunctionDriver → Option FunctionDriver
find_name name [] = none
find_name name (fd ∷ fds) = if fd.name == name then some fd else find_name name fds

-- `usb_function_register`
pub function_register : List FunctionDriver → FunctionDriver → List FunctionDriver × Code
function_register func_list newf = elim (find_name newf.name func_list) [
  | some fd ↦ (func_list, some Errno.eexist)
  | none ↦ (func_list ++ (newf ∷ []), none)
]

-- `usb_function_unregister`, which takes the driver of this address off the list.
pub function_unregister : List FunctionDriver → FunctionDriver → List FunctionDriver
function_unregister [] fd = []
function_unregister (x ∷ xs) fd = if x.id == fd.id then xs else x ∷ function_unregister xs fd

-- A function that was allocated, with the driver that it comes from.
pub record UsbFunction : Type 0 where
  pub fd : FunctionDriver
  pub instance_id : ℕ

-- `get_usb_function`: `alloc_func` is the driver's, and `unset` the value of `f` that no statement has
-- assigned.
pub get_usb_function :
    (ℕ → Option ℕ) → List FunctionDriver → ℕ → Option UsbFunction → Option UsbFunction
get_usb_function alloc_func func_list name unset = elim (find_name name func_list) [
  | none ↦ unset
  | some fd ↦ elim (alloc_func fd.id) [
    | none ↦ none
    | some i ↦ some (record { fd = fd; instance_id = i })
  ]
]
