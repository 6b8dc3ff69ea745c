-- ===== src/Gadget/Functions/Registry.antt =====
-- What the registry promises to those who look a function up by its name.
use unisoc_usb.Prelude.{
  ℕ, ◌≡◌, ◌≢◌, refl, sym, ap, List, [], ◌∷◌, ◌++◌, Option, none, some, Code, Errno, arith, ==_refl,
  ==_false, ◌⊎◌, inl, inr, option_each, All,
}
use unisoc_usb.Gadget.Functions.{
  FunctionDriver, UsbFunction, find_name, function_register, function_unregister, get_usb_function,
}

-- No two drivers have the same name.
abbrev pub IsNamed : List FunctionDriver → Type 0
IsNamed [] = Unit
IsNamed (fd ∷ fds) = (find_name fd.name fds ≡ none) × IsNamed fds

find_name-snoc :
    (name : ℕ) (fds : List FunctionDriver) (fd : FunctionDriver)
    → fd.name ≢ name
    → find_name name fds ≡ none
    → find_name name (fds ++ (fd ∷ [])) ≡ none
find_name-snoc name [] fd n e = ground (arith, n)
find_name-snoc name (x ∷ fds) fd n e = ground (arith, n, e, find_name-snoc name fds fd n)

find_name_apart :
    (name : ℕ) (x : FunctionDriver) (fds : List FunctionDriver)
    → find_name name (x ∷ fds) ≡ none
    → (x.name ≢ name) × (find_name name fds ≡ none)
find_name_apart name x fds e = ground (arith, e)

find_name_last :
    (fds : List FunctionDriver) (fd : FunctionDriver)
    → find_name fd.name fds ≡ none
    → find_name fd.name (fds ++ (fd ∷ [])) ≡ some fd
find_name_last [] fd e = ground arith
find_name_last (x ∷ fds) fd e = ground (arith, e, find_name_last fds fd)

IsNamed-snoc :
    (fds : List FunctionDriver) (fd : FunctionDriver)
    → IsNamed fds
    → find_name fd.name fds ≡ none
    → IsNamed (fds ++ (fd ∷ []))
IsNamed-snoc [] fd u e = (refl, tt)
IsNamed-snoc (x ∷ fds) fd u e =
    let (a, m) = find_name_apart fd.name x fds e in
    (find_name-snoc x.name fds fd (λ q. a (sym q)) u.0, IsNamed-snoc fds fd u.1 m)

unregister_last :
    (fds : List FunctionDriver) (fd : FunctionDriver)
    → All (λ (x : FunctionDriver). x.id ≢ fd.id) fds
    → function_unregister (fds ++ (fd ∷ [])) fd ≡ fds
unfolding function_unregister
unregister_last [] fd n = simp (==_refl fd.id) refl
unregister_last (x ∷ fds) fd n =
    simp (==_false x.id fd.id n.0)
      (ap (λ (l : List FunctionDriver). x ∷ l) (unregister_last fds fd n.1))

-- A driver that is registered under a free name, at an address of its own, is taken off again without a
-- trace.
pub unregister-register :
    (fds : List FunctionDriver) (fd : FunctionDriver)
    → find_name fd.name fds ≡ none
    → All (λ (x : FunctionDriver). x.id ≢ fd.id) fds
    → function_unregister (function_register fds fd).0 fd ≡ fds
unfolding function_register
unregister-register fds fd e n =
    option_each (λ (out : List FunctionDriver × Code). function_unregister out.0 fd ≡ fds)
      (find_name fd.name fds) {x = (fds ++ (fd ∷ []), none)} {f = λ x. (fds, some Errno.eexist)}
      (λ _. unregister_last fds fd n) (λ x q. absurd (ground (arith, e, q)))

get_usb_function_found :
    (alloc_func : ℕ → Option ℕ) (fds : List FunctionDriver) (fd : FunctionDriver) (name i : ℕ)
    (unset : Option UsbFunction)
    → find_name name fds ≡ some fd
    → alloc_func fd.id ≡ some i
    → get_usb_function alloc_func fds name unset ≡ some (record { fd = fd; instance_id = i })
unfolding get_usb_function
get_usb_function_found alloc_func fds fd name i unset e a = ground (arith, e, a)

-- Registering a driver keeps the names distinct. Where the name was free, a look-up of it then allocates
-- from this driver; where it was taken, the result is -EEXIST and the list is as before.
pub function_register_lem :
    (alloc_func : ℕ → Option ℕ) (fds : List FunctionDriver) (fd : FunctionDriver) (i : ℕ)
    (unset : Option UsbFunction)
    → IsNamed fds
    → alloc_func fd.id ≡ some i
    → let out = function_register fds fd in
      IsNamed out.0
      × (((out.1 ≡ none)
            × (get_usb_function alloc_func out.0 fd.name unset
                ≡ some (record { fd = fd; instance_id = i })))
          ⊎ (out.1 ≡ some Errno.eexist) × (out.0 ≡ fds) × (find_name fd.name fds ≢ none))
unfolding function_register
function_register_lem alloc_func fds fd i unset u a =
    let P = λ (out : List FunctionDriver × Code).
      IsNamed out.0
      × (((out.1 ≡ none)
            × (get_usb_function alloc_func out.0 fd.name unset
                ≡ some (record { fd = fd; instance_id = i })))
          ⊎ (out.1 ≡ some Errno.eexist) × (out.0 ≡ fds) × (find_name fd.name fds ≢ none)) in
    option_each P (find_name fd.name fds) {x = (fds ++ (fd ∷ []), none)}
      {f = λ x. (fds, some Errno.eexist)}
      (λ e. (
        IsNamed-snoc fds fd u e,
        inl (
          refl,
          get_usb_function_found alloc_func (fds ++ (fd ∷ [])) fd fd.name i unset
              (find_name_last fds fd e) a,
        ),
      ))
      (λ x e. (u, inr (refl, refl, λ q. ground (arith, q, e))))
