-- ===== src/Gadget/EpSetup/Found.antt =====
-- Which descriptors an endpoint is configured with.
use unisoc_usb.Prelude.{
  ℕ, ◌≡◌, refl, ap, Bool, true, false, List, [], ◌∷◌, ◌++◌, Option, none, some, Code, Errno, All,
  if_each, ◌==◌, ==_iff, if◌then◌else◌,
}
use unisoc_usb.Gadget.Descriptors.{Function}
use unisoc_usb.Gadget.Speeds.{Bus}
use unisoc_usb.Gadget.EpSetup.{
  EpConfig, byte_at, dt_ss_endpoint_comp, describes, speed_desc, want_comp_desc, find_ep_desc,
  described, accompanied, add_comp, config_ep_by_speed,
}

-- No descriptor of a list is that of an endpoint with this address.
abbrev pub Lacks : ℕ → List (List ℕ) → Type 0
Lacks address ds = All (λ (d : List ℕ). describes address d ≡ false) ds

-- The first such descriptor of a list, with those behind it.
pub record IsFirst (address : ℕ) (ds : List (List ℕ)) (d : List ℕ) (behind : List (List ℕ))
    : Type 0 where
  pub ahead : List (List ℕ)
  pub split : ds ≡ ahead ++ (d ∷ behind)
  pub lacks : Lacks address ahead
  pub found : describes address d ≡ true

-- The loop's result.
abbrev pub Search : ℕ → List (List ℕ) → Option (List ℕ × List (List ℕ)) → Type 0
Search address ds none = Lacks address ds
Search address ds (some (d, behind)) = IsFirst address ds d behind

find_ep_desc-Search :
    (address : ℕ) (ds : List (List ℕ)) → Search address ds (find_ep_desc address ds)
unfolding find_ep_desc
find_ep_desc-Search address [] = tt
find_ep_desc-Search address (d ∷ ds) =
    if_each (Search address (d ∷ ds)) (describes address d)
      (λ e. record { ahead = []; split = refl; lacks = tt; found = e })
      (λ e. later (find_ep_desc address ds) e (find_ep_desc-Search address ds))
  where
    later :
        (o : Option (List ℕ × List (List ℕ)))
        → describes address d ≡ false
        → Search address ds o
        → Search address (d ∷ ds) o
    later none e s = (e, s)
    later (some (c, behind)) e s = record {
      ahead = d ∷ s.ahead;
      split = ap (λ l. d ∷ l) s.split;
      lacks = (e, s.lacks);
      found = s.found;
    }

-- Whether a list begins with a companion descriptor.
abbrev pub begins_with_comp : List (List ℕ) → Bool
begins_with_comp [] = false
begins_with_comp (c ∷ behind) = byte_at 1 c == dt_ss_endpoint_comp

-- What configuring an endpoint does with the descriptors for the speed.
pub data Configured (b : Bus) (ds : List (List ℕ)) (ep : EpConfig) : EpConfig × Code → Type 0 where
  missing : Lacks ep.address ds → Configured b ds ep (ep, some Errno.eio)
  alone :
      (d : List ℕ) (behind : List (List ℕ))
      → IsFirst ep.address ds d behind
      → want_comp_desc b ≡ false
      → Configured b ds ep (described d ep, none)
  paired :
      (d c : List ℕ) (behind : List (List ℕ))
      → IsFirst ep.address ds d (c ∷ behind)
      → want_comp_desc b ≡ true
      → byte_at 1 c ≡ dt_ss_endpoint_comp
      → Configured b ds ep (accompanied d c ep, none)
  unpaired :
      (d : List ℕ) (behind : List (List ℕ))
      → IsFirst ep.address ds d behind
      → want_comp_desc b ≡ true
      → begins_with_comp behind ≡ false
      → Configured b ds ep (described d ep, some Errno.eio)

add_comp-Configured :
    (b : Bus) (ds : List (List ℕ)) (ep : EpConfig) (d : List ℕ) (behind : List (List ℕ))
    → IsFirst ep.address ds d behind
    → want_comp_desc b ≡ true
    → Configured b ds ep (add_comp d behind ep)
unfolding add_comp
add_comp-Configured b ds ep d [] s w = unpaired d [] s w refl
add_comp-Configured b ds ep d (c ∷ behind) s w =
    if_each (Configured b ds ep) (byte_at 1 c == dt_ss_endpoint_comp)
      (λ e. paired d c behind s w ((==_iff (byte_at 1 c) dt_ss_endpoint_comp).0 e))
      (λ e. unpaired d (c ∷ behind) s w e)

-- Where there are descriptors for the speed, an endpoint is configured with the first one for its
-- address, and at SuperSpeed with the companion right behind it. It fails with -EIO where there is none
-- for its address, which leaves the endpoint as it was, and where no companion follows.
pub config_ep_by_speed-Configured :
    (b : Bus) (f : Function) (ep : EpConfig) (ds : List (List ℕ))
    → speed_desc b f ≡ some ds
    → (out : EpConfig × Code) × (config_ep_by_speed b f ep ≡ some out) × Configured b ds ep out
unfolding config_ep_by_speed
config_ep_by_speed-Configured b f ep ds e =
    rw (config_ep_by_speed, e)
      (answered (find_ep_desc ep.address ds) (find_ep_desc-Search ep.address ds))
  where
    answered :
        (o : Option (List ℕ × List (List ℕ)))
        → Search ep.address ds o
        → (out : EpConfig × Code) × ((elim o as (λ x. Option (EpConfig × Code)) [
          | none ↦ some (ep, some Errno.eio)
          | some (d, behind) ↦
              some (if want_comp_desc b then add_comp d behind ep else (described d ep, none))
        ])
            ≡ some out)
          × Configured b ds ep out
    answered none s = ((ep, some Errno.eio), refl, missing s)
    answered (some (d, behind)) s = (
      (if want_comp_desc b then add_comp d behind ep else (described d ep, none)),
      refl,
      if_each (Configured b ds ep) (want_comp_desc b)
          (λ w. add_comp-Configured b ds ep d behind s w) (λ w. alone d behind s w),
    )
