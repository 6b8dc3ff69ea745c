-- ===== src/Gadget/Endpoints/Claims.antt =====
-- An endpoint is claimed by at most one descriptor.
use unisoc_usb.Prelude.{
  ℕ, zero, suc, ◌<◌, ◌≡◌, ◌≢◌, refl, ap, subst, ◌&&◌, inl, inr, Bool, true, false, List, [], ◌∷◌,
  Option, none, some, if_each, if_both, option_each, arith, get_elem?, map, set, length, All,
  All_weaken, get_elem?-set_self, if◌then◌else◌, Bool-cases, ◌==◌,
}
use unisoc_usb.Gadget.Speeds.{Bus}
use unisoc_usb.Gadget.Endpoints.Match.{match_desc_iff}
use unisoc_usb.Gadget.Endpoints.{
  EpDesc, UsbEp, EpGadget, match_desc, matches_at, match_ep, first_match, choose, claimed_as,
  report_address, Choice, found_ep, autoconfig_ss, autoconfig_reset, endpoint_type, xfer_int,
  xfer_bulk, dir_in,
}

-- Whether the endpoint at a place is claimed.
abbrev pub claimed_at : List UsbEp → ℕ → Bool
claimed_at eps i = elim (get_elem? eps i) [ none ↦ false | some ep ↦ ep.claimed ]

-- A request for an endpoint: the place to which the uninitialised pointer refers, the descriptor and
-- the attributes of its companion.
pub record Ask : Type 0 where
  pub unset : ℕ
  pub desc : EpDesc
  pub comp : Option ℕ

abbrev pub answer : EpGadget → Ask → Choice
answer g a = autoconfig_ss a.unset g a.desc a.comp

-- A sequence of requests: the gadget after it.
unfoldable pub asked : EpGadget → List Ask → EpGadget
asked g [] = g
asked g (a ∷ later) = asked (answer g a).gadget later

abbrev pub with_place : Option ℕ → List ℕ → List ℕ
with_place none is = is
with_place (some i) is = i ∷ is

-- The places of the endpoints that are returned.
unfoldable pub answers : EpGadget → List Ask → List ℕ
answers g [] = []
answers g (a ∷ later) = with_place (answer g a).ep (answers (answer g a).gadget later)

abbrev pub Distinct : List ℕ → Type 0
Distinct [] = Unit
Distinct (i ∷ is) = All (λ (j : ℕ). i ≢ j) is × Distinct is

-- The endpoint at this place matched: it is there, and what `match_desc` says of it.
abbrev pub Matched : EpGadget → EpDesc → Option ℕ → Option ℕ → Type 0
Matched g d comp none = Unit
Matched g d comp (some i) = matches_at g d comp i ≡ true

first_match-Matched :
    (b : Bus) (n m : ℕ) (eps : List UsbEp) (d : EpDesc) (comp : Option ℕ)
    → Matched
        (record { bus = b; ep_list = eps; in_epnum = n; out_epnum = m })
        d
        comp
        (first_match b eps d comp)
unfolding first_match
first_match-Matched b n m [] d comp = tt
first_match-Matched b n m (ep ∷ eps) d comp =
    if_each (Matched (record { bus = b; ep_list = ep ∷ eps; in_epnum = n; out_epnum = m }) d comp)
      (match_desc b ep d comp) (λ e. e)
      λ e. later (first_match b eps d comp) (first_match-Matched b n m eps d comp)
  where
    later :
        (o : Option ℕ)
        → Matched (record { bus = b; ep_list = eps; in_epnum = n; out_epnum = m }) d comp o
        → Matched
            (record { bus = b; ep_list = ep ∷ eps; in_epnum = n; out_epnum = m })
            d
            comp
            (elim o [ none ↦ none | some i ↦ some (suc i) ])
    later none h = h
    later (some i) h = h

match_ep-Matched :
    (unset : ℕ) (g : EpGadget) (d : EpDesc) (comp : Option ℕ)
    → Matched g d comp (match_ep unset g d comp)
unfolding match_ep
match_ep-Matched unset g d comp =
    if_both (Matched g d comp) (endpoint_type d == xfer_int) tried
      (if_both (Matched g d comp) (endpoint_type d == xfer_bulk && dir_in d) {y = none} tried tt)
  where
    tried : Matched g d comp (if matches_at g d comp unset then some unset else none)
    tried = if_each (Matched g d comp) (matches_at g d comp unset) (λ e. e) (λ e. tt)

choose-Matched :
    (unset : ℕ) (g : EpGadget) (d : EpDesc) (comp : Option ℕ)
    → Matched g d comp (choose unset g d comp)
unfolding choose
choose-Matched unset g d comp =
    option_each (Matched g d comp) (match_ep unset g d comp)
      {x = first_match g.bus g.ep_list d comp} {f = λ i. some i}
      (λ e. first_match-Matched g.bus g.in_epnum g.out_epnum g.ep_list d comp)
      (λ i e. subst (Matched g d comp) e (match_ep-Matched unset g d comp))

-- What a request does to the endpoints: nothing, or it claims one that nobody had claimed.
pub data Took (eps : List UsbEp) (c : Choice) : Type 0 where
  missed : c.ep ≡ none → c.gadget.ep_list ≡ eps → Took eps c
  took :
      (i : ℕ) (old ep : UsbEp)
      → c.ep ≡ some i
      → get_elem? eps i ≡ some old
      → ep.name ≡ old.name
      → i < length eps
      → claimed_at eps i ≡ false
      → ep.claimed ≡ true
      → c.gadget.ep_list ≡ set eps i ep
      → Took eps c

report_address_keeps :
    (g : EpGadget) (ep : UsbEp) (d : EpDesc) → (report_address g ep d).0.ep_list ≡ g.ep_list
unfolding report_address
report_address_keeps g ep d = ground arith

found_ep-Took :
    (eps : List UsbEp) (i : ℕ) (ep : UsbEp) (d : EpDesc) (comp : Option ℕ) (r : EpGadget × Option ℕ)
    → r.0.ep_list ≡ eps
    → i < length eps
    → claimed_at eps i ≡ false
    → get_elem? eps i ≡ some ep
    → Took eps (found_ep i ep d comp r)
unfolding found_ep
found_ep-Took eps i ep d comp (g, none) e b f l = missed refl e
found_ep-Took eps i ep d comp (g, some address) e b f l =
    took i ep (claimed_as ep address) refl l refl b f refl
      (ap (λ l. set l i (claimed_as ep address)) e)

-- An endpoint that matches is on the list, and unclaimed.
matched_free :
    (b : Bus) (n m : ℕ) (eps : List UsbEp) (d : EpDesc) (comp : Option ℕ) (i : ℕ)
    → matches_at (record { bus = b; ep_list = eps; in_epnum = n; out_epnum = m }) d comp i ≡ true
    → (i < length eps) × (claimed_at eps i ≡ false)
matched_free b n m [] d comp i h = absurd (ground (arith, h))
matched_free b n m (ep ∷ eps) d comp zero h =
    (omega arith, ((match_desc_iff b ep d comp).0 h).unclaimed)
matched_free b n m (ep ∷ eps) d comp (suc i) h =
    let rest = matched_free b n m eps d comp i h in (omega (arith, rest.0), rest.1)

pub answer-Took : (g : EpGadget) (a : Ask) → Took g.ep_list (answer g a)
unfolding autoconfig_ss
answer-Took g a =
    option_each (Took g.ep_list) (choose a.unset g a.desc a.comp) (λ e. missed refl refl)
      λ i e.
        option_each (Took g.ep_list) (get_elem? g.ep_list i) (λ l. missed refl refl)
          λ ep l.
            let free =
              matched_free g.bus g.in_epnum g.out_epnum g.ep_list a.desc a.comp i
                (subst (Matched g a.desc a.comp) e (choose-Matched a.unset g a.desc a.comp)) in
            found_ep-Took g.ep_list i ep a.desc a.comp (report_address g ep a.desc)
              (report_address_keeps g ep a.desc) free.0 free.1 l

-- Claims stay.
claimed_at-set :
    (eps : List UsbEp) (i j : ℕ) (ep : UsbEp)
    → ep.claimed ≡ true
    → claimed_at eps j ≡ true
    → claimed_at (set eps i ep) j ≡ true
claimed_at-set [] i j ep c h = h
claimed_at-set (x ∷ xs) zero zero ep c h = c
claimed_at-set (x ∷ xs) zero (suc j) ep c h = h
claimed_at-set (x ∷ xs) (suc i) zero ep c h = h
claimed_at-set (x ∷ xs) (suc i) (suc j) ep c h = claimed_at-set xs i j ep c h

claimed_at_kept :
    (eps : List UsbEp) (c : Choice) (j : ℕ)
    → Took eps c
    → claimed_at eps j ≡ true
    → claimed_at c.gadget.ep_list j ≡ true
claimed_at_kept eps c j (missed n e) h = rw e h
claimed_at_kept eps c j (took i old ep n l s b f t e) h = rw e (claimed_at-set eps i j ep t h)

claimed_at-asked :
    (g : EpGadget) (requests : List Ask) (j : ℕ)
    → claimed_at g.ep_list j ≡ true
    → claimed_at (asked g requests).ep_list j ≡ true
unfolding asked
claimed_at-asked g [] j h = h
claimed_at-asked g (a ∷ later) j h =
    claimed_at-asked (answer g a).gadget later j
      (claimed_at_kept g.ep_list (answer g a) j (answer-Took g a) h)

-- The endpoints of these places were free before, are claimed after, and are different ones.
pub record AreClaimed (before after : List UsbEp) (is : List ℕ) : Type 0 where
  pub free : All (λ i. claimed_at before i ≡ false) is
  pub claimed : All (λ i. claimed_at after i ≡ true) is
  pub apart : Distinct is

claimed_at-set_self :
    (eps : List UsbEp) (i : ℕ) (ep : UsbEp)
    → i < length eps
    → ep.claimed ≡ true
    → claimed_at (set eps i ep) i ≡ true
claimed_at-set_self eps i ep b t = rw (claimed_at, get_elem?-set_self eps i ep b) t

step-AreClaimed :
    (eps after : List UsbEp) (c : Choice) (is : List ℕ)
    → Took eps c
    → ((j : ℕ) → claimed_at c.gadget.ep_list j ≡ true → claimed_at after j ≡ true)
    → AreClaimed c.gadget.ep_list after is
    → AreClaimed eps after (with_place c.ep is)
step-AreClaimed eps after c is (missed n e) keep r = rw n (subst (λ l. AreClaimed l after is) e r)
step-AreClaimed eps after c is (took i old ep n l s b f t e) keep r = rw n (record {
  free = (f, All_weaken is was_free r.free);
  claimed = (keep i is_claimed, r.claimed);
  apart = (All_weaken is not_this r.free, r.apart);
})
  where
    is_claimed : claimed_at c.gadget.ep_list i ≡ true
    is_claimed = rw e (claimed_at-set_self eps i ep b t)

    was_free : (j : ℕ) → claimed_at c.gadget.ep_list j ≡ false → claimed_at eps j ≡ false
    was_free j h = elim (Bool-cases (claimed_at eps j)) [
      | inl y ↦
          absurd (ground (arith, y, h, claimed_at_kept eps c j (took i old ep n l s b f t e) y))
      | inr free ↦ free
    ]

    not_this : (j : ℕ) → claimed_at c.gadget.ep_list j ≡ false → i ≢ j
    not_this j h same = absurd (ground (arith, h, is_claimed, same))

-- However often endpoints are asked for, each one that is returned was unclaimed before, is claimed
-- afterwards, and is returned once.
pub asked-AreClaimed :
    (g : EpGadget) (requests : List Ask)
    → AreClaimed g.ep_list (asked g requests).ep_list (answers g requests)
unfolding asked answers
asked-AreClaimed g [] = record { free = tt; claimed = tt; apart = tt }
asked-AreClaimed g (a ∷ later) =
    step-AreClaimed g.ep_list (asked (answer g a).gadget later).ep_list (answer g a)
      (answers (answer g a).gadget later) (answer-Took g a)
      (claimed_at-asked (answer g a).gadget later) (asked-AreClaimed (answer g a).gadget later)

-- After a reset no endpoint is claimed.
autoconfig_reset_claims :
    (eps : List UsbEp) (g : EpGadget) (i : ℕ)
    → g.ep_list ≡ eps
    → claimed_at (autoconfig_reset g).ep_list i ≡ false
unfolding autoconfig_reset
autoconfig_reset_claims eps g i e = rw e (cleared eps i)
  where
    cleared :
        (eps : List UsbEp) (i : ℕ)
        → claimed_at (map (λ (ep : UsbEp). record ep { claimed = false; driver_data = none }) eps) i
          ≡ false
    cleared [] i = refl
    cleared (ep ∷ eps) zero = refl
    cleared (ep ∷ eps) (suc i) = cleared eps i
