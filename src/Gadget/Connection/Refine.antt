-- ===== src/Gadget/Connection/Refine.antt =====
-- The four calls against what they promise: the host sees the gadget just if it is wanted and nobody
-- holds it back.
use unisoc_usb.Prelude.{
  ℕ, ◌+◌, ◌-◌, ◌≡◌, Bool, true, false, not, ◌&&◌, List, [], ◌∷◌, none, Code, ◌==◌, arith,
}
use unisoc_usb.Gadget.Connection.{
  Link, Op, set_connected, deactivate_after, gadget_deactivate, gadget_activate, count_up,
  function_deactivate, function_activate, step, run,
}

-- Whether a connection is wanted, and how many functions hold it back.
pub record Wish : Type 0 where
  pub wanted : Bool
  pub holds : ℕ

abbrev pub grant : Op → Wish → Wish
grant Op.connect w = record w { wanted = true }
grant Op.disconnect w = record w { wanted = false }
grant Op.deactivate w = record w { holds = w.holds + 1 }
grant Op.activate w = record w { holds = w.holds - 1 }

abbrev pub grant_all : List Op → Wish → Wish
grant_all [] w = w
grant_all (o ∷ os) w = grant_all os (grant o w)

abbrev pub visible : Wish → Bool
visible w = w.wanted && (w.holds == 0)

-- A link that stands for a wish.
pub record Grants (g : Link) (w : Wish) : Type 0 where
  pub wanted : g.connected ≡ w.wanted
  pub holds : g.deactivations ≡ w.holds
  pub held : g.deactivated ≡ not (w.holds == 0)
  pub seen : g.pulled_up ≡ visible w

module _ (pullup : Link → Bool → Code) where
  abbrev pub Works : Type 0
  Works = (g : Link) (on : Bool) → pullup g on ≡ none

  step-Grants :
      (o : Op) (g : Link) (w : Wish) → Works → Grants g w → Grants (step pullup o g).0 (grant o w)
  unfolding step set_connected deactivate_after gadget_deactivate gadget_activate count_up
      function_deactivate function_activate
  step-Grants Op.connect g w k r = record {
    wanted = ground (arith, r.wanted, r.holds, r.held, r.seen, k g true);
    holds = ground (arith, r.wanted, r.holds, r.held, r.seen, k g true);
    held = ground (arith, r.wanted, r.holds, r.held, r.seen, k g true);
    seen = ground (arith, r.wanted, r.holds, r.held, r.seen, k g true);
  }
  step-Grants Op.disconnect g w k r = record {
    wanted = ground (arith, r.wanted, r.holds, r.held, r.seen, k g false);
    holds = ground (arith, r.wanted, r.holds, r.held, r.seen, k g false);
    held = ground (arith, r.wanted, r.holds, r.held, r.seen, k g false);
    seen = ground (arith, r.wanted, r.holds, r.held, r.seen, k g false);
  }
  step-Grants Op.deactivate g w k r = record {
    wanted = ground (arith, r.wanted, r.holds, r.held, r.seen, k g false);
    holds = ground (arith, r.wanted, r.holds, r.held, r.seen, k g false);
    held = ground (arith, r.wanted, r.holds, r.held, r.seen, k g false);
    seen = ground (arith, r.wanted, r.holds, r.held, r.seen, k g false);
  }
  step-Grants Op.activate g w k r = record {
    wanted = ground (
      arith,
      r.wanted,
      r.holds,
      r.held,
      r.seen,
      k (record g { deactivations = g.deactivations - 1; deactivated = false }) true,
    );
    holds = ground (
      arith,
      r.wanted,
      r.holds,
      r.held,
      r.seen,
      k (record g { deactivations = g.deactivations - 1; deactivated = false }) true,
    );
    held = ground (
      arith,
      r.wanted,
      r.holds,
      r.held,
      r.seen,
      k (record g { deactivations = g.deactivations - 1; deactivated = false }) true,
    );
    seen = ground (
      arith,
      r.wanted,
      r.holds,
      r.held,
      r.seen,
      k (record g { deactivations = g.deactivations - 1; deactivated = false }) true,
    );
  }

  -- After any calls, on a controller whose pull-up works, the host sees the gadget just if the last call
  -- to connect or disconnect it wanted it seen and every deactivation has been taken back.
  pub run-Grants :
      (os : List Op) (g : Link) (w : Wish)
      → Works
      → Grants g w
      → Grants (run pullup os g) (grant_all os w)
  unfolding run
  run-Grants [] g w k r = r
  run-Grants (o ∷ os) g w k r =
      run-Grants os (step pullup o g).0 (grant o w) k (step-Grants o g w k r)
