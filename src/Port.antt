-- ===== src/Port.antt =====
-- The SimPort between the CPU's simulator and the IF stage ("sIF-m" to "soc-s"). It belongs to the
-- ACALSim framework, which is a parameter here: an abstract state and `push`, and of its behaviour
-- only what the CPU relies on. `push` returns true and the packet waits behind the earlier ones,
-- or it returns false (backpressure) and nothing is enqueued.
use aias_lab.Prelude.{ℕ, ◌≡◌, Bool, true, false, Option, some, List, [], ◌∷◌, ◌++◌}

pub record MasterPort : Type 1 where
  pub Port : Type 0
  -- The pointers of the packets that are pushed and not yet taken, oldest first.
  pub contents : Port → List ℕ
  pub push : Port → ℕ → Bool × Port
  pub push_accepted :
      (p : Port) (x : ℕ) → (push p x).0 ≡ true → contents (push p x).1 ≡ contents p ++ x ∷ []
  pub push_refused : (p : Port) (x : ℕ) → (push p x).0 ≡ false → contents (push p x).1 ≡ contents p

-- Both ends of the port: with the slave end, from which the IF stage takes its packets. `front` is
-- a pointer that may be null. A valid port hands out its oldest packet.
pub record SimPort : Type 1 where
  pub master : MasterPort
  pub open master use *
  pub is_pop_valid : Port → Bool
  pub front : Port → Option ℕ
  pub pop : Port → ℕ × Port
  pub front_valid : (p : Port) → is_pop_valid p ≡ true → front p ≡ some (pop p).0
  pub pop_valid : (p : Port) → is_pop_valid p ≡ true → contents p ≡ (pop p).0 ∷ contents (pop p).1
