-- ===== src/Pipe.antt =====
-- The SimPipeRegister of ACALSim between two stages, a parameter: its operations, and of their
-- behaviour only that a register neither loses, nor invents, nor reorders packets. `push` answers
-- whether the packet was taken.
use aias_lab.Prelude.{ℕ, ◌≡◌, Bool, true, false, List, [], ◌∷◌, ◌++◌}

pub record PipeRegister : Type 1 where
  pub Reg : Type 0
  -- The pointers of the packets inside, oldest first.
  pub held : Reg → List ℕ
  pub push : Reg → ℕ → Bool × Reg
  pub is_stalled : Reg → Bool
  pub is_valid : Reg → Bool
  pub pop : Reg → ℕ × Reg
  pub sync : Reg → Reg
  pub clear_stall_flag : Reg → Reg
  pub push_accepted : (r : Reg) (x : ℕ) → (push r x).0 ≡ true → held (push r x).1 ≡ held r ++ x ∷ []
  pub push_refused : (r : Reg) (x : ℕ) → (push r x).0 ≡ false → held (push r x).1 ≡ held r
  pub pop_valid : (r : Reg) → is_valid r ≡ true → held r ≡ (pop r).0 ∷ held (pop r).1
  pub held-sync : (r : Reg) → held (sync r) ≡ held r
  pub held-clear_stall_flag : (r : Reg) → held (clear_stall_flag r) ≡ held r
