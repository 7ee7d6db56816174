-- ===== src/Tests/Framework.antt =====
-- A port and a pipe register that behave as the model asks: bounded queues over lists.
use aias_lab.Prelude.{
  ℕ, ◌≡◌, refl, sym, Bool, true, false, Option, none, some, List, [], ◌∷◌, ◌++◌, arith, ltb,
  if◌then◌else◌, length,
}
use mathlib.Core.List.{append-nil, append_assoc}
use aias_lab.Port.{MasterPort, SimPort}
use aias_lab.Pipe.{PipeRegister}

abbrev pub queue_push : List ℕ → ℕ → Bool × List ℕ
queue_push p x = if ltb (length p) 2 then (true, p ++ x ∷ []) else (false, p)

pub queue_accepted :
    (p : List ℕ) (x : ℕ) → (queue_push p x).0 ≡ true → (queue_push p x).1 ≡ p ++ x ∷ []
queue_accepted p x h = ground arith

pub queue_refused : (p : List ℕ) (x : ℕ) → (queue_push p x).0 ≡ false → (queue_push p x).1 ≡ p
queue_refused p x h = ground arith

-- A port with room for two packets.
abbrev pub queue_port : MasterPort
queue_port = record {
  Port = List ℕ;
  contents = λ p. p;
  push = queue_push;
  push_accepted = queue_accepted;
  push_refused = queue_refused;
}

abbrev pub queue_front : List ℕ → Option ℕ
queue_front [] = none
queue_front (x ∷ xs) = some x

abbrev pub queue_pop : List ℕ → ℕ × List ℕ
queue_pop [] = (0, [])
queue_pop (x ∷ xs) = (x, xs)

abbrev pub queue_valid : List ℕ → Bool
queue_valid [] = false
queue_valid (x ∷ xs) = true

pub front_lem : (p : List ℕ) → queue_valid p ≡ true → queue_front p ≡ some (queue_pop p).0
front_lem [] h = absurd (cc)
front_lem (x ∷ xs) h = refl

pub pop_lem : (p : List ℕ) → queue_valid p ≡ true → p ≡ (queue_pop p).0 ∷ (queue_pop p).1
pop_lem [] h = absurd (cc)
pop_lem (x ∷ xs) h = refl

abbrev pub queue_sim : SimPort
queue_sim = record {
  master = queue_port;
  is_pop_valid = queue_valid;
  front = queue_front;
  pop = queue_pop;
  front_valid = front_lem;
  pop_valid = pop_lem;
}

-- Two latches: the side that EXE writes and the side that WB reads.
pub record Latch : Type 0 where
  pub output : List ℕ
  pub input : List ℕ

abbrev pub latch_push : Latch → ℕ → Bool × Latch
latch_push r x = elim r.input [ [] ↦ (true, record r { input = x ∷ [] }) | _ ∷ _ ↦ (false, r) ]

abbrev pub latch_sync : Latch → Latch
latch_sync r = elim r.output [ [] ↦ record { output = r.input; input = [] } | _ ∷ _ ↦ r ]

pub latch_accepted :
    (o i : List ℕ) (x : ℕ)
    → (latch_push (record { output = o; input = i }) x).0 ≡ true
    → let r = (latch_push (record { output = o; input = i }) x).1 in
      r.output ++ r.input ≡ (o ++ i) ++ x ∷ []
latch_accepted o [] x h = sym (append_assoc o [] (x ∷ []))
latch_accepted o (y ∷ ys) x h = absurd (cc)

pub latch_refused :
    (o i : List ℕ) (x : ℕ)
    → (latch_push (record { output = o; input = i }) x).0 ≡ false
    → let r = (latch_push (record { output = o; input = i }) x).1 in r.output ++ r.input ≡ o ++ i
latch_refused o [] x h = absurd (cc)
latch_refused o (y ∷ ys) x h = refl

pub latch_pop_lem :
    (o i : List ℕ) → queue_valid o ≡ true → o ++ i ≡ (queue_pop o).0 ∷ ((queue_pop o).1 ++ i)
latch_pop_lem [] i h = absurd (cc)
latch_pop_lem (x ∷ xs) i h = refl

pub latch_sync_lem :
    (o i : List ℕ)
    → let r = latch_sync (record { output = o; input = i }) in r.output ++ r.input ≡ o ++ i
latch_sync_lem [] i = append-nil i
latch_sync_lem (x ∷ xs) i = refl

abbrev pub latches : PipeRegister
latches = record {
  Reg = Latch;
  held = λ r. r.output ++ r.input;
  push = latch_push;
  is_stalled = λ r. false;
  is_valid = λ r. queue_valid r.output;
  pop = λ r. ((queue_pop r.output).0, record r { output = (queue_pop r.output).1 });
  sync = latch_sync;
  clear_stall_flag = λ r. r;
  push_accepted = λ r x h. latch_accepted r.output r.input x h;
  push_refused = λ r x h. latch_refused r.output r.input x h;
  pop_valid = λ r h. latch_pop_lem r.output r.input h;
  held-sync = λ r. latch_sync_lem r.output r.input;
  held-clear_stall_flag = λ r. refl;
}
