-- ===== src/Threads/Counter/Locked.antt =====
-- What the mutex of unpv13e/threads/example02.c keeps in every state: one thread at most is inside.
use linux_practice.Base.{
  ℕ, zero, suc, ◌+◌, ◌*◌, ◌≤◌, ◌<◌, ◌≡◌, refl, ap, ◌∙◌, Bool, true, false, ◌||◌, ◌&&◌, List, [],
  ◌∷◌, ◌++◌, arith,
}
use linux_practice.Threads.Counter.{
  Phase, outside, inside, fetched, shown, stored, Thread, Shared, Move, lock, fetch, print, store,
  unlock, start,
}

-- 1, 2, ... , n
abbrev pub upto : ℕ → List ℕ
upto zero = []
upto (suc n) = upto n ++ suc n ∷ []

-- The list `l` is 1, 2, ... , n.
pub record Told (l : List ℕ) (n : ℕ) : Type 0 where
  pub list : l ≡ upto n

pub retold : {l : List ℕ} {n k : ℕ} → Told l n → n ≡ k → Told l k
retold h e = record { list = h.list ∙ ap upto e }

Told-append : {l : List ℕ} {n k v : ℕ} → Told l n → n ≡ v → k ≡ suc v → Told (l ++ suc v ∷ []) k
Told-append h e f = record { list = rw (f, h.list, e) refl }

-- Whether a thread holds the mutex.
abbrev pub holds : Phase → Bool
holds outside = false
holds _ = true

abbrev has_stored : Phase → ℕ
has_stored stored = 1
has_stored _ = 0

abbrev has_shown : Phase → ℕ
has_shown (shown _) = 1
has_shown _ = 0

-- The steps of the round that are done.
abbrev pub done : Phase → ℕ
done outside = 0
done inside = 1
done (fetched _) = 2
done (shown _) = 3
done stored = 4

-- What a thread knows of the counter.
abbrev Knows : ℕ → Phase → Type 0
Knows counter (fetched v) = v ≡ counter
Knows counter (shown v) = v ≡ counter
Knows counter _ = Unit

-- A thread in its loop has a round to do.
abbrev pub InLoop : ℕ → Thread → Type 0
InLoop nloop t = (t.i ≤ nloop) × (holds t.phase ≡ true → t.i < nloop)

pub record Inv (nloop k : ℕ) (m : Shared) (a b : Thread) : Type 0 where
  pub owned : m.locked ≡ (holds a.phase || holds b.phase)
  pub exclusive : (holds a.phase && holds b.phase) ≡ false
  pub counted : m.counter ≡ a.i + b.i + has_stored a.phase + has_stored b.phase
  pub told : Told m.printed (m.counter + has_shown a.phase + has_shown b.phase)
  pub knows_a : Knows m.counter a.phase
  pub knows_b : Knows m.counter b.phase
  pub in_loop_a : InLoop nloop a
  pub in_loop_b : InLoop nloop b
  pub steps : k ≡ 5 * (a.i + b.i) + done a.phase + done b.phase

pub start-Inv : (nloop : ℕ) → Inv nloop 0 start.mem start.a start.b
start-Inv nloop = record {
  owned = refl;
  exclusive = refl;
  counted = refl;
  told = record { list = refl };
  knows_a = tt;
  knows_b = tt;
  in_loop_a = (omega arith, λ h. cc);
  in_loop_b = (omega arith, λ h. cc);
  steps = refl;
}

pub swap-Inv : (nloop k : ℕ) (m : Shared) (a b : Thread) → Inv nloop k m a b → Inv nloop k m b a
swap-Inv nloop k m a b v = record {
  owned = ground (arith, v.owned);
  exclusive = ground (arith, v.exclusive);
  counted = omega (arith, v.counted);
  told = retold v.told (omega arith);
  knows_a = v.knows_b;
  knows_b = v.knows_a;
  in_loop_a = v.in_loop_b;
  in_loop_b = v.in_loop_a;
  steps = omega (arith, v.steps);
}

-- A thread that holds the mutex holds it alone.
alone :
    (nloop k : ℕ) (m : Shared) (a b : Thread)
    → Inv nloop k m a b
    → holds a.phase ≡ true
    → b.phase ≡ outside
alone nloop k m a b v h = let e = v.exclusive in ground arith

pub Move-Inv :
    {nloop k : ℕ} {m m' : Shared} {a a' b : Thread}
    → Inv nloop k m a b
    → Move nloop m a m' a'
    → Inv nloop (suc k) m' a' b
Move-Inv {nloop} {k} {m} {m'} {a} {a'} {b} v (lock lt free) = record {
  owned = refl;
  exclusive = (let e = v.owned in ground arith);
  counted = v.counted;
  told = v.told;
  knows_a = tt;
  knows_b = v.knows_b;
  in_loop_a = (omega arith, λ h. lt);
  in_loop_b = v.in_loop_b;
  steps = omega (arith, v.steps);
}
Move-Inv {nloop} {k} {m} {m'} {a} {a'} {b} v fetch = record {
  owned = v.owned;
  exclusive = v.exclusive;
  counted = v.counted;
  told = v.told;
  knows_a = refl;
  knows_b = v.knows_b;
  in_loop_a = v.in_loop_a;
  in_loop_b = v.in_loop_b;
  steps = omega (arith, v.steps);
}
Move-Inv {nloop} {k} {m} {m'} {a} {a'} {b} v print =
    let e = alone nloop k m a b v refl in
    record {
      owned = v.owned;
      exclusive = v.exclusive;
      counted = v.counted;
      told = Told-append v.told (rw e (omega (arith, v.knows_a))) (rw e (omega (arith, v.knows_a)));
      knows_a = v.knows_a;
      knows_b = v.knows_b;
      in_loop_a = v.in_loop_a;
      in_loop_b = v.in_loop_b;
      steps = omega (arith, v.steps);
    }
Move-Inv {nloop} {k} {m} {m'} {a} {a'} {b} v store =
    let e = alone nloop k m a b v refl in
    record {
      owned = v.owned;
      exclusive = v.exclusive;
      counted = omega (arith, v.counted, v.knows_a);
      told = retold v.told (omega (arith, v.knows_a));
      knows_a = tt;
      knows_b = rw e tt;
      in_loop_a = v.in_loop_a;
      in_loop_b = v.in_loop_b;
      steps = omega (arith, v.steps);
    }
Move-Inv {nloop} {k} {m} {m'} {a} {a'} {b} v unlock =
    let e = alone nloop k m a b v refl in
    record {
      owned = rw e refl;
      exclusive = refl;
      counted = omega (arith, v.counted);
      told = v.told;
      knows_a = tt;
      knows_b = v.knows_b;
      in_loop_a = (v.in_loop_a.1 refl, λ h. cc);
      in_loop_b = v.in_loop_b;
      steps = omega (arith, v.steps);
    }
