-- ===== src/Threads/Buffer/Moves.antt =====
-- The steps of the threads of unpv13e/threads/example03.c and the facts of Defs.
use linux_practice.Base.{
  ℕ, suc, ◌+◌, ◌-◌, ◌<◌, ◌≡◌, refl, sym, ap, ◌∙◌, [], ◌∷◌, ◌++◌, length, append_assoc,
  length-append, length-set, length-replicate, arith, set, get_or,
}
use mathlib.Core.Path.{subst}
use linux_practice.Threads.Ring.{
  next, entries, next-lt, next-place, place-next, entries-set, place_zero,
}
use linux_practice.Threads.Buffer.{
  Phase, ready, moved, System, woken, Move, p_lock, p_wait, p_pass, p_put, p_fetch, p_count,
  p_signal, p_unlock, c_lock, c_wait, c_pass, c_get, c_fetch, c_count, c_signal, c_unlock, Step,
  thread, p_wakes, c_wakes, start, Reach, begin, later,
}
use linux_practice.Threads.Buffer.Defs.{below, updated, Flags, Queue, Inv}

-- The number of values in the buffer behind a step.
abbrev counts : {size nloop : ℕ} {s t : System} → Move size nloop s t → ℕ → ℕ
counts (p_put _) k = suc k
counts (c_get _) k = k - 1
counts _ k = k

Move-Flags :
    {size nloop k : ℕ} {s t : System} (mv : Move size nloop s t)
    → Flags size nloop s k
    → Flags size nloop t (counts mv k)
Move-Flags (p_lock e lt free) v = ground arith
Move-Flags (p_wait e h) v = ground arith
Move-Flags (p_pass e h) v = ground arith
Move-Flags (p_put e) v = ground arith
Move-Flags (p_fetch e) v = ground arith
Move-Flags (p_count e) v = ground arith
Move-Flags (p_signal e) v = ground arith
Move-Flags (p_unlock e) v = ground arith
Move-Flags (c_lock e lt free) v = ground arith
Move-Flags (c_wait e h) v = ground arith
Move-Flags (c_pass e h) v = ground arith
Move-Flags {s = s} (c_get e) v =
    ground (arith, length-append s.taken (get_or s.b_buf s.b_nextget 0 ∷ []))
Move-Flags (c_fetch e) v = ground arith
Move-Flags (c_count e) v = ground arith
Move-Flags (c_signal e) v = ground arith
Move-Flags (c_unlock e) v = ground arith

put_room : {size nloop k : ℕ} {s : System} → Flags size nloop s k → s.producer ≡ ready → k < size
put_room v e = ground arith

get_some : {size nloop k : ℕ} {s : System} → Flags size nloop s k → s.consumer ≡ ready → 0 < k
get_some v e = ground arith

-- A step that leaves the buffer alone keeps the queue.
same-Queue :
    {size k : ℕ} {s t : System}
    → Queue size s k
    → t.b_buf ≡ s.b_buf
    → t.b_nextget ≡ s.b_nextget
    → t.b_nextput ≡ s.b_nextput
    → t.taken ≡ s.taken
    → t.i + updated t.producer ≡ s.i + updated s.producer
    → Queue size t k
same-Queue {size} {k} q eb eg ep et ei = record {
  full_size = ap length eb ∙ q.full_size;
  get_lt = rw eg q.get_lt;
  put_at = rw (ep, eg) q.put_at;
  room = q.room;
  order = rw (et, eg, eb, ei) q.order;
}

put-Queue :
    {size nloop k : ℕ} {s : System}
    → Flags size nloop s k
    → Queue size s k
    → s.producer ≡ ready
    → Queue size
        (record s {
          b_buf = set s.b_buf s.b_nextput s.i;
          b_nextput = next size s.b_nextput;
          producer = moved;
        })
        (suc k)
put-Queue {size} {nloop} {k} {s} v q e =
    let lt = put_room v e in
    let made : s.i + updated s.producer ≡ s.i = (rw e (omega arith)) in
    let one_more : suc s.i ≡ s.i + updated moved = (omega arith) in
    record {
      full_size = length-set s.b_buf s.b_nextput s.i ∙ q.full_size;
      get_lt = q.get_lt;
      put_at = ap (next size) q.put_at ∙ next-place size s.b_nextget k q.get_lt lt;
      room = lt;
      order =
          ap (λ p. s.taken ++ entries 0 size s.b_nextget (suc k) (set s.b_buf p s.i)) q.put_at
          ∙ ap (λ l. s.taken ++ l)
              (entries-set 0 size s.b_nextget k s.i s.b_buf q.full_size q.get_lt lt)
          ∙ sym (append_assoc s.taken (entries 0 size s.b_nextget k s.b_buf) (s.i ∷ []))
          ∙ ap (λ l. l ++ s.i ∷ []) (q.order ∙ ap below made)
          ∙ ap below one_more;
    }

get-Queue :
    {size k : ℕ} {s : System}
    → Queue size s (suc k)
    → Queue size
        (record s {
          taken = s.taken ++ get_or s.b_buf s.b_nextget 0 ∷ [];
          b_nextget = next size s.b_nextget;
          consumer = moved;
        })
        k
get-Queue {size} {k} {s} q = record {
  full_size = q.full_size;
  get_lt = next-lt size s.b_nextget (omega (arith, q.get_lt));
  put_at = q.put_at ∙ sym (place-next size s.b_nextget k q.get_lt q.room);
  room = omega (arith, q.room);
  order =
      append_assoc s.taken (get_or s.b_buf s.b_nextget 0 ∷ [])
        (entries 0 size (next size s.b_nextget) k s.b_buf)
      ∙ q.order;
}

updated-woken : (p : Phase) → updated (woken p) ≡ updated p
updated-woken p = ground arith

Move-Queue :
    {size nloop k : ℕ} {s t : System} (mv : Move size nloop s t)
    → Flags size nloop s k
    → Queue size s k
    → Queue size t (counts mv k)
Move-Queue (p_lock e lt free) v q = same-Queue q refl refl refl refl (ground arith)
Move-Queue (p_wait e h) v q = same-Queue q refl refl refl refl (ground arith)
Move-Queue (p_pass e h) v q = same-Queue q refl refl refl refl (ground arith)
Move-Queue (p_put e) v q = put-Queue v q e
Move-Queue (p_fetch e) v q = same-Queue q refl refl refl refl (ground arith)
Move-Queue (p_count e) v q = same-Queue q refl refl refl refl (ground arith)
Move-Queue (p_signal e) v q = same-Queue q refl refl refl refl (ground arith)
Move-Queue (p_unlock e) v q = same-Queue q refl refl refl refl (ground arith)
Move-Queue (c_lock e lt free) v q = same-Queue q refl refl refl refl refl
Move-Queue (c_wait e h) v q = same-Queue q refl refl refl refl refl
Move-Queue (c_pass e h) v q = same-Queue q refl refl refl refl refl
Move-Queue {size} {k = k} {s = s} (c_get e) v q =
    let some_left = get_some v e in
    let e2 : k ≡ suc (k - 1) = (omega arith) in get-Queue (subst (Queue size s) e2 q)
Move-Queue (c_fetch e) v q = same-Queue q refl refl refl refl refl
Move-Queue (c_count e) v q = same-Queue q refl refl refl refl refl
Move-Queue {s = s} (c_signal e) v q =
    same-Queue q refl refl refl refl (ap (λ x. s.i + x) (updated-woken s.producer))
Move-Queue (c_unlock e) v q = same-Queue q refl refl refl refl refl

start-Inv : (size nloop : ℕ) → 0 < size → Inv size nloop (start size)
start-Inv size nloop pos = record {
  queued = 0;
  flags = record {
    owned = refl;
    exclusive = refl;
    items = refl;
    within = omega arith;
    p_knows = tt;
    c_knows = tt;
    p_sleeps = tt;
    c_sleeps = tt;
    p_rounds = omega arith;
    c_rounds = omega arith;
    started = omega arith;
  };
  queue = record {
    full_size = length-replicate {A = ℕ} size 0;
    get_lt = pos;
    put_at = sym (place_zero size 0 pos);
    room = omega arith;
    order = refl;
  };
}

Step-Inv :
    {size nloop : ℕ} {s t : System} → Inv size nloop s → Step size nloop s t → Inv size nloop t
Step-Inv v (thread mv) = record {
  queued = counts mv v.queued;
  flags = Move-Flags mv v.flags;
  queue = Move-Queue mv v.flags v.queue;
}
Step-Inv v (p_wakes e) = record {
  queued = v.queued;
  flags = (let f = v.flags in ground arith);
  queue = same-Queue v.queue refl refl refl refl (ground arith);
}
Step-Inv v (c_wakes e) = record {
  queued = v.queued;
  flags = (let f = v.flags in ground arith);
  queue = same-Queue v.queue refl refl refl refl refl;
}

pub Reach-Inv : {size nloop : ℕ} {s : System} → 0 < size → Reach size nloop s → Inv size nloop s
Reach-Inv {size} {nloop} pos begin = start-Inv size nloop pos
Reach-Inv pos (later r st) = Step-Inv (Reach-Inv pos r) st
