-- ===== src/SigIo/Entries.antt =====
-- The array of datagrams of unpv13e/sigio/dgecho01.c as a ring.
use linux_practice.Base.{
  ℕ, suc, ◌≤◌, ◌<◌, ◌≡◌, sym, ap, ◌∙◌, List, [], ◌∷◌, ◌++◌, map, length, set, get_or, append_assoc,
  length-set, arith,
}
use mathlib.Core.List.{map-append}
use linux_practice.Threads.Ring.{next, place, entries, next-lt, next-place, place-next, entries-set}
use linux_practice.SigIo.{Dg, no_dg, truncated}

-- The ring holds `k` datagrams from `i` on.
pub record Ring (size i iput k : ℕ) (dg echoed socket arrived : List Dg) : Type 0 where
  pub full_size : length dg ≡ size
  pub head_lt : i < size
  pub put_at : iput ≡ place size i k
  pub order : echoed ++ (entries no_dg size i k dg ++ map truncated socket) ≡ map truncated arrived

module _ {size i iput k : ℕ} {dg echoed socket arrived : List Dg} where
  pub arrive-Ring :
      (d : Dg)
      → Ring size i iput k dg echoed socket arrived
      → Ring size i iput k dg echoed (socket ++ d ∷ []) (arrived ++ d ∷ [])
  arrive-Ring d q = record {
    full_size = q.full_size;
    head_lt = q.head_lt;
    put_at = q.put_at;
    order = simp (map-append, ← q.order, append_assoc);
  }

  pub read-Ring :
      (d : Dg)
      → Ring size i iput k dg echoed (d ∷ socket) arrived
      → k < size
      → Ring size i (next size iput) (suc k) (set dg iput (truncated d)) echoed socket arrived
  read-Ring d q lt = record {
    full_size = length-set dg iput (truncated d) ∙ q.full_size;
    head_lt = q.head_lt;
    put_at = ap (next size) q.put_at ∙ next-place size i k q.head_lt lt;
    order =
        ap
          (λ p.
            echoed
            ++ (entries no_dg size i (suc k) (set dg p (truncated d)) ++ map truncated socket))
          q.put_at
        ∙ ap (λ l. echoed ++ (l ++ map truncated socket))
            (entries-set no_dg size i k (truncated d) dg q.full_size q.head_lt lt)
        ∙ ap (λ l. echoed ++ l)
            (append_assoc (entries no_dg size i k dg) (truncated d ∷ []) (map truncated socket))
        ∙ q.order;
  }

  pub send-Ring :
      Ring size i iput (suc k) dg echoed socket arrived
      → suc k ≤ size
      → Ring size (next size i) iput k dg (echoed ++ get_or dg i no_dg ∷ []) socket arrived
  send-Ring q le = record {
    full_size = q.full_size;
    head_lt = next-lt size i (omega (arith, q.head_lt));
    put_at = q.put_at ∙ sym (place-next size i k q.head_lt le);
    order =
        append_assoc echoed (get_or dg i no_dg ∷ [])
          (entries no_dg size (next size i) k dg ++ map truncated socket)
        ∙ q.order;
  }
