-- ===== src/Nonblock/Web/Turns.antt =====
-- A turn of the main loop of unpv13e/nonblock/web.c.
use linux_practice.Base.{
  ℕ, suc, ◌+◌, ◌<◌, ◌≡◌, ◌≢◌, refl, inl, inr, Option, some, none, List, [], ◌∷◌, arith,
}
use linux_practice.Nonblock.Web.{
  File, Globals, Start, impossible, Ready, connect_more, serve, served, turn,
}
use linux_practice.Nonblock.Web.Counts.{waiting, open_now, unread, total, Inv, serve-Serves}
use linux_practice.Nonblock.Web.Connects.{Connects, connect_more-Connects}

-- The counters of web.c count what they are said to, through every turn of the loop: unless a connect
-- fails at once, a turn does not end the process ("nothing found" is never met), and behind it
-- nlefttoconn, nconn and nlefttoread are the numbers of the files that are not started, on a
-- connection, and not read to the end, with at most maxnconn connections.
pub turn-Inv :
    (maxnconn : ℕ) (calls : ℕ → Start) (t : Ready) (fs : List File) (g : Globals)
    → ((m fd : ℕ) → calls m ≢ impossible fd)
    → Inv maxnconn (fs, g)
    → (r : List File × Globals) × (turn maxnconn calls t (fs, g) ≡ some r) × Inv maxnconn r
unfolding turn
turn-Inv maxnconn calls t fs g p v =
    after (connect_more maxnconn calls (suc g.nlefttoconn) (fs, g))
      (connect_more-Connects maxnconn calls (suc g.nlefttoconn) fs g p v (omega arith))
  where
    after :
        (o : Option (List File × Globals))
        → Connects maxnconn g o
        → (r : List File × Globals) × (served t o ≡ some r) × Inv maxnconn r
    after none c = absurd c
    after (some (fs', g')) (v', e, d) =
        let (a, b, c, f, h) =
          serve-Serves t fs' g' (omega (arith, v'.open_conns)) (omega (arith, v'.to_read)) in
        (
          serve t fs' g',
          refl,
          record {
            to_conn = omega (arith, v'.to_conn);
            open_conns = omega (arith, v'.open_conns);
            to_read = omega (arith, v'.to_read);
            few = omega (arith, v'.few);
          },
        )

-- The client does not wait for nothing: with files left to read and maxnconn not 0, when the loop that
-- starts connections is over at least one connection is open for select to wait on.
connect_more-busy :
    (maxnconn : ℕ) (calls : ℕ → Start) (fs : List File) (g : Globals)
    → ((m fd : ℕ) → calls m ≢ impossible fd)
    → Inv maxnconn (fs, g)
    → 0 < maxnconn
    → 0 < g.nlefttoread
    → (r : List File × Globals) × (connect_more maxnconn calls (suc g.nlefttoconn) (fs, g) ≡ some r)
      × (0 < r.1.nconn)
connect_more-busy maxnconn calls fs g p v pos left =
    after (connect_more maxnconn calls (suc g.nlefttoconn) (fs, g))
      (connect_more-Connects maxnconn calls (suc g.nlefttoconn) fs g p v (omega arith))
  where
    unread-total : (l : List File) → total unread l ≡ total waiting l + total open_now l
    unread-total [] = refl
    unread-total (f ∷ l) = let h = unread-total l in ground arith

    after :
        (o : Option (List File × Globals))
        → Connects maxnconn g o
        → (r : List File × Globals) × (o ≡ some r) × (0 < r.1.nconn)
    after none c = absurd c
    after (some r) (v', e, inl full) = (r, refl, omega arith)
    after (some r) (v', e, inr done) =
        (r, refl, omega (arith, unread-total r.0, v'.to_read, v'.to_conn, v'.open_conns))
