-- ===== src/Nonblock/Web/Connects.antt =====
-- The loop of unpv13e/nonblock/web.c that starts connections.
use linux_practice.Base.{
  ℕ, zero, suc, ◌≤◌, ◌<◌, ◌≡◌, ◌≢◌, refl, ◌⊎◌, Bool, true, false, ◌&&◌, Option, some, none, List,
  [], ◌∷◌, ltb, positive, arith,
}
use linux_practice.Nonblock.Web.{
  File, Globals, Start, in_progress, connected, impossible, write_get_cmd, start_connect, is_fresh,
  with_file, behind, start_first, counted, and_then, connect_more,
}
use linux_practice.Nonblock.Web.Counts.{waiting, open_now, unread, total, Inv}

-- A start makes one connection of a file that waited.
abbrev Starts : List File → Globals → Option (List File × Globals) → Type 0
Starts fs g none = ⊥
Starts fs g (some (fs', g')) =
    (suc (total waiting fs') ≡ total waiting fs)
    × (total open_now fs' ≡ suc (total open_now fs))
    × (total unread fs' ≡ total unread fs)
    × (g'.nconn ≡ g.nconn)
    × (g'.nlefttoconn ≡ g.nlefttoconn)
    × (g'.nlefttoread ≡ g.nlefttoread)

start_here :
    (c : Start) (f : File) (fs : List File) (g : Globals)
    → ((fd : ℕ) → c ≢ impossible fd)
    → is_fresh f.f_flags ≡ true
    → Starts (f ∷ fs) g (with_file fs (start_connect c (f, g)))
unfolding start_connect write_get_cmd
start_here (in_progress fd) f fs g p h = ground arith
start_here (connected fd) f fs g p h = ground arith
start_here (impossible fd) f fs g p h = p fd refl

start_behind :
    (f : File) (fs : List File) (g : Globals) (o : Option (List File × Globals))
    → is_fresh f.f_flags ≡ false
    → Starts fs g o
    → Starts (f ∷ fs) g (behind f o)
start_behind f fs g none h s = s
start_behind f fs g (some (fs', g')) h s = ground arith

start_first-Starts :
    (c : Start) (fs : List File) (g : Globals)
    → ((fd : ℕ) → c ≢ impossible fd)
    → 0 < total waiting fs
    → Starts fs g (start_first c fs g)
unfolding start_first
start_first-Starts c [] g p h = absurd (omega arith)
start_first-Starts c (f ∷ fs) g p h =
    by_flag (is_fresh f.f_flags) refl (λ k. start_first-Starts c fs g p k)
  where
    by_flag :
        (b : Bool)
        → is_fresh f.f_flags ≡ b
        → (0 < total waiting fs → Starts fs g (start_first c fs g))
        → Starts (f ∷ fs) g (elim b [
          | true ↦ with_file fs (start_connect c (f, g))
          | false ↦ behind f (start_first c fs g)
        ])
    by_flag true e ih = start_here c f fs g p e
    by_flag false e ih = start_behind f fs g (start_first c fs g) e (ih (ground arith))

-- The loop that starts connections: it ends, keeps the counters, and stops only with maxnconn
-- connections or with no file left.
abbrev pub Connects : ℕ → Globals → Option (List File × Globals) → Type 0
Connects maxnconn g none = ⊥
Connects maxnconn g (some r) =
    Inv maxnconn r
    × (r.1.nlefttoread ≡ g.nlefttoread)
    × ((maxnconn ≤ r.1.nconn) ⊎ (r.1.nlefttoconn ≡ 0))

counted-Inv :
    {maxnconn : ℕ} {fs : List File} {g : Globals} (fs' : List File) (g' : Globals)
    → Inv maxnconn (fs, g)
    → Starts fs g (some (fs', g'))
    → g.nconn < maxnconn
    → Inv maxnconn (counted (fs', g'))
counted-Inv fs' g' v s lt = record {
  to_conn = omega arith;
  open_conns = omega arith;
  to_read = omega arith;
  few = omega arith;
}

pub connect_more-Connects :
    (maxnconn : ℕ) (calls : ℕ → Start) (fuel : ℕ) (fs : List File) (g : Globals)
    → ((m fd : ℕ) → calls m ≢ impossible fd)
    → Inv maxnconn (fs, g)
    → g.nlefttoconn < fuel
    → Connects maxnconn g (connect_more maxnconn calls fuel (fs, g))
unfolding connect_more
connect_more-Connects maxnconn calls zero fs g p v h = absurd (omega arith)
connect_more-Connects maxnconn calls (suc fuel) fs g p v h =
    by_test (ltb g.nconn maxnconn && positive g.nlefttoconn) refl
      (λ fs' g' v' h'. connect_more-Connects maxnconn calls fuel fs' g' p v' h')
  where
    Rest : Type 0
    Rest =
        (fs' : List File) (g' : Globals)
        → Inv maxnconn (fs', g')
        → g'.nlefttoconn < fuel
        → Connects maxnconn g' (connect_more maxnconn calls fuel (fs', g'))

    go_on :
        (o : Option (List File × Globals))
        → Rest
        → g.nconn < maxnconn
        → 0 < g.nlefttoconn
        → Starts fs g o
        → Connects maxnconn g (and_then o (connect_more maxnconn calls fuel))
    go_on none ih lt pos s = s
    go_on (some (fs', g')) ih lt pos s =
        same_read (connect_more maxnconn calls fuel (counted (fs', g')))
          (ih (counted (fs', g')).0 (counted (fs', g')).1 (counted-Inv fs' g' v s lt) (omega arith))
      where
        same_read :
            (o : Option (List File × Globals))
            → Connects maxnconn (counted (fs', g')).1 o
            → Connects maxnconn g o
        same_read none c = c
        same_read (some r) (v', e, d) = (v', omega arith, d)

    by_test :
        (b : Bool)
        → ltb g.nconn maxnconn && positive g.nlefttoconn ≡ b
        → Rest
        → Connects maxnconn g (elim b [
          | true ↦
              and_then (start_first (calls g.nlefttoconn) fs g) (connect_more maxnconn calls fuel)
          | false ↦ some (fs, g)
        ])
    by_test true e ih =
        let pos : 0 < g.nlefttoconn = (ground arith) in
        go_on (start_first (calls g.nlefttoconn) fs g) ih (ground arith) pos (
          start_first-Starts (calls g.nlefttoconn) fs g (p g.nlefttoconn)
            (omega (arith, v.to_conn)))
    by_test false e ih = (v, refl, ground arith)
