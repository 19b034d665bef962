-- ===== src/Threads/Web/Counts.antt =====
-- What the counters of unpv13e/threads/web03.c count.
use linux_practice.Base.{
  ℕ, zero, suc, ◌+◌, ◌-◌, ◌≤◌, ◌<◌, ◌≡◌, ◌≢◌, refl, sym, ap, arith, ◌==◌, Bool-cases, inl, inr,
}
use linux_practice.Threads.Pool.{update}
use linux_practice.Threads.Web.{
  Phase, absent, connecting, reading, marked, locked, counted, signalled, finished, joined,
  MainPhase, top, starting, locking, testing, asleep, scanning, joining, exited, quit, Owner,
  nobody, main_thread, of_file, woken, System, Step, m_enter, m_exit, m_create, m_nothing, m_enough,
  m_lock, m_sleep, m_wakes, m_pass, m_skip, m_found, m_join, m_unlock, t_connect, t_eof, t_lock,
  t_count, t_signal, t_unlock, start, Run, here, later,
}

-- The sum of the weights of the first `n` files.
abbrev pub tally : (Phase → ℕ) → ℕ → (ℕ → Phase) → ℕ
tally w zero f = 0
tally w (suc n) f = tally w n f + w (f n)

module _ (w : Phase → ℕ) where
  tally-update_other :
      (n i : ℕ) (f : ℕ → Phase) (p : Phase) → n ≤ i → tally w n (update f i p) ≡ tally w n f
  tally-update_other zero i f p h = refl
  tally-update_other (suc n) i f p h =
      let e : update f i p n ≡ f n = ground arith in
      omega (arith, tally-update_other n i f p (omega arith), ap w e)

  tally-update :
      (n i : ℕ) (f : ℕ → Phase) (p : Phase)
      → i < n
      → tally w n (update f i p) + w (f i) ≡ tally w n f + w p
  tally-update zero i f p h = elim h [ ]
  tally-update (suc n) i f p h = elim (Bool-cases (i == n)) [
    | inl e ↦
        let q : i ≡ n = ground arith in
        let u : update f i p n ≡ p = ground arith in
        omega (arith, tally-update_other n i f p (omega arith), ap w u, ap w (ap f q))
    | inr e ↦
        let u : update f i p n ≡ f n = ground arith in
        let lt : i < n = ground arith in omega (arith, tally-update n i f p lt, ap w u)
  ]

  tally-le : (n i : ℕ) (f : ℕ → Phase) → i < n → w (f i) ≤ tally w n f
  tally-le zero i f h = elim h [ ]
  tally-le (suc n) i f h = elim (Bool-cases (i == n)) [
    | inl e ↦ let q : i ≡ n = ground arith in omega (arith, ap w (ap f q))
    | inr e ↦ let lt : i < n = ground arith in omega (arith, tally-le n i f lt)
  ]

  tally_zero : (n : ℕ) (f : ℕ → Phase) → ((i : ℕ) → i < n → w (f i) ≡ 0) → tally w n f ≡ 0
  tally_zero zero f h = refl
  tally_zero (suc n) f h =
      omega (arith, tally_zero n f (λ i l. h i (omega arith)), h n (omega arith))

  tally_ones : (n : ℕ) → w absent ≡ 1 → n ≡ tally w n (λ i. absent)
  tally_ones zero h = refl
  tally_ones (suc n) h = omega (arith, tally_ones n h, h)

abbrev pub to_create : Phase → ℕ
to_create absent = 1
to_create p = 0

-- Created, and not joined.
abbrev pub connected : Phase → ℕ
connected absent = 0
connected joined = 0
connected p = 1

abbrev pub to_join : Phase → ℕ
to_join joined = 0
to_join p = 1

-- Counted in ndone.
abbrev pub told : Phase → ℕ
told counted = 1
told signalled = 1
told finished = 1
told p = 0

pub record Tallies (n : ℕ) (f : ℕ → Phase) (lefttoconn conn lefttoread done : ℕ) : Type 0 where
  pub creates : lefttoconn ≡ tally to_create n f
  pub connects : conn ≡ tally connected n f
  pub joins : lefttoread ≡ tally to_join n f
  pub tells : done ≡ tally told n f

-- A file goes on to another place.
update-Tallies :
    {n a b c d : ℕ} {f : ℕ → Phase} (i : ℕ) {p : Phase} (q : Phase) (a' b' c' d' : ℕ)
    → i < n
    → f i ≡ p
    → Tallies n f a b c d
    → (a' + to_create p ≡ a + to_create q)
      × (b' + connected p ≡ b + connected q)
      × (c' + to_join p ≡ c + to_join q)
      × (d' + told p ≡ d + told q)
    → Tallies n (update f i q) a' b' c' d'
update-Tallies {n} {f = f} i q a' b' c' d' lt e t (x, y, z, u) = record {
  creates = omega (arith, tally-update to_create n i f q lt, ap to_create e, t.creates, x);
  connects = omega (arith, tally-update connected n i f q lt, ap connected e, t.connects, y);
  joins = omega (arith, tally-update to_join n i f q lt, ap to_join e, t.joins, z);
  tells = omega (arith, tally-update told n i f q lt, ap told e, t.tells, u);
}

-- What exit and err_quit stand for.
abbrev pub OnExit : MainPhase → ℕ → Type 0
OnExit exited left = left ≡ 0
OnExit quit left = ⊥
OnExit p left = Unit

pub record Inv (n limit : ℕ) (s : System) : Type 0 where
  pub tallies : Tallies n s.file s.nlefttoconn s.nconn s.nlefttoread s.ndone
  pub few : s.nconn ≤ limit
  pub ended : OnExit s.main s.nlefttoread

woken-OnExit : (p : MainPhase) (left : ℕ) → OnExit p left → OnExit (woken p) left
woken-OnExit p left e = ground arith

not_absent : (p : Phase) → p ≢ absent → to_create p ≡ 0
not_absent p h = ground arith

module _ {n limit : ℕ} {s : System} (v : Inv n limit s) where
  -- A step of main that changes no counter.
  main-Inv :
      (o : Owner) (p : MainPhase)
      → OnExit p s.nlefttoread
      → Inv n limit (record s { owner = o; main = p })
  main-Inv o p e = record { tallies = v.tallies; few = v.few; ended = e }

  -- A step of a thread that changes no counter.
  file-Inv :
      (i : ℕ) {p : Phase} (q : Phase) (o : Owner) (m : MainPhase)
      → i < n
      → s.file i ≡ p
      → (to_create p ≡ to_create q)
        × (connected p ≡ connected q)
        × (to_join p ≡ to_join q)
        × (told p ≡ told q)
      → OnExit m s.nlefttoread
      → Inv n limit (record s { file = update s.file i q; owner = o; main = m })
  file-Inv i q o m lt e (x, y, z, u) k = record {
    tallies =
        update-Tallies i q s.nlefttoconn s.nconn s.nlefttoread s.ndone lt e v.tallies
          (omega (arith, x), omega (arith, y), omega (arith, z), omega (arith, u));
    few = v.few;
    ended = k;
  }

  create-Inv :
      (i : ℕ)
      → s.main ≡ starting
      → s.nconn < limit
      → 0 < s.nlefttoconn
      → i < n
      → s.file i ≡ absent
      → Inv n limit (record s {
        file = update s.file i connecting;
        nconn = s.nconn + 1;
        nlefttoconn = s.nlefttoconn - 1;
      })
  create-Inv i m lt pos l e = record {
    tallies =
        update-Tallies i connecting (s.nlefttoconn - 1) (s.nconn + 1) s.nlefttoread s.ndone l e
          v.tallies (omega arith);
    few = omega arith;
    ended = v.ended;
  }

  join-Inv :
      (i : ℕ)
      → i < n
      → s.file i ≡ finished
      → Inv n limit (record s {
        file = update s.file i joined;
        ndone = s.ndone - 1;
        nconn = s.nconn - 1;
        nlefttoread = s.nlefttoread - 1;
        main = scanning (suc i);
      })
  join-Inv i l e =
      let t = v.tallies in
      let a : 0 < s.nconn =
        omega (arith, tally-le connected n i s.file l, ap connected e, t.connects) in
      let b : 0 < s.nlefttoread =
        omega (arith, tally-le to_join n i s.file l, ap to_join e, t.joins) in
      let c : 0 < s.ndone = omega (arith, tally-le told n i s.file l, ap told e, t.tells) in
      record {
        tallies =
            update-Tallies i joined s.nlefttoconn (s.nconn - 1) (s.nlefttoread - 1) (s.ndone - 1) l
              e t (omega (arith, a, b, c));
        few = omega (arith, v.few);
        ended = tt;
      }

  -- A file that is left to connect is found.
  found : 0 < s.nlefttoconn → ¬ ((j : ℕ) → j < n → s.file j ≢ absent)
  found pos none_left =
      let z = tally_zero to_create n s.file (λ j l. not_absent (s.file j) (none_left j l)) in
      omega (arith, z, v.tallies.creates)

  Step-Inv : {t : System} → Step n limit s t → Inv n limit t
  Step-Inv (m_enter e z) = main-Inv s.owner starting tt
  Step-Inv (m_exit e z) = main-Inv s.owner exited z
  Step-Inv (m_create i e lt pos l f h) = create-Inv i e lt pos l f
  Step-Inv (m_nothing e lt pos h) = absurd (found pos h)
  Step-Inv (m_enough e h) = main-Inv s.owner locking tt
  Step-Inv (m_lock e f) = main-Inv main_thread testing tt
  Step-Inv (m_sleep e z) = main-Inv nobody asleep tt
  Step-Inv (m_wakes e) = main-Inv s.owner locking tt
  Step-Inv (m_pass e z) = main-Inv s.owner (scanning 0) tt
  Step-Inv (m_skip i e l d) = main-Inv s.owner (scanning (suc i)) tt
  Step-Inv (m_found i e l d) = main-Inv s.owner (joining i) tt
  Step-Inv (m_join i e l f) = join-Inv i l f
  Step-Inv (m_unlock i e l) = main-Inv nobody top tt
  Step-Inv (t_connect i l e) =
      file-Inv i reading s.owner s.main l e (refl, refl, refl, refl) v.ended
  Step-Inv (t_eof i l e) = file-Inv i marked s.owner s.main l e (refl, refl, refl, refl) v.ended
  Step-Inv (t_lock i l e f) =
      file-Inv i locked (of_file i) s.main l e (refl, refl, refl, refl) v.ended
  Step-Inv (t_count i l e) = record {
    tallies =
        update-Tallies i counted s.nlefttoconn s.nconn s.nlefttoread (s.ndone + 1) l e v.tallies
          (omega arith);
    few = v.few;
    ended = v.ended;
  }
  Step-Inv (t_signal i l e) =
      file-Inv i signalled s.owner (woken s.main) l e (refl, refl, refl, refl)
        (woken-OnExit s.main s.nlefttoread v.ended)
  Step-Inv (t_unlock i l e) = file-Inv i finished nobody s.main l e (refl, refl, refl, refl) v.ended

start-Inv : (n limit : ℕ) → Inv n limit (start n)
start-Inv n limit = record {
  tallies = record {
    creates = tally_ones to_create n refl;
    connects = sym (tally_zero connected n (λ i. absent) (λ i h. refl));
    joins = tally_ones to_join n refl;
    tells = sym (tally_zero told n (λ i. absent) (λ i h. refl));
  };
  few = omega arith;
  ended = tt;
}

Run-Inv : {n limit : ℕ} {s : System} → Run n limit (start n) s → Inv n limit s
Run-Inv {n} {limit} here = start-Inv n limit
Run-Inv (later r st) = Step-Inv (Run-Inv r) st

joined-all : (p : Phase) → to_join p ≡ 0 → p ≡ joined
joined-all p h = ground arith

abbrev pub AllJoined : ℕ → (ℕ → Phase) → Type 0
AllJoined zero f = Unit
AllJoined (suc n) f = AllJoined n f × (f n ≡ joined)

tally-AllJoined : (n : ℕ) (f : ℕ → Phase) → tally to_join n f ≡ 0 → AllJoined n f
tally-AllJoined zero f h = tt
tally-AllJoined (suc n) f h =
    (tally-AllJoined n f (omega (arith, h)), joined-all (f n) (omega (arith, h)))

-- Main has not met "nothing found", and it has exited only if every thread was joined.
abbrev pub EndsWell : MainPhase → ℕ → (ℕ → Phase) → Type 0
EndsWell exited n f = AllJoined n f
EndsWell quit n f = ⊥
EndsWell p n f = Unit

OnExit-EndsWell :
    (p : MainPhase) (n left : ℕ) (f : ℕ → Phase)
    → left ≡ tally to_join n f
    → OnExit p left
    → EndsWell p n f
OnExit-EndsWell exited n left f e h = tally-AllJoined n f (omega (arith, e, h))
OnExit-EndsWell quit n left f e h = h
OnExit-EndsWell p n left f e h = ground arith

-- However the threads interleave: nconn counts the threads that are created and not joined, at most
-- maxnconn, nlefttoconn and nlefttoread count the files without a thread and without a join, and
-- ndone the threads that have told of their end and are not joined. "Nothing found" is never met, and
-- main exits only when every file's thread has been joined.
pub Run-Tallies :
    {n limit : ℕ} {s : System}
    → Run n limit (start n) s
    → Tallies n s.file s.nlefttoconn s.nconn s.nlefttoread s.ndone
      × (s.nconn ≤ limit)
      × EndsWell s.main n s.file
Run-Tallies {n} {limit} {s} r =
    let v = Run-Inv r in
    (v.tallies, v.few, OnExit-EndsWell s.main n s.nlefttoread s.file v.tallies.joins v.ended)
