-- ===== src/Rtt/Tests.antt =====
-- Calls of unpv13e/rtt/dg_send_recv.c, over an arithmetic in milliseconds.
use linux_practice.Base.{
  ℕ, ◌+◌, ◌-◌, ◌*◌, ◌/◌, ◌≡◌, refl, true, false, some, List, [], ◌∷◌, ◌++◌, length, ltb, arith,
}
use linux_practice.Rtt.{Floats, Timeval, RttInfo}
use linux_practice.Rtt.Bounds.{OrdersLimits, InLimits}
use linux_practice.Rtt.SendRecv.{
  Event, datagram, alarm, Request, Session, received, timed_out, dg_send_recv,
}
use linux_practice.Rtt.Exchange.{AllFor, dg_send_recv-received, dg_send_recv-timed_out}

-- Thousandths, with subtraction that stops at 0.
abbrev thousandths : Floats ℕ
thousandths = record {
  lt = ltb;
  add = λ a b. a + b;
  sub = λ a b. a - b;
  mul = λ a b. a * b / 1000;
  div = λ a b. a * 1000 / b;
  neg = λ a. a;
  to_float = λ a. a;
  of_ℕ = λ n. n * 1000;
  half = 500;
  three_quarters = 750;
  truncate = λ a. a / 1000;
}

thousandths-OrdersLimits : OrdersLimits thousandths
thousandths-OrdersLimits = record { min_self = refl; max_self = refl; max_min = refl }

abbrev noon : Timeval
noon = record { tv_sec = 43200; tv_usec = 0 }

abbrev slow : RttInfo ℕ
slow = record { rtt = 0; srtt = 0; rttvar = 0; rto = 40000; nrexmt = 0; base = 0 }

abbrev fresh : Session ℕ
fresh = record { info = slow; rttinit = false; seq = 6; requests = [] }

-- An old reply and an alarm come first.
abbrev delays : List Event
delays = datagram 100 6 0 noon ∷ alarm noon ∷ []

dg_send_recv-received_example :
    (t : Session ℕ) × (sent : List Request) × (dg_send_recv thousandths noon
        (delays ++ datagram 20 7 0 noon ∷ [])
        fresh
      ≡ some (received (20 - 8), t))
    × (t.requests ≡ sent)
    × (length sent ≡ 2)
    × AllFor 7 sent
    × InLimits thousandths t.info.rto
    × (t.rttinit ≡ true)
dg_send_recv-received_example =
    dg_send_recv-received thousandths thousandths-OrdersLimits noon delays [] 20 7 0 noon fresh
      (refl, tt) refl (omega arith)

abbrev silence : List Event
silence = alarm noon ∷ alarm noon ∷ alarm noon ∷ []

dg_send_recv-timed_out_example :
    (t : Session ℕ) × (sent : List Request) × (dg_send_recv thousandths noon
        (silence ++ alarm noon ∷ [])
        fresh
      ≡ some (timed_out, t))
    × (t.requests ≡ sent)
    × (length sent ≡ 4)
    × AllFor 7 sent
    × (t.rttinit ≡ false)
dg_send_recv-timed_out_example =
    dg_send_recv-timed_out thousandths noon silence [] noon fresh tt refl
