-- ===== src/Server/Prefork.antt =====
-- unpv13e/server/serv05.c and child05.c: a parent that accepts connections and passes them to
-- children, over a stream pipe to each.
pub mod Turns
pub mod Accounts
use linux_practice.Base.{
  ℕ, zero, suc, ◌+◌, ◌-◌, Bool, true, false, ◌&&◌, Option, none, some, List, [], ◌∷◌, positive,
  ◌==◌,
}

-- What a child is at: it waits for a descriptor, it serves a client, or it has written its byte to
-- the pipe and the parent has not read it yet.
pub data Phase : Type 0 where
  idle working reported : Phase

-- Child of child.h, and what the child is at.
pub record Child : Type 0 where
  pub child_pid : ℕ
  pub child_pipefd : ℕ
  pub child_status : ℕ
  pub child_count : ℕ
  pub phase : Phase

pub record Pool : Type 0 where
  pub children : List Child
  pub navail : ℕ

-- What select() and read() tell the parent in one turn: the number of descriptors found, whether
-- the listening socket is one if it is asked for, which pipes are, and which of them are at their end.
pub record Found : Type 0 where
  pub nsel : ℕ
  pub listening : Bool
  pub readable : ℕ → Bool
  pub ended : ℕ → Bool

-- child_make: the entry that the parent fills in for a new child.
unfoldable pub child_make : ℕ → ℕ → Child
child_make pid fd = record {
  child_pid = pid;
  child_pipefd = fd;
  child_status = 0;
  child_count = 0;
  phase = idle;
}

-- `cptr[i].child_status = 1; cptr[i].child_count++;` and the descriptor on its way to the child
abbrev pub engage : Child → Child
engage c = record c { child_status = 1; child_count = c.child_count + 1; phase = working }

-- `cptr[i].child_status = 0;` behind the read of the child's byte
abbrev pub release : Child → Child
release c = record c { child_status = 0; phase = idle }

abbrev pub cons_child : Child → Option (List Child) → Option (List Child)
cons_child c none = none
cons_child c (some l) = some (c ∷ l)

-- The loop for the first available child; `none` is "no available children".
unfoldable pub engage_first : List Child → Option (List Child)
engage_first [] = none
engage_first (c ∷ cs) = elim (c.child_status == 0) [
  | true ↦ some (engage c ∷ cs)
  | false ↦ cons_child c (engage_first cs)
]

abbrev pub cons_found : Child → Option (List Child × ℕ) → Option (List Child × ℕ)
cons_found c none = none
cons_found c (some (l, n)) = some (c ∷ l, n)

-- The body of the loop for newly available children, by whether the pipe is readable, whether it is
-- at its end, and whether this is the last descriptor (`--nsel == 0`). `next` and `skip` are what
-- the rest of the loop makes of the other children with a child released and with none.
abbrev pub collect_child :
    Bool
    → Bool
    → Bool
    → Child
    → List Child
    → ℕ
    → Option (List Child × ℕ)
    → Option (List Child × ℕ)
    → Option (List Child × ℕ)
collect_child false ended last c cs navail next skip = cons_found c skip
collect_child true true last c cs navail next skip = none
collect_child true false true c cs navail next skip = some (release c ∷ cs, navail + 1)
collect_child true false false c cs navail next skip = cons_found (release c) next

-- The loop; the result has navail. `none` is "child %d terminated unexpectedly".
unfoldable pub collect : Found → ℕ → List Child → ℕ → Option (List Child × ℕ)
collect t nsel [] navail = some ([], navail)
collect t nsel (c ∷ cs) navail =
    let next = collect t (nsel - 1) cs (navail + 1) in
    let skip = collect t nsel cs navail in
    collect_child (t.readable c.child_pipefd) (t.ended c.child_pipefd) (nsel == 1) c cs navail next
      skip

abbrev pub pool_of : Option (List Child × ℕ) → Option Pool
pool_of none = none
pool_of (some (l, n)) = some (record { children = l; navail = n })

-- What follows the search for an available child: `last` is whether there is nothing more to do.
abbrev pub engaged : Found → Bool → ℕ → Option (List Child) → Option Pool
engaged t last navail none = none
engaged t true navail (some l) = some (record { children = l; navail = navail - 1 })
engaged t false navail (some l) = pool_of (collect t (t.nsel - 1) l (navail - 1))

-- `if (FD_ISSET(listenfd, &rset))`
abbrev pub at_listening : Bool → Found → Pool → Option Pool
at_listening true t p = engaged t (t.nsel == 1) p.navail (engage_first p.children)
at_listening false t p = pool_of (collect t t.nsel p.children p.navail)

-- One turn of the parent's loop; `none` is an end by err_quit.
unfoldable pub turn : Found → Pool → Option Pool
turn t p = at_listening (positive p.navail && t.listening) t p

-- `navail = nchildren`, behind the loop that makes the children with the given pids and pipes.
unfoldable pub make_children : List (ℕ × ℕ) → List Child
unfolding child_make
make_children [] = []
make_children ((pid, fd) ∷ l) = child_make pid fd ∷ make_children l
